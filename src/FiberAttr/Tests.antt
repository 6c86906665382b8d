-- ===== src/FiberAttr/Tests.antt =====
-- src/fev_fiber_attr.c with pages of 4096 bytes.
use libfev.Base.{◌≡◌, refl, false, true, ok, List, [], ◌∷◌}
use libfev.FiberAttr.{
  Attr, Config, create, default_attr, Setter, stack, stack_size, detached, calls,
}
use libfev.FiberAttr.Laws.{IsPaged, whole_pages}

abbrev config : Config
config = record { page_size = 4096; default_stack_size = 65536; default_guard_size = 4096 }

abbrev attr : Attr
attr = record { stack_addr = 0; stack_size = 65536; guard_size = 4096; detached = false }

abbrev setters : List Setter
setters = stack_size 8192 ∷ stack 40960 100 ∷ detached true ∷ []

created : create config true ≡ ok attr
unfolding create default_attr
created = refl

whole_pages_example : IsPaged config (calls config setters attr)
whole_pages_example = whole_pages config setters attr refl refl created
