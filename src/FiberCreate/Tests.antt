-- ===== src/FiberCreate/Tests.antt =====
-- src/fev_fiber.c: creating a fiber whose mutex cannot be initialised.
use libfev.Base.{◌≡◌, refl, true, none, ok, err, Errno}
use libfev.FiberAttr.{Config, default_attr}
use libfev.FiberCreate.{own, Answers, nothing, attr_or_default, fiber_create}
use libfev.FiberCreate.Cleanup.{Clean, fiber_create_lem}

abbrev config : Config
config = record { page_size = 4096; default_stack_size = 65536; default_guard_size = 4096 }

abbrev answers : Answers
answers = record {
  malloc = true;
  stack_alloc = ok 40960;
  cond_init = ok tt;
  mutex_init = err Errno.nomem;
}

fiber_create_test : fiber_create config answers true own none ≡ (err Errno.nomem, nothing)
unfolding fiber_create default_attr
fiber_create_test = refl

fiber_create_lem_example :
    Clean true (attr_or_default config none) (fiber_create config answers true own none)
fiber_create_lem_example = fiber_create_lem config answers true own none
