-- ===== src/FiberAttr/Laws.antt =====
-- The sizes of the stack and the guard stay whole pages.
use libfev.Base.{ℕ, ◌%◌, ◌&&◌, ◌==◌, ◌≡◌, ◌⊎◌, arith, true, false, ok, err, Errno, List, [], ◌∷◌}
use libfev.FiberAttr.{
  Attr, Config, default_attr, create, set_stack, set_stack_size, set_guard_size, set_detached,
  get_stack, get_guard_size, get_detached, Setter, stack, stack_size, guard_size, detached, call,
  calls,
}

-- Whole pages.
pub record IsPaged (config : Config) (attr : Attr) : Type 0 where
  pub addr : attr.stack_addr % config.page_size ≡ 0
  pub stack : attr.stack_size % config.page_size ≡ 0
  pub guard : attr.guard_size % config.page_size ≡ 0

call-IsPaged :
    (config : Config) (s : Setter) (attr : Attr)
    → IsPaged config attr
    → IsPaged config (call config s attr).1
unfolding call set_stack set_stack_size set_guard_size set_detached
call-IsPaged config (stack addr size) attr p = ground arith
call-IsPaged config (stack_size size) attr p = ground arith
call-IsPaged config (guard_size size) attr p = ground arith
call-IsPaged config (detached b) attr p = ground arith

calls-IsPaged :
    (config : Config) (ss : List Setter) (attr : Attr)
    → IsPaged config attr
    → IsPaged config (calls config ss attr)
unfolding calls
calls-IsPaged config [] attr p = p
calls-IsPaged config (s ∷ ss) attr p =
    calls-IsPaged config ss (call config s attr).1 (call-IsPaged config s attr p)

-- With default sizes of whole pages, attributes that were created keep whole pages through any calls
-- of the setters, the refused ones included.
pub whole_pages :
    (config : Config) (ss : List Setter) (attr : Attr)
    → config.default_stack_size % config.page_size ≡ 0
    → config.default_guard_size % config.page_size ≡ 0
    → create config true ≡ ok attr
    → IsPaged config (calls config ss attr)
unfolding create default_attr
whole_pages config ss attr p q e = calls-IsPaged config ss attr (ground arith)

-- Setting the stack succeeds exactly when address and size are whole pages, and the getter then gives
-- them back, while the guard and the detached flag stay; else EINVAL is returned and nothing changes.
pub set_stack_lem :
    (config : Config) (addr size : ℕ) (attr : Attr)
    → let (r, attr') = set_stack config addr size attr in
      ((r ≡ ok tt)
        × (addr % config.page_size ≡ 0)
        × (size % config.page_size ≡ 0)
        × (get_stack attr' ≡ (addr, size))
        × (get_guard_size attr' ≡ get_guard_size attr)
        × (get_detached attr' ≡ get_detached attr))
      ⊎ ((r ≡ err Errno.inval)
          × (((addr % config.page_size == 0) && (size % config.page_size == 0)) ≡ false)
          × (attr' ≡ attr))
unfolding set_stack get_stack get_guard_size get_detached
set_stack_lem config addr size attr = ground arith
