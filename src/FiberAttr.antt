-- ===== src/FiberAttr.antt =====
-- src/fev_fiber_attr.c: the attributes of a fiber. The page size and the default sizes are constants of
-- the build's configuration (include/fev/config.h.in), and so arguments.
mod Laws
mod Tests
use libfev.Base.{ℕ, ◌%◌, ◌==◌, if◌then◌else◌, Bool, false, not, Ret, ok, err, Errno, List, [], ◌∷◌}

-- A NULL `stack_addr` is 0.
pub record Attr : Type 0 where
  pub stack_addr : ℕ
  pub stack_size : ℕ
  pub guard_size : ℕ
  pub detached : Bool

pub record Config : Type 0 where
  pub page_size : ℕ
  pub default_stack_size : ℕ
  pub default_guard_size : ℕ

-- `fev_fiber_create_default_attr`, and `fev_fiber_spawn_default_attr`, which is detached
unfoldable pub default_attr : Config → (detached : Bool) → Attr
default_attr config detached = record {
  stack_addr = 0;
  stack_size = config.default_stack_size;
  guard_size = config.default_guard_size;
  detached = detached;
}

-- `allocated` says whether `fev_malloc` gives memory.
unfoldable pub create : Config → (allocated : Bool) → Ret Attr
create config allocated = if allocated then ok (default_attr config false) else err Errno.nomem

unfoldable pub set_stack : Config → (stack_addr stack_size : ℕ) → Attr → Ret (Unit {0}) × Attr
set_stack config stack_addr stack_size attr =
    if not (stack_addr % config.page_size == 0)
    then (err Errno.inval, attr)
    else if not (stack_size % config.page_size == 0)
    then (err Errno.inval, attr)
    else (ok tt, record attr { stack_addr = stack_addr; stack_size = stack_size })

unfoldable pub set_stack_size : Config → (stack_size : ℕ) → Attr → Ret (Unit {0}) × Attr
set_stack_size config stack_size attr =
    if not (stack_size % config.page_size == 0)
    then (err Errno.inval, attr)
    else (ok tt, record attr { stack_size = stack_size })

unfoldable pub set_guard_size : Config → (guard_size : ℕ) → Attr → Ret (Unit {0}) × Attr
set_guard_size config guard_size attr =
    if not (guard_size % config.page_size == 0)
    then (err Errno.inval, attr)
    else (ok tt, record attr { guard_size = guard_size })

unfoldable pub set_detached : Bool → Attr → Attr
set_detached detached attr = record attr { detached = detached }

unfoldable pub get_stack : Attr → ℕ × ℕ
get_stack attr = (attr.stack_addr, attr.stack_size)

unfoldable pub get_stack_size : Attr → ℕ
get_stack_size attr = attr.stack_size

unfoldable pub get_guard_size : Attr → ℕ
get_guard_size attr = attr.guard_size

unfoldable pub get_detached : Attr → Bool
get_detached attr = attr.detached

-- A call of a setter.
pub data Setter : Type 0 where
  stack : (stack_addr stack_size : ℕ) → Setter
  stack_size : ℕ → Setter
  guard_size : ℕ → Setter
  detached : Bool → Setter

unfoldable pub call : Config → Setter → Attr → Ret (Unit {0}) × Attr
call config (stack addr size) attr = set_stack config addr size attr
call config (stack_size size) attr = set_stack_size config size attr
call config (guard_size size) attr = set_guard_size config size attr
call config (detached b) attr = (ok tt, set_detached b attr)

unfoldable pub calls : Config → List Setter → Attr → Attr
calls config [] attr = attr
calls config (s ∷ ss) attr = calls config ss (call config s attr).1
