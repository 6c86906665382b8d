-- ===== src/FiberCreate.antt =====
-- src/fev_fiber.c: `fev_fiber_create` and `fev_fiber_spawn`, with every allocation and initialisation on
-- the way and the `goto` chain that undoes them. What the allocator, the stack's allocator and the
-- initialisations answer is an argument.
mod Cleanup
mod Tests
use libfev.Base.{
  ℕ, ◌+◌, ◌%◌, ◌^◌, ◌==◌, if◌then◌else◌, Bool, true, false, not, ◌&&◌, Option, none, some, Ret, ok,
  err, Errno,
}
use libfev.FiberAttr.{Attr, Config, default_attr}

-- The scheduler that the caller names: NULL, the one of its own worker, or another one.
pub data Sched : Type 0 where
  null : Sched
  own : Sched
  other : (is_running : Bool) → Sched

pub record Answers : Type 0 where
  pub malloc : Bool
  pub stack_alloc : Ret ℕ
  pub cond_init : Ret (Unit {0})
  pub mutex_init : Ret (Unit {0})

-- The fields that `fev_fiber_create` sets and that later functions read.
pub record Fiber : Type 0 where
  pub stack_addr : ℕ
  pub total_stack_size : ℕ
  pub user_stack : Bool
  pub joinable : Bool
  pub ref_count : ℕ

-- What is allocated or initialised, and how many fibers were counted and scheduled, and where.
pub record Live : Type 0 where
  pub fiber : Bool
  pub stack : Bool
  pub cond : Bool
  pub mutex : Bool
  pub num_fibers : ℕ
  pub woken : ℕ
  pub put : ℕ

abbrev pub nothing : Live
nothing = record {
  fiber = false;
  stack = false;
  cond = false;
  mutex = false;
  num_fibers = 0;
  woken = 0;
  put = 0;
}

-- Label `fail_fiber`.
unfoldable pub fail_fiber : Errno → Live → Ret Fiber × Live
fail_fiber e live = (err e, record live { fiber = false })

-- Label `fail_fiber_stack`.
unfoldable pub fail_fiber_stack : (user_stack : Bool) → Errno → Live → Ret Fiber × Live
unfolding fail_fiber
fail_fiber_stack user_stack e live =
    fail_fiber e (if not user_stack then record live { stack = false } else live)

-- Label `fail_cond`.
unfoldable pub fail_cond : (user_stack : Bool) → Errno → Live → Ret Fiber × Live
unfolding fail_fiber_stack
fail_cond user_stack e live = fail_fiber_stack user_stack e (record live { cond = false })

-- From the reference count to the end.
unfoldable pub finish : (in_worker detached : Bool) → Fiber → Live → Ret Fiber × Live
finish in_worker detached fiber live =
    let counted = record live { num_fibers = live.num_fibers + 1 } in
    (
      ok (record fiber { joinable = not detached; ref_count = if detached then 1 else 2 }),
      if in_worker
          then record counted { woken = live.woken + 1 }
          else record counted { put = live.put + 1 },
    )

unfoldable pub init_mutex :
    Ret (Unit {0}) → (in_worker detached : Bool) → Fiber → Live → Ret Fiber × Live
unfolding fail_cond finish
init_mutex (err e) in_worker detached fiber live = fail_cond fiber.user_stack e live
init_mutex (ok _) in_worker detached fiber live =
    finish in_worker detached fiber (record live { mutex = true })

unfoldable pub init_cond :
    Answers → Ret (Unit {0}) → (in_worker detached : Bool) → Fiber → Live → Ret Fiber × Live
unfolding fail_fiber_stack init_mutex
init_cond answers (err e) in_worker detached fiber live = fail_fiber_stack fiber.user_stack e live
init_cond answers (ok _) in_worker detached fiber live =
    init_mutex answers.mutex_init in_worker detached fiber (record live { cond = true })

-- With a stack, the user's or an allocated one.
abbrev pub with_stack : (addr size : ℕ) (user : Bool) → Fiber
with_stack addr size user = record {
  stack_addr = addr;
  total_stack_size = size;
  user_stack = user;
  joinable = false;
  ref_count = 0;
}

unfoldable pub own_stack : Answers → Ret ℕ → (in_worker : Bool) → Attr → Live → Ret Fiber × Live
unfolding fail_fiber init_cond
own_stack answers (err e) in_worker attr live = fail_fiber e live
own_stack answers (ok addr) in_worker attr live =
    init_cond answers answers.cond_init in_worker attr.detached
      (with_stack addr ((attr.stack_size + attr.guard_size) % 2 ^ 64) false)
      (record live { stack = true })

-- From the check of the attributes on.
unfoldable pub build : Answers → (in_worker : Bool) → Attr → Ret Fiber × Live
unfolding own_stack init_cond
build answers in_worker attr =
    let live = record nothing { fiber = true } in
    if not in_worker && not attr.detached
    then (err Errno.inval, nothing)
    else if not answers.malloc
    then (err Errno.nomem, nothing)
    else if not (attr.stack_addr == 0)
    then init_cond answers answers.cond_init in_worker attr.detached
        (with_stack attr.stack_addr attr.stack_size true) live
    else own_stack answers answers.stack_alloc in_worker attr live

abbrev pub attr_or_default : Config → Option Attr → Attr
attr_or_default config none = default_attr config false
attr_or_default config (some attr) = attr

-- `has_worker` says whether the caller runs in a worker; `own` is only possible then.
unfoldable pub fiber_create :
    Config → Answers → (has_worker : Bool) → Sched → Option Attr → Ret Fiber × Live
unfolding build
fiber_create config answers false null attr = (err Errno.inval, nothing)
fiber_create config answers true null attr = build answers true (attr_or_default config attr)
fiber_create config answers has_worker own attr = build answers true (attr_or_default config attr)
fiber_create config answers has_worker (other is_running) attr =
    if is_running
    then (err Errno.inval, nothing)
    else build answers false (attr_or_default config attr)

unfoldable pub fiber_spawn : Config → Answers → (has_worker : Bool) → Sched → Ret Fiber × Live
unfolding fiber_create
fiber_spawn config answers has_worker sched =
    fiber_create config answers has_worker sched (some (default_attr config true))
