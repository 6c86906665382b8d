-- ===== src/FiberCreate/Cleanup.antt =====
-- Either the whole fiber is there, or nothing is.
use libfev.Base.{
  ℕ, ◌+◌, ◌%◌, ◌^◌, ◌==◌, ◌≡◌, inl, inr, arith, refl, if◌then◌else◌, Bool, true, false, not, ◌&&◌,
  Option, Ret, ok, err, Errno, Bool-cases,
}
use libfev.FiberAttr.{Attr, Config}
use libfev.FiberCreate.{
  Sched, null, own, other, Answers, Fiber, Live, nothing, fail_fiber, fail_fiber_stack, fail_cond,
  finish, init_mutex, init_cond, with_stack, own_stack, build, attr_or_default, fiber_create,
}

-- A call succeeds with everything there, once counted and once scheduled, or fails with nothing left.
pub data Clean (in_worker : Bool) (attr : Attr) : Ret Fiber × Live → Type 0 where
  created :
      {fiber : Fiber} {live : Live}
      → live.fiber ≡ true
      → live.stack ≡ not fiber.user_stack
      → live.cond ≡ true
      → live.mutex ≡ true
      → live.num_fibers ≡ 1
      → live.woken ≡ (if in_worker then 1 else 0)
      → live.put ≡ (if in_worker then 0 else 1)
      → fiber.user_stack ≡ not (attr.stack_addr == 0)
      → fiber.joinable ≡ not attr.detached
      → fiber.ref_count ≡ (if fiber.joinable then 2 else 1)
      → Clean in_worker attr (ok fiber, live)
  failed : {e : Errno} → Clean in_worker attr (err e, nothing)

refs : (d : Bool) → ◌≡◌ {A = ℕ} (if d then 1 else 2) (if not d then 2 else 1)
refs true = refl
refs false = refl

-- The fiber is for the scheduler of the caller's own worker.
abbrev pub is_local : Sched → Bool
is_local (other _) = false
is_local _ = true

module _ (answers : Answers) (w : Bool) (attr : Attr) where
  init_mutex-Clean :
      (a : Ret (Unit {0})) (f : Fiber)
      → f.user_stack ≡ not (attr.stack_addr == 0)
      → Clean w attr (
          init_mutex a w attr.detached f
            (record nothing { fiber = true; stack = not f.user_stack; cond = true }))
  unfolding init_mutex fail_cond fail_fiber_stack fail_fiber finish
  init_mutex-Clean (err e) f u = elim (Bool-cases f.user_stack) [
    | inl t ↦ rw t failed
    | inr t ↦ rw t failed
  ]
  init_mutex-Clean (ok _) f u = elim (Bool-cases w) [
    | inl t ↦ rw t (ends true t)
    | inr t ↦ rw t (ends false t)
  ]
    where
      live : Live
      live = record nothing { fiber = true; stack = not f.user_stack; cond = true; mutex = true }

      ends : (c : Bool) → w ≡ c → Clean c attr (finish c attr.detached f live)
      ends true t = created refl refl refl refl refl refl refl u refl (refs attr.detached)
      ends false t = created refl refl refl refl refl refl refl u refl (refs attr.detached)

  init_cond-Clean :
      (a : Ret (Unit {0})) (f : Fiber)
      → f.user_stack ≡ not (attr.stack_addr == 0)
      → Clean w attr (
          init_cond answers a w attr.detached f
            (record nothing { fiber = true; stack = not f.user_stack }))
  unfolding init_cond fail_fiber_stack fail_fiber
  init_cond-Clean (err e) f u = elim (Bool-cases f.user_stack) [
    | inl t ↦ rw t failed
    | inr t ↦ rw t failed
  ]
  init_cond-Clean (ok _) f u = init_mutex-Clean answers.mutex_init f u

  own_stack-Clean :
      (a : Ret ℕ)
      → attr.stack_addr ≡ 0
      → Clean w attr (own_stack answers a w attr (record nothing { fiber = true }))
  unfolding own_stack fail_fiber
  own_stack-Clean (err e) z = failed
  own_stack-Clean (ok addr) z =
      init_cond-Clean answers.cond_init
        (with_stack addr ((attr.stack_size + attr.guard_size) % 2 ^ 64) false) (ground arith)

  build-Clean : Clean w attr (build answers w attr)
  unfolding build
  build-Clean = elim (Bool-cases (not w && not attr.detached)) [
    | inl t ↦ rw t failed
    | inr t ↦ rw t (elim (Bool-cases (not answers.malloc)) [
      | inl m ↦ rw m failed
      | inr m ↦ rw m (elim (Bool-cases (attr.stack_addr == 0)) [
        | inl z ↦ rw z (own_stack-Clean answers.stack_alloc (ground arith))
        | inr z ↦ rw z (
            init_cond-Clean answers.cond_init (with_stack attr.stack_addr attr.stack_size true)
              (rw z refl))
      ])
    ])
  ]

-- Whatever the allocator and the initialisations answer, creating a fiber either returns a fiber with
-- all its parts alive, counted once, scheduled once (in the caller's worker or in the named scheduler)
-- and with a reference for itself and, if it is joinable, one for the joiner; or it returns an error
-- and nothing that it allocated or initialised is left. A stack is allocated exactly when the user
-- gives none.
pub fiber_create_lem :
    (config : Config) (answers : Answers) (has_worker : Bool) (sched : Sched) (attr : Option Attr)
    → Clean
        (is_local sched)
        (attr_or_default config attr)
        (fiber_create config answers has_worker sched attr)
unfolding fiber_create
fiber_create_lem config answers false null attr = failed
fiber_create_lem config answers true null attr =
    build-Clean answers true (attr_or_default config attr)
fiber_create_lem config answers has_worker own attr =
    build-Clean answers true (attr_or_default config attr)
fiber_create_lem config answers has_worker (other true) attr = failed
fiber_create_lem config answers has_worker (other false) attr =
    build-Clean answers false (attr_or_default config attr)
