-- ===== src/SchedInit.antt =====
-- src/fev_sched_steal_locking.c: `fev_sched_init`, with the initialisations on the way and the `goto`
-- chain that undoes them, and `fev_sched_fini`.
mod Cleanup
mod Tests
use libfev.Base.{
  ℕ, zero, suc, ◌+◌, ◌-◌, Bool, true, false, List, ◌∷◌, Option, none, some, Ret, ok, err, Errno,
}

-- What the allocator and the initialisations answer. An array is named by its address.
pub record Answers : Type 0 where
  pub alloc : Option ℕ
  pub lock_init : (worker : ℕ) → Ret (Unit {0})
  pub poller_init : Ret (Unit {0})
  pub timers_init : Ret (Unit {0})
  pub sem_init : Ret (Unit {0})

-- The fields of the scheduler, the arrays that are allocated and those that were freed, how many locks
-- of workers are initialised, and which of the other parts.
pub record State : Type 0 where
  pub workers : ℕ
  pub num_workers : ℕ
  pub allocated : List ℕ
  pub freed : List ℕ
  pub locks : ℕ
  pub poller : Bool
  pub timers : Bool
  pub sem : Bool

abbrev pub free : ℕ → State → State
free array s = record s { freed = array ∷ s.freed }

-- One round of the loop of `fev_sched_init_workers`, given what the rounds after it do.
abbrev pub init_lock :
    Ret (Unit {0})
    → (n : ℕ) → State
    → (rest : Ret (Unit {0}) × ℕ × State) → Ret (Unit {0}) × ℕ × State
init_lock (ok _) n s rest = rest
init_lock (err e) n s rest = (err e, n, s)

-- The loop, from worker `n` on: the result, the `n` that it ends with, and the state.
unfoldable pub init_locks : Answers → (count n : ℕ) → State → Ret (Unit {0}) × ℕ × State
init_locks answers zero n s = (ok tt, n, s)
init_locks answers (suc count) n s =
    init_lock (answers.lock_init n) n s
      (init_locks answers count (n + 1) (record s { locks = s.locks + 1 }))

-- `while (n-- > 0)`: each of the first `n` locks is finalised.
unfoldable pub fini_locks : (n : ℕ) → State → State
fini_locks zero s = s
fini_locks (suc n) s = fini_locks n (record s { locks = s.locks - 1 })

-- The end of `fev_sched_init_workers`, with its array `workers`.
unfoldable pub keep_workers :
    (workers num_workers : ℕ) → Ret (Unit {0}) × ℕ × State → Ret (Unit {0}) × State
unfolding fini_locks
keep_workers workers num_workers (ok _, n, s) =
    (ok tt, record s { workers = workers; num_workers = num_workers })
keep_workers workers num_workers (err e, n, s) =
    let s' = fini_locks n s in (err e, free s'.workers s')

unfoldable pub init_workers :
    Answers → Option ℕ → (num_workers : ℕ) → State → Ret (Unit {0}) × State
unfolding keep_workers init_locks
init_workers answers none num_workers s = (err Errno.nomem, s)
init_workers answers (some workers) num_workers s =
    keep_workers workers num_workers
      (init_locks answers num_workers 0 (record s { allocated = workers ∷ s.allocated }))

unfoldable pub fini_workers : State → State
unfolding fini_locks
fini_workers s = free s.workers (fini_locks s.num_workers s)

-- Labels `fail_workers`, `fail_poller` and `fail_timers`.
unfoldable pub fail_workers : Errno → State → Ret (Unit {0}) × State
unfolding fini_workers
fail_workers e s = (err e, fini_workers s)

unfoldable pub fail_poller : Errno → State → Ret (Unit {0}) × State
unfolding fail_workers
fail_poller e s = fail_workers e (record s { poller = false })

unfoldable pub fail_timers : Errno → State → Ret (Unit {0}) × State
unfolding fail_poller
fail_timers e s = fail_poller e (record s { timers = false })

-- After each of the initialisations of `fev_sched_init`.
unfoldable pub after_sem : Ret (Unit {0}) → State → Ret (Unit {0}) × State
unfolding fail_timers
after_sem (err e) s = fail_timers e s
after_sem (ok _) s = (ok tt, record s { sem = true })

unfoldable pub after_timers : Answers → Ret (Unit {0}) → State → Ret (Unit {0}) × State
unfolding fail_poller after_sem
after_timers answers (err e) s = fail_poller e s
after_timers answers (ok _) s = after_sem answers.sem_init (record s { timers = true })

unfoldable pub after_poller : Answers → Ret (Unit {0}) → State → Ret (Unit {0}) × State
unfolding fail_workers after_timers
after_poller answers (err e) s = fail_workers e s
after_poller answers (ok _) s =
    after_timers answers answers.timers_init (record s { poller = true })

unfoldable pub after_workers : Answers → Ret (Unit {0}) × State → Ret (Unit {0}) × State
unfolding after_poller
after_workers answers (err e, s) = (err e, s)
after_workers answers (ok _, s) = after_poller answers answers.poller_init s

unfoldable pub init : Answers → (num_workers : ℕ) → State → Ret (Unit {0}) × State
unfolding after_workers init_workers
init answers num_workers s =
    after_workers answers (init_workers answers answers.alloc num_workers s)

unfoldable pub fini : State → State
unfolding fini_workers
fini s = fini_workers (record s { sem = false; timers = false; poller = false })
