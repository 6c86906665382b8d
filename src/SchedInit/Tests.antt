-- ===== src/SchedInit/Tests.antt =====
-- src/fev_sched_steal_locking.c: two workers, whose array is at 64.
use libfev.Base.{◌≡◌, ◌==◌, refl, arith, if◌then◌else◌, true, false, [], ◌∷◌, some, ok, err, Errno}
use libfev.SchedInit.{Answers, init, fini}
use libfev.SchedInit.Cleanup.{fresh, partly, Inited, init_lem, fini-init}

abbrev answers : Answers
answers = record {
  alloc = some 64;
  lock_init = λ i. ok tt;
  poller_init = ok tt;
  timers_init = ok tt;
  sem_init = ok tt;
}

-- The lock of the second worker cannot be initialised.
abbrev refused : Answers
refused = record answers { lock_init = λ i. if i == 1 then err Errno.again else ok tt }

leak_test : (init refused 2 (fresh 999 0)).1.freed ≡ 999 ∷ []
unfolding init
leak_test = refl

init_lem_example : Inited refused 999 0 2 (init refused 2 (fresh 999 0))
init_lem_example = init_lem refused 999 0 2 (omega arith)

init_done : init answers 2 (fresh 999 0) ≡ (ok tt, partly 64 2 2 [] true true true)
unfolding init
init_done = refl

fini-init_example :
    ((fini (partly 64 2 2 [] true true true)).freed ≡ 64 ∷ [])
    × ((fini (partly 64 2 2 [] true true true)).locks ≡ 0)
    × ((fini (partly 64 2 2 [] true true true)).poller ≡ false)
    × ((fini (partly 64 2 2 [] true true true)).timers ≡ false)
    × ((fini (partly 64 2 2 [] true true true)).sem ≡ false)
fini-init_example = fini-init answers 999 0 2 (partly 64 2 2 [] true true true) init_done
