-- ===== src/Ilock/Tests.antt =====
-- src/fev_ilock.c: fiber 0 holds the lock while fiber 1 waits for it.
use libfev.Base.{◌≡◌, refl, arith, none, [], ◌∷◌, update}
use libfev.Ilock.{
  lock_slow, appended, waiting, holding, unlock_slow, System, Step, Reach, initial, later, init,
  unlock_fast, unlock_waiters, remove_first,
}
use libfev.Ilock.Next.{HandedOver}
use libfev.Ilock.Safety.{Exclusion, ilock_excludes, ilock_hands_over}
use libfev.Ilock.Inner.{Run}
use libfev.Ilock.Served.{ilock_serves}

abbrev taken : System
taken = record init { state = 1; phases = update init.phases 0 holding }

abbrev contended : System
contended = record {
  state = 2;
  waiters = 1 ∷ [];
  section = none;
  phases = update (update (update taken.phases 1 lock_slow) 1 appended) 1 waiting;
}

contended-Reach : Reach contended
contended-Reach =
    later
      (later (later (later initial (Step.lock 0 refl refl)) (Step.lock_fails 1 refl))
        (Step.exchange_held 1 refl refl (omega arith)))
      (Step.lock_post 1 refl)

abbrev releasing : System
releasing = record contended { phases = update contended.phases 0 unlock_slow }

releasing-Reach : Reach releasing
unfolding unlock_fast
releasing-Reach = later contended-Reach (Step.unlock 0 refl)

unlock_waiters_test : (unlock_waiters 0 releasing).state ≡ 1
unfolding unlock_waiters remove_first
unlock_waiters_test = refl

ilock_excludes_example : Exclusion contended
ilock_excludes_example = ilock_excludes contended-Reach

ilock_hands_over_example : HandedOver releasing 0 (unlock_waiters 0 releasing)
ilock_hands_over_example = ilock_hands_over releasing-Reach 0 refl refl

ilock_serves_example : (t : System) × Run contended t × (t.phases 1 ≡ holding)
ilock_serves_example = ilock_serves contended-Reach 1 refl
