-- ===== src/Mutex/Tests.antt =====
-- src/fev_mutex.c: fiber 0 holds the mutex while fiber 1 waits for it.
use libfev.Base.{
  ℕ, zero, suc, ◌≡◌, ◌==◌, refl, arith, true, false, none, some, [], ◌∷◌, elem, if◌then◌else◌,
  update,
}
use libfev.Waiter.{WakeResult, failed, set_only}
use libfev.WaitersQueue.{is_set, wake_loop, wait_leave}
use libfev.Mutex.{
  idle, wants, waiting, no_timer, lost, holding, unlocking, in_callback, System, Step, Reach,
  initial, later, init, try_lock, unlock_fast, accepts, after_wake, unlock_callback, hand_over,
}
use libfev.Mutex.Inv.{owns}
use libfev.Mutex.Safety.{mutual_exclusion, sleepers_seen}

abbrev taken : System
taken = record init { state = 1; phases = update init.phases 0 holding }

abbrev contended : System
contended = record taken {
  state = 2;
  nodes = 1 ∷ [];
  phases = update (update taken.phases 1 wants) 1 waiting;
}

contended-Reach : Reach contended
unfolding try_lock
contended-Reach =
    later (later (later initial (Step.lock 0 refl)) (Step.lock 1 refl))
      (Step.recheck_held 1 refl refl (omega arith))

abbrev outcome : ℕ → WakeResult
outcome k = if k == 1 then set_only else failed

-- fiber 0 has called the slow path
abbrev releasing : System
releasing = record contended { phases = update contended.phases 0 unlocking }

releasing-Reach : Reach releasing
unfolding unlock_fast
releasing-Reach = later contended-Reach (Step.unlock 0 refl)

releasing-agrees : (k : ℕ) → is_set (outcome k) ≡ accepts (releasing.phases k)
releasing-agrees zero = refl
releasing-agrees (suc zero) = refl
releasing-agrees (suc (suc k)) = ground arith

abbrev handed_over : System
handed_over = record {
  state = 2;
  nodes = [];
  section = some 0;
  phases = update (update releasing.phases 1 holding) 0 (in_callback 1 true);
}

handed_over-Reach : Reach handed_over
unfolding after_wake hand_over wake_loop
handed_over-Reach = later releasing-Reach (Step.wake 0 outcome refl refl releasing-agrees)

mutual_exclusion_example : (◌≡◌ {A = ℕ} 1 1) × ((try_lock handed_over.state).0 ≡ false)
mutual_exclusion_example = mutual_exclusion handed_over-Reach 1 1 refl refl

sleepers_seen_example :
    (contended.state ≡ 2)
    × (elem 1 contended.nodes ≡ true)
    × ((unlock_fast contended.state).0 ≡ false)
sleepers_seen_example = sleepers_seen contended-Reach 1 refl

-- The timer of fiber 1 cannot be allocated, and fiber 0 hands the mutex over before fiber 1 leaves.
abbrev failing : System
failing = record releasing { phases = update releasing.phases 1 no_timer }

failing-agrees : (k : ℕ) → is_set (outcome k) ≡ accepts (failing.phases k)
failing-agrees zero = refl
failing-agrees (suc zero) = refl
failing-agrees (suc (suc k)) = ground arith

abbrev stuck : System
stuck = record {
  state = 1;
  nodes = [];
  section = none;
  phases =
      update (update (update (update failing.phases 1 lost) 0 (in_callback 1 true)) 0 idle) 1 idle;
}

stuck-Reach : Reach stuck
unfolding after_wake hand_over wake_loop unlock_callback wait_leave
stuck-Reach =
    later
      (later
        (later (later releasing-Reach (Step.timer_fails 1 refl))
          (Step.wake 0 outcome refl refl failing-agrees))
        (Step.callback 0 1 true refl))
      (Step.leave 1 refl refl)

-- The mutex stays locked although no fiber owns it.
stuck-owns : (i : ℕ) → owns (stuck.phases i) ≡ false
stuck-owns zero = refl
stuck-owns (suc zero) = refl
stuck-owns (suc (suc i)) = ground arith
