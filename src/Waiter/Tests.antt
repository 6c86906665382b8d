-- ===== src/Waiter/Tests.antt =====
-- One wait in which a handler sets the reason before the post operation enables wake-ups.
use libfev.Base.{ℕ, zero, suc, ◌≡◌, ◌⊎◌, refl, arith, true, false, update}
use libfev.Waiter.{
  failed, set_only, set_and_wake_up, finished, start, won, leaving, ended, System, PostStep,
  WakeStep, post_step, wake_step, Reach, initial, later, wait_result,
}
use libfev.Waiter.Inv.{wins, reason_of, is_ended, is_finished}
use libfev.Waiter.Safety.{woken_once, wait_returns}

-- handler 0 comes with FEV_WAITER_READY, the others with FEV_WAITER_TIMED_OUT_CHECK
abbrev reasons : ℕ → ℕ
reasons i = elim i [ zero ↦ 1 | suc _ ↦ 2 ]

-- every thread has finished
abbrev last : System
last = record {
  waiter = record {
    reason = 1;
    do_wake = false;
    wake_reason = 1;
    wait_for_post = false;
    wait_for_wake = false;
  };
  post = finished true;
  wakers =
      update
        (update (update (update (λ i. start (reasons i)) 0 (won 1)) 0 (leaving 1 false)) 1
          (ended 2 failed))
        0 (ended 1 set_only);
}

last-Reach : Reach true 7 reasons last
last-Reach =
    later
      (later
        (later
          (later
            (later
              (later
                (later
                  (later (later initial (wake_step 0 (WakeStep.cas_win (omega arith) refl)))
                    (wake_step 0 (WakeStep.miss refl)))
                  (post_step PostStep.store_do_wake))
                (wake_step 1 (WakeStep.cas_lose (omega arith) (omega arith))))
              (wake_step 0 WakeStep.store_wake))
            (post_step (PostStep.load_some (omega arith))))
          (post_step (PostStep.take refl)))
        (post_step PostStep.store_reason))
      (post_step PostStep.store_post)

woken_once_example :
    (last.waiter.wake_reason ≡ 1)
    × ((true ≡ true) × (set_only ≡ set_only) ⊎ (true ≡ false) × (set_only ≡ set_and_wake_up))
woken_once_example =
    woken_once last-Reach {b = true} {i = 0} {reason = 1} {res = set_only} refl refl (cc)

wait_returns_example :
    (is_finished last.post ≡ true)
    × ((i : ℕ)
        → wins (last.wakers i) ≡ true
        → (is_ended (last.wakers i) ≡ true) × (reason_of (last.wakers i) ≡ 1))
    × ((k : ℕ) × (wins (last.wakers k) ≡ true))
unfolding wait_result
wait_returns_example = wait_returns last-Reach {reason = 1} refl
