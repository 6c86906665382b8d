-- ===== src/Cond/Tests.antt =====
-- src/fev_cond.c: fibers 0 and 1 wait, and one of them is notified.
use libfev.Base.{ℕ, ◌≡◌, ◌==◌, refl, [], ◌∷◌, if◌then◌else◌, update}
use libfev.Waiter.{WakeResult, failed, set_only}
use libfev.WaitersQueue.{wake_loop}
use libfev.Cond.{holding, wants, unlocked, waiting, relocks, System, init, notify, tell}

abbrev first_waits : System
first_waits = record init {
  nodes = 0 ∷ [];
  phases = update (update (update (update init.phases 0 holding) 0 wants) 0 unlocked) 0 waiting;
}

abbrev both_wait : System
both_wait = record init {
  nodes = 0 ∷ 1 ∷ [];
  phases =
      update (update (update (update first_waits.phases 1 holding) 1 wants) 1 unlocked) 1 waiting;
}

abbrev outcome : ℕ → WakeResult
outcome k = if k == 0 then set_only else if k == 1 then set_only else failed

notify_test : (notify outcome 1 both_wait).phases 0 ≡ relocks
unfolding notify wake_loop tell
notify_test = refl
