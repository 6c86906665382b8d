-- ===== src/Sem/Tests.antt =====
-- src/fev_sem.c: two fibers wait for a semaphore of one permit, which is then posted.
use libfev.Base.{
  ℕ, zero, suc, ◌≡◌, ◌≢◌, ◌==◌, refl, arith, true, false, [], ◌∷◌, pos, elem, if◌then◌else◌, update,
}
use libfev.Waiter.{WakeResult, failed, set_only}
use libfev.WaitersQueue.{is_set, wake_loop, wait_enter}
use libfev.Sem.{
  idle, waiting, System, wait_recheck, post_callback, accepts, tell, after_wait, after_post, Step,
  Reach, int32_max, init, initial, later,
}
use libfev.Sem.Permits.{Posted, is_pos, post_lem, sleepers_lack}

abbrev asleep : System
asleep = record {
  value = pos 0;
  nodes = 1 ∷ [];
  phases = update (update (init (pos 1)).phases 0 idle) 1 waiting;
}

asleep-Reach : Reach (pos 1) asleep
unfolding after_wait wait_enter wait_recheck
asleep-Reach = later (later initial (Step.wait 0 refl)) (Step.wait 1 refl)

abbrev outcome : ℕ → WakeResult
outcome k = if k == 1 then set_only else failed

agrees : (k : ℕ) → is_set (outcome k) ≡ accepts (asleep.phases k)
agrees zero = refl
agrees (suc zero) = refl
agrees (suc (suc k)) = ground arith

small : pos 0 ≢ pos int32_max
small e = absurd (ground arith)

post_lem_example : Posted asleep (after_post outcome asleep)
post_lem_example = post_lem asleep outcome agrees small

abbrev posted : System
posted = record { value = pos 0; nodes = []; phases = update asleep.phases 1 idle }

posted-test : after_post outcome asleep ≡ posted
unfolding after_post post_callback tell wake_loop
posted-test = refl

sleepers_lack_example : (is_pos asleep.value ≡ false) × (elem 1 asleep.nodes ≡ true)
sleepers_lack_example = sleepers_lack asleep-Reach 1 refl
