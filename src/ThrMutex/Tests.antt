-- ===== src/ThrMutex/Tests.antt =====
-- src/fev_thr_mutex_linux.c: the thread 0 holds the mutex, and the thread 1 sleeps.
use libfev.Base.{ℕ, ◌≡◌, ◌≢◌, refl, update}
use libfev.ThrMutex.{
  lock_slow, swaps, waits, sleeps, holding, System, loaded, swapped, move, Step, init, Reach,
  initial, later,
}
use libfev.ThrMutex.Safety.{Wakeable, threads_exclude, sleepers_served}

abbrev locked : System
locked = record { state = 1; phases = update init.phases 0 holding }

abbrev failed : System
failed = move locked 1 lock_slow

abbrev loaded_one : System
loaded_one = move failed 1 swaps

abbrev marked_two : System
marked_two = record { state = 2; phases = update loaded_one.phases 1 waits }

abbrev asleep : System
asleep = move marked_two 1 sleeps

failed-Reach : Reach failed
failed-Reach =
    later {s = locked} (later {s = init} initial (Step.lock 0 refl refl)) (Step.lock_fails 1 refl)

load-Step : Step failed loaded_one
unfolding loaded
load-Step = Step.load 1 refl

swap-Step : Step loaded_one marked_two
unfolding swapped
swap-Step = Step.swap 1 refl

asleep-Reach : Reach asleep
asleep-Reach =
    later {s = marked_two}
      (later {s = loaded_one} (later {s = failed} failed-Reach load-Step) swap-Step)
      (Step.futex_sleeps 1 refl refl)

threads_exclude_example : ◌≡◌ {A = ℕ} 0 0 × (asleep.state ≢ 0)
threads_exclude_example = threads_exclude 0 0 asleep-Reach refl refl

sleepers_served_example : Wakeable asleep
sleepers_served_example = sleepers_served 1 asleep-Reach refl
