-- ===== src/Timers/Wait/Tests.antt =====
-- src/fev_timers.c: a wait with the timer 104 in a bucket, which another fiber's deadline cuts short.
use libfev.Base.{ℕ, ◌==◌, refl, arith, if◌then◌else◌, true, none, some, Gives}
use libfev.Time.{Timespec}
use libfev.Timers.{Bucket}
use libfev.Timers.Buckets.Valid.{InBucket}
use libfev.Timers.Service.Shown.{IsShown}
use libfev.Timers.Wait.{timed_wait}
use libfev.Timers.Wait.Settled.{inside, Waits, Settled, timed_wait-Settled}
use libfev.Waiter.{set_only}

abbrev time : ℕ → Timespec
time sec = record { tv_sec = sec; tv_nsec = 0 }

-- The timer 101 expires at 5 seconds.
abbrev sample : Bucket
sample = record {
  mem = record {
    heap = λ i. 101;
    timers = λ x. record { abs_time = time 5; index = if x == 101 then 0 else 1; waiter = 1 };
  };
  len = 1;
  capacity = 3;
  min = some 101;
}

sample-IsShown : IsShown sample
sample-IsShown = record {
  valid = record {
    linked = λ i p q. ground arith;
    order = λ c p q. absurd (omega (arith, p, q));
    times = λ x. ground arith;
    room = omega arith;
    small = omega arith;
  };
  shown = refl;
}

-- The poller wakes the fiber up, and nobody else comes.
abbrev poller_wakes : Bucket → Bucket × ℕ
poller_wakes b = (b, 2)

poller_wakes-Waits : (b : Bucket) → IsShown b → InBucket b 104 → Waits 104 (poller_wakes b)
poller_wakes-Waits b v h = record {
  shown = v;
  pending = inside h;
  no_check = λ e. absurd (omega (arith, e));
}

timed_wait-Settled_example :
    Gives
      (Settled 104)
      (timed_wait true none poller_wakes (time 7) (λ k. set_only) none sample 104 (time 6) 4)
timed_wait-Settled_example =
    timed_wait-Settled (time 7) (λ k. set_only) none (ground arith) none poller_wakes sample 104
      (time 6) 4 (ground arith) sample-IsShown (λ h. absurd (ground (arith, h))) (omega arith)
      poller_wakes-Waits
