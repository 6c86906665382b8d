-- ===== src/Timers/Wait.antt =====
-- src/fev_timers.c: `fev_timed_wait` on the bucket that `fev_timers_find_bucket` gives. What `fev_waiter_wait`
-- returns is an argument, with what others do to the bucket meanwhile.
pub mod Settled
mod Tests
use libfev.Base.{
  ℕ, Bool, true, false, ◌&&◌, ◌==◌, if◌then◌else◌, Option, some, ◌>>=◌, List, [], ◌∷◌, Ret, ok, err,
  Errno, update,
}
use libfev.Time.{Timespec}
use libfev.Timers.{Bucket, Timer}
use libfev.Timers.Service.{timers_add, timers_del}
use libfev.Timers.Expire.{process}
use libfev.Waiter.{WakeResult}

-- The bucket and the answer, with the timeouts handed to the poller and the fibers woken up on the way.
pub record Outcome : Type 0 where
  pub bucket : Bucket
  pub answer : Ret (Unit {0})
  pub timeouts : List (Option Timespec)
  pub fibers : List ℕ

-- The timer on the stack of the fiber.
abbrev pub with_timer : Bucket → (address : ℕ) → Timer → Bucket
with_timer bucket address timer = record bucket {
  mem = record (bucket.mem) { timers = update bucket.mem.timers address timer };
}

abbrev pub is_err : Ret (Unit {0}) → Bool
is_err (ok _) = false
is_err (err _) = true

-- FEV_WAITER_READY and FEV_WAITER_TIMED_OUT_NO_CHECK.
abbrev pub waiter_ready : ℕ
waiter_ready = 1

abbrev pub waiter_timed_out_no_check : ℕ
waiter_timed_out_no_check = 3

unfoldable pub after_wait :
    (now : Timespec) (outcome : ℕ → WakeResult) (next : Option ℕ) (timer : ℕ)
    (timeout : Option Timespec)
    → Bucket × ℕ
    → Option Outcome
after_wait now outcome next timer timeout (bucket, reason) =
    let deleted = timers_del bucket timer >>= λ r.
    some (record { bucket = r.0; answer = ok tt; timeouts = timeout ∷ r.1 ∷ []; fibers = [] }) in
    let processed = process now outcome next bucket timer >>= λ r. some (record {
      bucket = r.0.0;
      answer = if r.1 then err Errno.timedout else err Errno.again;
      timeouts = timeout ∷ r.0.1 ∷ [];
      fibers = r.2;
    }) in
    if reason == waiter_ready
    then deleted
    else if reason == waiter_timed_out_no_check
    then some (record {
      bucket = bucket;
      answer = err Errno.timedout;
      timeouts = timeout ∷ [];
      fibers = [];
    })
    else processed

-- `can_fail` is the macro FEV_TIMERS_ADD_CAN_FAIL.
unfoldable pub timed_wait :
    (can_fail : Bool) (grown : Option (ℕ → ℕ)) (wait : Bucket → Bucket × ℕ) (now : Timespec)
    (outcome : ℕ → WakeResult) (next : Option ℕ)
    → Bucket
    → (timer : ℕ) (abs_time : Timespec) (waiter : ℕ) → Option Outcome
timed_wait can_fail grown wait now outcome next bucket timer abs_time waiter =
    timers_add grown
      (with_timer bucket timer (record { abs_time = abs_time; index = 0; waiter = waiter })) timer
    >>= λ r.
        (let waited = after_wait now outcome next timer r.2 (wait r.0) in
          if can_fail && is_err r.1
          then some (record { bucket = r.0; answer = r.1; timeouts = r.2 ∷ []; fibers = [] })
          else waited)
