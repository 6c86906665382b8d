-- ===== src/Timers/Service.antt =====
-- src/fev_timers.c: adding and deleting the timer of a wait, each under the bucket's lock, and the
-- least timer that the poller sees (`bucket->min`). The timeout handed to `fev_poller_set_timeout` is
-- the last component of a result; `none` if it is not called. `none` outside is a loop without end.
pub mod Shown
use libfev.Base.{ℕ, Bool, true, false, if◌then◌else◌, Option, none, some, Ret, ok, err, ◌>>=◌}
use libfev.Time.{Timespec}
use libfev.Timers.{Bucket, timer_is_expired, timers_bucket_empty, timers_bucket_min}
use libfev.Timers.Buckets.{timers_bucket_add, timers_bucket_del}

abbrev pub abs_time_of : Bucket → (timer : ℕ) → Timespec
abs_time_of bucket timer = (bucket.mem.timers timer).abs_time

unfoldable pub after_add :
    (timer : ℕ) → Bucket × Ret Bool → Bucket × Ret (Unit {0}) × Option Timespec
after_add timer (bucket, err e) = (bucket, err e, none)
after_add timer (bucket, ok false) = (bucket, ok tt, none)
after_add timer (bucket, ok true) =
    (record bucket { min = some timer }, ok tt, some (abs_time_of bucket timer))

unfoldable pub timers_add :
    (grown : Option (ℕ → ℕ))
    → Bucket
    → (timer : ℕ) → Option (Bucket × Ret (Unit {0}) × Option Timespec)
unfolding after_add
timers_add grown bucket timer =
    timers_bucket_add grown bucket timer >>= λ r. some (after_add timer r)

unfoldable pub after_del : Bucket × Bool → Bucket × Option Timespec
after_del (bucket, false) = (bucket, none)
after_del (bucket, true) =
    let min = timers_bucket_min bucket in
    if timers_bucket_empty bucket
    then (record bucket { min = none }, none)
    else (record bucket { min = some min }, some (abs_time_of bucket min))

unfoldable pub timers_del : Bucket → (timer : ℕ) → Option (Bucket × Option Timespec)
unfolding after_del
timers_del bucket timer =
    let deleted = timers_bucket_del bucket timer >>= λ r. some (after_del r) in
    if timer_is_expired (bucket.mem.timers timer) then some (bucket, none) else deleted
