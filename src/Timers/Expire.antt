-- ===== src/Timers/Expire.antt =====
-- src/fev_timers.c: `fev_timers_wake_expired`, and `fev_timers_process` under the bucket's lock. What
-- `fev_waiter_wake` answers for a waiter is an argument, a fiber is named by its waiter, and `none` is
-- the loop's fuel running out.
pub mod Due
pub mod Process
use libfev.Base.{
  ℕ, zero, suc, Bool, true, false, if◌then◌else◌, Option, none, some, ◌>>=◌, List, [], ◌∷◌,
  is_nonpos, update, not,
}
use libfev.Time.{Timespec, timespec_cmp}
use libfev.Timers.{
  Bucket, timer_is_expired, timer_set_expired, timers_bucket_empty, timers_bucket_min,
}
use libfev.Timers.Buckets.{timers_bucket_del, timers_bucket_del_min}
use libfev.Timers.Service.{abs_time_of}
use libfev.Waiter.{WakeResult}
use libfev.WaitersQueue.{is_ours, with_next}

-- `fev_timer_set_expired(timer)`, in memory.
unfoldable pub mark : (timer : ℕ) → Bucket → Bucket
unfolding timer_set_expired
mark timer bucket = record bucket {
  mem = record (bucket.mem) {
    timers = update bucket.mem.timers timer (timer_set_expired (bucket.mem.timers timer));
  };
}

abbrev pub collect : Bool → ℕ → Bucket × List ℕ → Bucket × List ℕ
collect true fiber (bucket, fibers) = (bucket, fiber ∷ fibers)
collect false fiber r = r

unfoldable pub expire_loop :
    (fuel : ℕ) → (now : Timespec) → (outcome : ℕ → WakeResult) → Bucket → Option (Bucket × List ℕ)
unfolding mark
expire_loop zero now outcome bucket = none
expire_loop (suc fuel) now outcome bucket =
    let min = timers_bucket_min bucket in
    let waiter = (bucket.mem.timers min).waiter in
    let rest = timers_bucket_del_min bucket >>= λ b.
    expire_loop fuel now outcome (mark min b) >>= λ r.
    some (collect (is_ours (outcome waiter)) waiter r) in
    if timers_bucket_empty bucket
    then some (bucket, [])
    else if not (is_nonpos (timespec_cmp (abs_time_of bucket min) now))
    then some (bucket, [])
    else rest

-- The bucket without its expired timers, and the fibers to wake up.
unfoldable pub wake_expired :
    (now : Timespec) → (outcome : ℕ → WakeResult) → Bucket → Option (Bucket × List ℕ)
unfolding expire_loop
wake_expired now outcome bucket = expire_loop (suc bucket.len) now outcome bucket

-- The least timer is shown to the poller again; the timeout for it, if there is one.
abbrev pub show_min : Bucket → Bucket × Option Timespec
show_min bucket =
    let min = timers_bucket_min bucket in
    if not (timers_bucket_empty bucket)
    then (record bucket { min = some min }, some (abs_time_of bucket min))
    else (bucket, none)

-- The bucket, the timeout, whether the timer has expired, and the fibers to wake up; `next`
-- is what `fev_ilock_unlock` answers.
unfoldable pub process :
    (now : Timespec)
    → (outcome : ℕ → WakeResult) → (next : Option ℕ) → Bucket
    → (timer : ℕ) → Option ((Bucket × Option Timespec) × Bool × List ℕ)
process now outcome next bucket timer =
    wake_expired now outcome (record bucket { min = none }) >>= λ r.
    (let expired = timer_is_expired (r.0.mem.timers timer) in
      let deleted =
        timers_bucket_del r.0 timer >>= λ d. some (show_min d.0, false, with_next r.1 next) in
      if not expired then deleted else some (show_min r.0, true, with_next r.1 next))
