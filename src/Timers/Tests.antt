-- ===== src/Timers/Tests.antt =====
-- src/fev_timers_binheap.c at a bucket of three timers.
use libfev.Base.{
  ℕ, ◌≡◌, refl, arith, if◌then◌else◌, ◌==◌, Bool, true, Option, none, some, Ret, ok, Gives, List,
  [], ◌∷◌,
}
use libfev.Timers.{
  Timer, Bucket, put, timers_cmp, sift_up, sift_down, timers_bucket_min, timers_bucket_empty,
  timer_is_expired, timer_set_expired,
}
use libfev.Time.{Timespec, timespec_cmp}
use libfev.Waiter.{WakeResult, set_only, set_and_wake_up}
use libfev.Timers.Service.{timers_add}
use libfev.Timers.Service.Shown.{IsShown, TimerAdded, timers_add_lem}
use libfev.Timers.Expire.{mark, wake_expired, process}
use libfev.Timers.Expire.Process.{Processed, process_lem}
use libfev.Timers.Heap.Links.{index}
use libfev.Timers.Buckets.{timers_bucket_add, timers_bucket_del, timers_bucket_del_min}
use libfev.Timers.Buckets.Valid.{IsValid, Deleted}
use libfev.Timers.Buckets.Add.{AddEnds, timers_bucket_add_lem}
use libfev.Timers.Buckets.Del.{DelEnds, timers_bucket_del_lem, timers_bucket_del_min_lem}

abbrev timer : (sec index waiter : ℕ) → Timer
timer sec index waiter = record {
  abs_time = record { tv_sec = sec; tv_nsec = 0 };
  index = index;
  waiter = waiter;
}

-- The timers 101, 102 and 103 expire at 5, 9 and 7 seconds; timer 104 is not in the bucket.
abbrev timers : ℕ → Timer
timers x =
    if x == 101
    then timer 5 0 1
    else if x == 102
    then timer 9 1 2
    else if x == 103
    then timer 7 2 3
    else timer 4 0 4

abbrev slots : ℕ → ℕ
slots i = if i == 0 then 101 else if i == 1 then 102 else 103

abbrev sample : Bucket
sample = record {
  mem = record { heap = slots; timers = timers };
  len = 3;
  capacity = 3;
  min = some 101;
}

sample-IsValid : IsValid sample
sample-IsValid = record {
  linked = λ i p q. ground arith;
  order = λ c p q. ground arith;
  times = λ x. ground arith;
  room = omega arith;
  small = omega arith;
}

-- The slots and the length after a call.
abbrev shape : Option (Bucket × Ret Bool) → Option (ℕ × ℕ × ℕ × ℕ × ℕ × Ret Bool)
shape none = none
shape (some (b, r)) = some (b.len, b.capacity, b.mem.heap 0, b.mem.heap 1, b.mem.heap 3, r)

add_test :
    shape (timers_bucket_add (some (λ i. 0)) sample 104) ≡ some (4, 6, 104, 101, 102, ok true)
unfolding timers_bucket_add sift_up put timers_cmp timespec_cmp
add_test = refl

timers_bucket_add_lem_example :
    Gives (AddEnds (some (λ i. 0)) sample 104) (timers_bucket_add (some (λ i. 0)) sample 104)
timers_bucket_add_lem_example =
    timers_bucket_add_lem (some (λ i. 0)) sample 104 sample-IsValid (λ h. absurd (ground arith))
      (omega arith)

timers_bucket_del_lem_example : Gives (DelEnds sample 102) (timers_bucket_del sample 102)
timers_bucket_del_lem_example = timers_bucket_del_lem sample 102 sample-IsValid (ground arith)

timers_bucket_del_min_lem_example :
    Gives (Deleted sample (timers_bucket_min sample)) (timers_bucket_del_min sample)
timers_bucket_del_min_lem_example = timers_bucket_del_min_lem sample sample-IsValid (omega arith)

sample-IsShown : IsShown sample
sample-IsShown = record { valid = sample-IsValid; shown = refl }

abbrev outcome : ℕ → WakeResult
outcome k = if k == 3 then set_only else set_and_wake_up

abbrev now : Timespec
now = record { tv_sec = 7; tv_nsec = 1 }

-- The fibers that are woken up and the length that is left.
abbrev woken : Option ((Bucket × Option Timespec) × Bool × List ℕ) → Option (List ℕ × Bool × ℕ)
woken none = none
woken (some ((b, _), expired, fibers)) = some (fibers, expired, b.len)

process_test : woken (process now outcome (some 8) sample 103) ≡ some (1 ∷ 8 ∷ [], true, 1)
unfolding process wake_expired timers_bucket_del timers_bucket_del_min sift_down put timers_cmp
    timespec_cmp mark timers_bucket_min timers_bucket_empty timer_is_expired timer_set_expired
process_test = refl

timers_add_lem_example : Gives (TimerAdded sample 104) (timers_add none sample 104)
timers_add_lem_example =
    timers_add_lem none sample 104 sample-IsShown (λ h. absurd (ground arith)) (omega arith)

process_lem_example : Gives (Processed now sample 103) (process now outcome (some 8) sample 103)
process_lem_example =
    process_lem now outcome (some 8) sample 103 (omega arith) sample-IsShown (ground arith)
