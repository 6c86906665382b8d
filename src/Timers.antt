-- ===== src/Timers.antt =====
-- src/fev_timers_binheap.c, src/fev_timers_binheap.h: the timers of a bucket in a binary heap of
-- pointers. A pointer is an address (a number); `Mem` is the memory that the functions touch, the
-- array `heap` and the timers that it points to. The array is a map from its index to what is stored
-- there.
pub mod Heap
pub mod Buckets
pub mod Service
pub mod Expire
pub mod Wait
mod Tests
use libfev.Base.{
  ℕ, zero, suc, ◌+◌, ◌-◌, ◌*◌, ◌/◌, ◌^◌, Bool, ◌&&◌, Option, none, some, ltb, leb, ◌==◌,
  if◌then◌else◌, update, ℤ, is_neg, is_nonpos,
}
use libfev.Time.{Timespec, timespec_cmp}

pub record Timer : Type 0 where
  pub abs_time : Timespec
  pub index : ℕ
  pub waiter : ℕ

pub record Mem : Type 0 where
  pub heap : ℕ → ℕ
  pub timers : ℕ → Timer

pub record Bucket : Type 0 where
  pub mem : Mem
  pub len : ℕ
  pub capacity : ℕ
  pub min : Option ℕ

abbrev pub size_max : ℕ
size_max = 2 ^ 64 - 1

unfoldable pub timer_is_expired : Timer → Bool
timer_is_expired timer = timer.index == size_max

unfoldable pub timer_set_expired : Timer → Timer
timer_set_expired timer = record timer { index = size_max }

unfoldable pub timers_bucket_empty : Bucket → Bool
timers_bucket_empty bucket = bucket.len == 0

unfoldable pub timers_bucket_min : Bucket → ℕ
timers_bucket_min bucket = bucket.mem.heap 0

unfoldable pub timers_cmp : Mem → (lhs rhs : ℕ) → ℤ
timers_cmp m lhs rhs = timespec_cmp (m.timers lhs).abs_time (m.timers rhs).abs_time

-- `heap[index] = timer; timer->index = index;`
unfoldable pub put : Mem → (index timer : ℕ) → Mem
put m index timer = record {
  heap = update m.heap index timer;
  timers = update m.timers timer (record (m.timers timer) { index = index });
}

-- The loop of `fev_timers_sift_up`; its `len` equals `index` at the head of each round. The result
-- is the memory and the index of the hole at the end.
unfoldable pub sift_up_loop : ℕ → Mem → (index timer : ℕ) → Option (Mem × ℕ)
sift_up_loop zero m index timer = none
sift_up_loop (suc fuel) m index timer =
    let len = (index - 1) / 2 in
    let parent_ptr = m.heap len in
    let m' = put m index parent_ptr in
    let rest = sift_up_loop fuel m' len timer in
    if is_nonpos (timers_cmp m parent_ptr timer)
    then some (m, index)
    else if len == 0
    then some (m', len)
    else rest

unfoldable pub place : ℕ → Option (Mem × ℕ) → Option Mem
place timer none = none
place timer (some (m, index)) = some (put m index timer)

-- `none` is the loop's fuel running out.
unfoldable pub sift_up : Mem → (len timer : ℕ) → Option Mem
unfolding sift_up_loop place
sift_up m len timer =
    place timer (if ltb 0 len then sift_up_loop len m len timer else some (m, len))

-- The child of `start` that the timer is compared with: the right one if it is there and earlier.
unfoldable pub smaller_child : Mem → (len start : ℕ) → ℕ
smaller_child m len start =
    let child = start * 2 + 1 in
    let right = child + 1 in
    if ltb right len && is_neg (timers_cmp m (m.heap right) (m.heap child)) then right else child

-- The loop of `fev_timers_sift_down`, with the last timer in `last_ptr` and `len` lowered by one.
unfoldable pub sift_down_loop : ℕ → Mem → (len start last_ptr : ℕ) → Option (Mem × ℕ)
sift_down_loop zero m len start last_ptr = none
sift_down_loop (suc fuel) m len start last_ptr =
    let child = smaller_child m len start in
    let child_ptr = m.heap child in
    let rest = sift_down_loop fuel (put m start child_ptr) len child last_ptr in
    if ltb ((len - 2) / 2) start
    then some (m, start)
    else if is_nonpos (timers_cmp m last_ptr child_ptr)
    then some (m, start)
    else rest

-- Called with `0 < len` and `start < len`, as the source asserts.
unfoldable pub sift_down : Mem → (len start : ℕ) → Option Mem
unfolding sift_down_loop smaller_child place
sift_down m len start =
    let last_ptr = m.heap (len - 1) in
    if start == len - 1
    then some m
    else place last_ptr
        (if leb 2 (len - 1) then sift_down_loop len m (len - 1) start last_ptr else some (m, start))
