-- ===== src/Timers/Buckets.antt =====
-- src/fev_timers_binheap.c: the operations on a bucket.
pub mod Valid
pub mod Add
mod Removed
pub mod Del
use libfev.Base.{
  ℕ, ◌+◌, ◌-◌, ◌*◌, ◌%◌, ◌^◌, ltb, if◌then◌else◌, ◌==◌, Bool, true, false, Option, none, some, Ret,
  ok, err, Errno, ◌>>=◌,
}
use libfev.Timers.{Mem, Bucket, sift_up, sift_down}

-- The array after `fev_realloc` to a larger size: the cells past the old ones hold anything.
abbrev pub reallocated : (ℕ → ℕ) → (old : ℕ) → (ℕ → ℕ) → ℕ → ℕ
reallocated heap old rest i = if ltb i old then heap i else rest i

-- `grown` is what `fev_realloc` answers: `none` for NULL, else the contents of the new cells.
unfoldable pub timers_bucket_grow : (grown : Option (ℕ → ℕ)) → Bucket → Bucket × Ret (Unit {0})
timers_bucket_grow none bucket = (bucket, err Errno.nomem)
timers_bucket_grow (some rest) bucket =
    let doubled = (2 * bucket.capacity) % 2 ^ 64 in
    let capacity = if doubled == 0 then 1 else doubled in
    (
      record bucket {
        mem = record (bucket.mem) { heap = reallocated bucket.mem.heap bucket.capacity rest };
        capacity = capacity;
      },
      ok tt,
    )

-- A result of a sift, put into the bucket with its new length.
abbrev pub with_mem : Bucket → (len : ℕ) → Mem → Bucket
with_mem bucket len m = record bucket { mem = m; len = len }

-- Sift up at the end, and report whether the timer is now at the root.
pub append : Bucket → (timer : ℕ) → Option (Bucket × Ret Bool)
append bucket timer = do
  m ← sift_up bucket.mem bucket.len timer
  some (with_mem bucket (bucket.len + 1) m, ok ((m.timers timer).index == 0))

add_grown : (timer : ℕ) → Bucket × Ret (Unit {0}) → Option (Bucket × Ret Bool)
unfolding append
add_grown timer (bucket, ok _) = append bucket timer
add_grown timer (bucket, err e) = some (bucket, err e)

-- The result is the bucket and whether the least timer changed, or ENOMEM.
unfoldable pub timers_bucket_add :
    (grown : Option (ℕ → ℕ)) → Bucket → (timer : ℕ) → Option (Bucket × Ret Bool)
unfolding timers_bucket_grow add_grown append
timers_bucket_add grown bucket timer =
    if bucket.len == bucket.capacity
    then add_grown timer (timers_bucket_grow grown bucket)
    else append bucket timer

-- After the sift down of `fev_timers_bucket_del`, with the length lowered.
pub del_sunk : Bucket → (index : ℕ) → Mem → Option (Bucket × Bool)
del_sunk bucket index m =
    let len = bucket.len - 1 in
    let up = sift_up m index (m.heap index) >>= λ m'. some (with_mem bucket len m', false) in
    if ltb 0 index
    then if ltb index len then up else some (with_mem bucket len m, false)
    else some (with_mem bucket len m, true)

-- The result is the bucket and `min_changed`.
unfoldable pub timers_bucket_del : Bucket → (timer : ℕ) → Option (Bucket × Bool)
unfolding del_sunk
timers_bucket_del bucket timer = do
  let index = (bucket.mem.timers timer).index
  m ← sift_down bucket.mem bucket.len index
  del_sunk bucket index m

unfoldable pub timers_bucket_del_min : Bucket → Option Bucket
timers_bucket_del_min bucket = do
  m ← sift_down bucket.mem bucket.len 0
  some (with_mem bucket (bucket.len - 1) m)
