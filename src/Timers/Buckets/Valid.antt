-- ===== src/Timers/Buckets/Valid.antt =====
-- What a bucket holds: a set of timers, with its least timer at the root.
use libfev.Base.{ℕ, ◌+◌, ◌/◌, ◌≤◌, ◌<◌, ◌≡◌, ◌≢◌, ◌↔◌, ◌⊎◌, ◌==◌, Bool, false}
use libfev.Timers.{Bucket, size_max}
use libfev.Timers.Heap.Order.{IsHeap}
use libfev.Timers.Heap.Links.{index, keys, HasTimes, IsLinked, Holds}

-- The representation invariant of `struct fev_timers_bucket`. The bound on the capacity is the
-- assertion of `fev_timers_bucket_grow`, with pointers of 8 bytes.
pub record IsValid (b : Bucket) : Type 0 where
  pub linked : IsLinked b.mem b.len b.len
  pub order : IsHeap (keys b.mem) b.len
  pub times : HasTimes b.mem
  pub room : b.len ≤ b.capacity
  pub small : b.capacity ≤ size_max / 8

-- The timer is in the bucket.
abbrev pub InBucket : Bucket → ℕ → Type 0
InBucket b x = Holds b.mem b.len b.len x

-- What no operation changes: the times and the waiters, and the index of the timers that are not
-- involved.
pub record Frame (b b' : Bucket) (t : ℕ) : Type 0 where
  pub abs_time : (x : ℕ) → (b'.mem.timers x).abs_time ≡ (b.mem.timers x).abs_time
  pub waiter : (x : ℕ) → (b'.mem.timers x).waiter ≡ (b.mem.timers x).waiter
  pub others : (x : ℕ) → x ≢ t → ¬ InBucket b x → index b'.mem x ≡ index b.mem x
  pub min : b'.min ≡ b.min

-- What `fev_timers_bucket_add` has done when it reports `changed`.
pub record Added (b : Bucket) (t : ℕ) (b' : Bucket) (changed : Bool) : Type 0 where
  pub valid : IsValid b'
  pub len : b'.len ≡ b.len + 1
  pub same : (x : ℕ) → InBucket b' x ↔ ((x ≡ t) ⊎ InBucket b x)
  pub frame : Frame b b' t
  pub at_root : changed ≡ (b'.mem.heap 0 == t)
  pub root : changed ≡ false → (0 < b.len) × (b'.mem.heap 0 ≡ b.mem.heap 0)

-- What deleting the timer `t` from a bucket has done; `len` is the new length.
pub record Deleted (b : Bucket) (t : ℕ) (b' : Bucket) : Type 0 where
  pub valid : IsValid b'
  pub len : b.len ≡ b'.len + 1
  pub same : (x : ℕ) → InBucket b' x ↔ ((x ≢ t) × InBucket b x)
  pub frame : Frame b b' t
