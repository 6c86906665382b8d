-- ===== src/Timers/Service/Shown.antt =====
-- The poller sees the least timer of the bucket after every addition and deletion.
use libfev.Base.{
  ℕ, ◌*◌, ◌/◌, ◌≤◌, ◌≡◌, ◌≢◌, ◌↔◌, ◌⊎◌, inl, inr, ◌==◌, refl, ◌∙◌, arith, Bool, true, false,
  if◌then◌else◌, Option, none, some, Ret, ok, err, Errno, Gives, gives, Gives-bind, Bool-cases,
}
use libfev.Time.{Timespec}
use libfev.Timers.{Bucket, size_max, timer_is_expired, timers_bucket_empty, timers_bucket_min}
use libfev.Timers.Buckets.Valid.{IsValid, InBucket, Added}
use libfev.Timers.Buckets.Add.{AddEnds, added, refused, timers_bucket_add_lem}
use libfev.Timers.Buckets.Del.{DelEnds, timers_bucket_del_lem}
use libfev.Timers.Service.{abs_time_of, after_add, timers_add, after_del, timers_del}

-- `bucket->min` is the least timer, or NULL when there is none.
abbrev pub shows : Bucket → Option ℕ
shows b = if b.len == 0 then none else some (b.mem.heap 0)

pub record IsShown (b : Bucket) : Type 0 where
  pub valid : IsValid b
  pub shown : b.min ≡ shows b

-- Another `min` leaves a bucket valid.
pub set_min-IsValid : (b : Bucket) (m : Option ℕ) → IsValid b → IsValid (record b { min = m })
set_min-IsValid b m v = record {
  linked = v.linked;
  order = v.order;
  times = v.times;
  room = v.room;
  small = v.small;
}

-- What adding the timer `t` leads to: it is in the bucket, or ENOMEM was returned and nothing changed.
pub data TimerAdded (b : Bucket) (t : ℕ) : Bucket × Ret (Unit {0}) × Option Timespec → Type 0 where
  accepted :
      {b' : Bucket} {timeout : Option Timespec}
      → IsShown b'
      → ((x : ℕ) → InBucket b' x ↔ ((x ≡ t) ⊎ InBucket b x))
      → timeout ≡ (if b'.mem.heap 0 == t then some (abs_time_of b' t) else none)
      → TimerAdded b t (b', ok tt, timeout)
  out_of_memory : TimerAdded b t (b, err Errno.nomem, none)

after_add_lem :
    (b : Bucket) (t : ℕ) (b' : Bucket) (c : Bool)
    → IsShown b
    → Added b t b' c
    → TimerAdded b t (after_add t (b', ok c))
unfolding after_add
after_add_lem b t b' true v a =
    accepted
      (record {
        valid = set_min-IsValid b' (some t) a.valid;
        shown = ground (arith, a.len, a.at_root);
      })
      a.same (ground (arith, a.at_root))
after_add_lem b t b' false v a =
    let r = a.root refl in
    accepted
      (record { valid = a.valid; shown = a.frame.min ∙ v.shown ∙ ground (arith, a.len, r.0, r.1) })
      a.same (ground (arith, a.at_root))

-- Adding a timer that is not in the bucket ends, and the poller then sees the least timer. Either the
-- timer is in the bucket besides those that were, and the poller's timeout is set to its time exactly
-- when it is now the least; or ENOMEM is returned and nothing has changed.
pub timers_add_lem :
    (grown : Option (ℕ → ℕ)) (b : Bucket) (t : ℕ)
    → IsShown b
    → ¬ InBucket b t
    → 2 * b.capacity ≤ size_max / 8
    → Gives (TimerAdded b t) (timers_add grown b t)
unfolding timers_add after_add
timers_add_lem grown b t v fresh fits =
    Gives-bind (timers_bucket_add_lem grown b t v.valid fresh fits) λ r e. gives (ends r e)
  where
    ends : (r : Bucket × Ret Bool) → AddEnds grown b t r → TimerAdded b t (after_add t r)
    ends (b', ok c) (added a) = after_add_lem b t b' c v a
    ends (b', err e) (refused full none_left) = out_of_memory

-- What deleting the timer `t` leads to.
pub record TimerDeleted (b : Bucket) (t : ℕ) (b' : Bucket) : Type 0 where
  pub shown : IsShown b'
  pub same : (x : ℕ) → InBucket b' x ↔ ((x ≢ t) × InBucket b x)

after_del_lem :
    (b : Bucket) (t : ℕ) (r : Bucket × Bool)
    → IsShown b
    → DelEnds b t r
    → TimerDeleted b t (after_del r).0
unfolding after_del timers_bucket_min timers_bucket_empty
after_del_lem b t (b', true) v d = elim (Bool-cases (b'.len == 0)) [
  | inl e ↦ rw e (record {
    shown = record { valid = set_min-IsValid b' none d.deleted.valid; shown = ground arith };
    same = d.deleted.same;
  })
  | inr e ↦ rw e (record {
    shown = record { valid = set_min-IsValid b' _ d.deleted.valid; shown = ground arith };
    same = d.deleted.same;
  })
]
after_del_lem b t (b', false) v d = record {
  shown = record {
    valid = d.deleted.valid;
    shown =
        d.deleted.frame.min
        ∙ v.shown
        ∙ ground (arith, d.deleted.len, d.root refl, d.at_root, last_gone);
  };
  same = d.deleted.same;
}
  where
    first : InBucket b (b.mem.heap 0)
    first = ground (arith, d.deleted.len, v.valid.linked 0)

    not_t : b.mem.heap 0 ≢ t
    not_t e = ground (arith, d.at_root)

    last_gone : b'.len ≢ 0
    last_gone e = let h = (d.deleted.same (b.mem.heap 0)).1 (not_t, first) in ground (arith, h)

-- A timer in the bucket is not marked as expired.
pub held-not_expired :
    (b : Bucket) (t : ℕ) → IsValid b → InBucket b t → timer_is_expired (b.mem.timers t) ≡ false
unfolding timer_is_expired
held-not_expired b t v h = ground (arith, v.room, v.small, h)

-- Deleting a timer of the bucket ends: exactly that timer is gone, and the poller sees the least timer.
pub timers_del_lem :
    (b : Bucket) (t : ℕ)
    → IsShown b
    → InBucket b t
    → Gives (λ r. TimerDeleted b t r.0) (timers_del b t)
unfolding timers_del
timers_del_lem b t v h =
    rw (held-not_expired b t v.valid h)
      (Gives-bind (timers_bucket_del_lem b t v.valid h) λ r d. gives (after_del_lem b t r v d))
