-- ===== src/Timers/Buckets/Add.antt =====
-- src/fev_timers_binheap.c: `fev_timers_bucket_add`.
use libfev.Base.{
  ℕ, ◌+◌, ◌*◌, ◌/◌, ◌≤◌, ◌<◌, ◌≡◌, ◌↔◌, inl, inr, arith, refl, sym, subst, Gives-weaken, ◌==◌, Bool,
  Option, none, some, Ret, ok, err, Errno, Gives, gives, Gives-if, Gives-bind,
}
use libfev.Timers.{Mem, Bucket, size_max}
use libfev.Timers.Heap.Order.{IsHeap, UpOrder}
use libfev.Timers.Heap.Links.{key, keys, Holds}
use libfev.Timers.Heap.Up.{Sifted, sift_up-Sifted}
use libfev.Timers.Buckets.{with_mem, timers_bucket_grow, append, add_grown, timers_bucket_add}
use libfev.Timers.Buckets.Valid.{IsValid, InBucket, Added}

append-order : (m : Mem) (n t : ℕ) → IsHeap (keys m) n → UpOrder (keys m) (n + 1) n (key m t)
append-order m n t h = record {
  inside = omega arith;
  edges = λ c p q r s. h c p (omega arith);
  below = λ c p q r. absurd (omega arith);
  bridged = λ c p q r s. absurd (omega arith);
}

Sifted-Added :
    (b : Bucket) (t : ℕ) {m : Mem}
    → IsValid b
    → b.len < b.capacity
    → ¬ InBucket b t
    → Sifted (b.len + 1) b.len t b.mem m
    → Added b t (with_mem b (b.len + 1) m) ((m.timers t).index == 0)
Sifted-Added b t {m} v lt fresh s =
    let p = s.placed in
    record {
      valid = record {
        linked = p.linked;
        order = s.order;
        times = λ x. rw (p.abs_time x) (v.times x);
        room = omega arith;
        small = v.small;
      };
      len = refl;
      same = λ x. (
        λ h. elim ((p.same x).0 h) [ inl e ↦ inl e | inr q ↦ inr (old x q) ],
        λ h. elim h [ inl e ↦ (p.same x).1 (inl e) | inr q ↦ (p.same x).1 (inr (new x q)) ],
      );
      frame = record {
        abs_time = p.abs_time;
        waiter = p.waiter;
        others = λ x ne out. p.others x ne (λ q. out (old x q));
        min = refl;
      };
      at_root = ground (arith, p.linked 0, inside.2);
      root = λ e. (ground (arith, inside), ground (arith, s.root, p.linked 0));
    }
  where
    old : (x : ℕ) → Holds b.mem (b.len + 1) b.len x → InBucket b x
    old x (a, c, d) = (omega arith, c, d)

    new : (x : ℕ) → InBucket b x → Holds b.mem (b.len + 1) b.len x
    new x (a, c, d) = (omega arith, c, d)

    inside : Holds m (b.len + 1) (b.len + 1) t
    inside = (s.placed.same t).1 (inl refl)

append-Added :
    (b : Bucket) (t : ℕ)
    → IsValid b
    → b.len < b.capacity
    → ¬ InBucket b t
    → Gives (λ r. (c : Bool) × (r.1 ≡ ok c) × Added b t r.0 c) (append b t)
unfolding append
append-Added b t v lt fresh =
    Gives-bind
      (sift_up-Sifted b.mem (b.len + 1) b.len t (λ i p q. v.linked i (omega arith) q) v.times
        (λ h. fresh (omega arith, h.1, h.2)) (append-order b.mem b.len t v.order))
      λ m s. gives (_, refl, Sifted-Added b t v lt fresh s)

-- How `fev_timers_bucket_add` ends: with the timer added, or with ENOMEM and nothing changed.
pub data AddEnds (grown : Option (ℕ → ℕ)) (b : Bucket) (t : ℕ) : Bucket × Ret Bool → Type 0 where
  added : {b' : Bucket} {c : Bool} → Added b t b' c → AddEnds grown b t (b', ok c)
  refused : b.len ≡ b.capacity → grown ≡ none → AddEnds grown b t (b, err Errno.nomem)

abbrev grown_heap : (ℕ → ℕ) → Bucket → Bucket
grown_heap rest b = (timers_bucket_grow (some rest) b).0

grow-IsValid :
    (rest : ℕ → ℕ) (b : Bucket)
    → IsValid b
    → 2 * b.capacity ≤ size_max / 8
    → IsValid (grown_heap rest b) × (b.capacity < (grown_heap rest b).capacity)
unfolding timers_bucket_grow
grow-IsValid rest b v fits = (
  record {
    linked = λ i p q. ground (arith, v.linked i, v.room);
    order = λ c p q. ground (arith, v.order c, v.room);
    times = v.times;
    room = ground (arith, v.room);
    small = ground arith;
  },
  ground arith,
)

grow-InBucket :
    (rest : ℕ → ℕ) (b : Bucket)
    → IsValid b
    → (x : ℕ) → InBucket b x ↔ InBucket (grown_heap rest b) x
unfolding timers_bucket_grow
grow-InBucket rest b v x = (λ h. ground (arith, v.room), λ h. ground (arith, v.room))

grow-Added :
    (rest : ℕ → ℕ) (b : Bucket) (t : ℕ)
    → IsValid b
    → {b' : Bucket} {c : Bool} → Added (grown_heap rest b) t b' c
    → Added b t b' c
unfolding timers_bucket_grow
grow-Added rest b t v {b'} {c} a =
    let in_b = grow-InBucket rest b v in
    record {
      valid = a.valid;
      len = a.len;
      same = λ x. (
        λ h. elim ((a.same x).0 h) [ inl e ↦ inl e | inr q ↦ inr ((in_b x).1 q) ],
        λ h. elim h [ inl e ↦ (a.same x).1 (inl e) | inr q ↦ (a.same x).1 (inr ((in_b x).0 q)) ],
      );
      frame = record {
        abs_time = a.frame.abs_time;
        waiter = a.frame.waiter;
        others = λ x ne out. a.frame.others x ne (λ q. out ((in_b x).1 q));
        min = a.frame.min;
      };
      at_root = a.at_root;
      root = λ e. ((a.root e).0, ground (arith, a.root e, v.room));
    }

-- Adding a timer that is not in a valid bucket, with room in the address space for twice the
-- capacity when the array is full, ends. When the array is full and cannot grow it answers ENOMEM
-- and leaves the bucket alone. Otherwise the bucket is valid, holds the timer and what it held, no
-- timer's time or waiter has changed, and it reports exactly whether the timer is the least one now;
-- when it is not, the least timer is the one from before.
pub timers_bucket_add_lem :
    (grown : Option (ℕ → ℕ)) (b : Bucket) (t : ℕ)
    → IsValid b
    → ¬ InBucket b t
    → 2 * b.capacity ≤ size_max / 8
    → Gives (AddEnds grown b t) (timers_bucket_add grown b t)
unfolding timers_bucket_add
timers_bucket_add_lem grown b t v fresh fits =
    Gives-if (b.len == b.capacity) (λ full. full_add grown (ground arith))
      (λ room.
        Gives-weaken (append-Added b t v (ground (arith, v.room)) fresh) λ r (c, e, a). ends e a)
  where
    ends : {r : Bucket × Ret Bool} {c : Bool} → r.1 ≡ ok c → Added b t r.0 c → AddEnds grown b t r
    ends {r} e a = subst (λ x. AddEnds grown b t (r.0, x)) (sym e) (added a)

    full_add :
        (g : Option (ℕ → ℕ))
        → b.len ≡ b.capacity
        → Gives (AddEnds g b t) (add_grown t (timers_bucket_grow g b))
    full_add none full = gives (refused full refl)
    full_add (some rest) full =
        let (v', lt) = grow-IsValid rest b v fits in
        Gives-weaken
          (append-Added (grown_heap rest b) t v' (ground arith)
            (λ h. fresh ((grow-InBucket rest b v t).1 h)))
          λ r (c, e, a).
            subst (λ x. AddEnds (some rest) b t (r.0, x)) (sym e) (added (grow-Added rest b t v a))
