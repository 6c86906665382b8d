-- ===== src/Timers/Expire/Due.antt =====
-- Which timers `fev_timers_wake_expired` expires.
use libfev.Base.{
  ℕ, zero, suc, ◌-◌, ◌/◌, ◌≤◌, ◌<◌, ◌≡◌, ◌≢◌, ◌↔◌, ◌==◌, refl, sym, ap, ◌∙◌, arith, Bool, true,
  false, not, List, [], Gives, gives, Gives-bind, Gives-if, is_nonpos, subst,
}
use native.Mathlib.Decide.{ℕ_discrete}
use libfev.Time.{Timespec, timespec_cmp}
use libfev.Time.Laws.{ns, is_nonpos-cmp}
use libfev.Timers.{Bucket, size_max, timer_set_expired, timers_bucket_empty, timers_bucket_min}
use libfev.Timers.Heap.Order.{root_least}
use libfev.Timers.Heap.Links.{index, key, keys}
use libfev.Timers.Buckets.Valid.{IsValid, InBucket, Deleted}
use libfev.Timers.Buckets.Del.{timers_bucket_del_min_lem}
use libfev.Timers.Service.{abs_time_of}
use libfev.Timers.Expire.{mark, collect, expire_loop, wake_expired}
use libfev.Waiter.{WakeResult}

-- What the loop leads to at the time `now`.
pub record Expired (now : Timespec) (b : Bucket) (r : Bucket × List ℕ) : Type 0 where
  pub valid : IsValid r.0
  pub same : (x : ℕ) → InBucket r.0 x ↔ (InBucket b x × (ns now < key b.mem x))
  pub marked : (x : ℕ) → InBucket b x → key b.mem x ≤ ns now → index r.0.mem x ≡ size_max
  pub others : (x : ℕ) → ¬ InBucket b x → index r.0.mem x ≡ index b.mem x
  pub min : r.0.min ≡ b.min

-- The timer that was taken off the heap and marked.
module _ (b b' : Bucket) (t : ℕ) (d : Deleted b t b') where
  index-mark : (x : ℕ) → t ≢ x → index (mark t b').mem x ≡ index b'.mem x
  unfolding mark
  index-mark x ne = ground arith

  index-mark_self : index (mark t b').mem t ≡ size_max
  unfolding mark timer_set_expired
  index-mark_self = ground arith

  abs_time-mark : (x : ℕ) → ((mark t b').mem.timers x).abs_time ≡ (b'.mem.timers x).abs_time
  unfolding mark timer_set_expired
  abs_time-mark x = ground arith

  gone : ¬ InBucket b' t
  gone h = ((d.same t).0 h).0 refl

  slot-held : (i : ℕ) → i < b'.len → InBucket b' (b'.mem.heap i)
  slot-held i lt = ground (arith, d.valid.linked i)

  slot-ne : (i : ℕ) → i < b'.len → t ≢ b'.mem.heap i
  slot-ne i lt e = gone (subst (InBucket b') (sym e) (slot-held i lt))

  mark-IsValid : IsValid (mark t b')
  unfolding mark
  mark-IsValid = record {
    linked = λ i lt ne. index-mark (b'.mem.heap i) (slot-ne i lt) ∙ d.valid.linked i lt ne;
    order = λ c pos lt.
        rw (abs_time-mark (b'.mem.heap c), abs_time-mark (b'.mem.heap ((c - 1) / 2)))
          (d.valid.order c pos lt);
    times = λ x. rw (abs_time-mark x) (d.valid.times x);
    room = d.valid.room;
    small = d.valid.small;
  }

  len-mark : (mark t b').len ≡ b'.len
  unfolding mark
  len-mark = refl

  min-mark : (mark t b').min ≡ b'.min
  unfolding mark
  min-mark = refl

  mark-same : (x : ℕ) → InBucket (mark t b') x ↔ ((x ≢ t) × InBucket b x)
  unfolding mark
  mark-same x = (
    λ h. elim (ℕ_discrete t x) [
      | yes e ↦
          let far = subst (λ y. index (mark t b').mem y ≡ size_max) e index-mark_self in
          absurd (omega (arith, h.0, far, d.valid.room, d.valid.small))
      | no ne ↦
          (d.same x).0
            (subst (λ i. (i < b'.len) × (i ≢ b'.len) × (b'.mem.heap i ≡ x)) (index-mark x ne) h)
    ],
    λ h.
        subst (λ i. (i < b'.len) × (i ≢ b'.len) × (b'.mem.heap i ≡ x))
          (sym (index-mark x (λ e. h.0 (sym e)))) ((d.same x).1 h),
  )

  key-mark : (x : ℕ) → key (mark t b').mem x ≡ key b.mem x
  key-mark x = ap ns (abs_time-mark x ∙ d.frame.abs_time x)

  Expired-step :
      (now : Timespec) (r : Bucket × List ℕ)
      → InBucket b t
      → key b.mem t ≤ ns now
      → Expired now (mark t b') r
      → Expired now b r
  Expired-step now r held due e = record {
    valid = e.valid;
    same = λ x. (
      λ h. let (k, l) = (e.same x).0 h in (((mark-same x).0 k).1, omega (arith, l, key-mark x)),
      λ (h, l). (e.same x).1 ((mark-same x).1 (not_due x l, h), omega (arith, l, key-mark x)),
    );
    marked = λ x h l. elim (ℕ_discrete t x) [
      | yes q ↦
          subst (λ y. index r.0.mem y ≡ size_max) q
            (e.others t (λ k. ((mark-same t).0 k).0 refl) ∙ index-mark_self)
      | no ne ↦ e.marked x ((mark-same x).1 ((λ q. ne (sym q)), h)) (omega (arith, l, key-mark x))
    ];
    others = λ x out.
        e.others x (λ k. out ((mark-same x).0 k).1)
        ∙ index-mark x (λ q. out (subst (InBucket b) q held))
        ∙ d.frame.others x (λ q. out (subst (InBucket b) (sym q) held)) out;
    min = e.min ∙ min-mark ∙ d.frame.min;
  }
    where
      not_due : (x : ℕ) → ns now < key b.mem x → x ≢ t
      not_due x l q = omega (arith, l, due, ap (key b.mem) q)

-- No timer is due when the least one is not.
Expired-none :
    (now : Timespec) (b : Bucket)
    → IsValid b
    → ((x : ℕ) → InBucket b x → ns now < key b.mem x)
    → Expired now b (b, [])
Expired-none now b v later = record {
  valid = v;
  same = λ x. (λ h. (h, later x h), λ h. h.0);
  marked = λ x h l. absurd (omega (arith, l, later x h));
  others = λ x out. refl;
  min = refl;
}

later_than_root :
    (now : Timespec) (b : Bucket)
    → IsValid b
    → ns now < key b.mem (b.mem.heap 0)
    → (x : ℕ) → InBucket b x
    → ns now < key b.mem x
later_than_root now b v l x (lt, _, at) =
    omega (arith, root_least (keys b.mem) b.len (index b.mem x) v.order lt, l, ap (key b.mem) at)

collect-Expired :
    (now : Timespec) (b : Bucket) (c : Bool) (fiber : ℕ) (r : Bucket × List ℕ)
    → Expired now b r
    → Expired now b (collect c fiber r)
collect-Expired now b true fiber r e = record {
  valid = e.valid;
  same = e.same;
  marked = e.marked;
  others = e.others;
  min = e.min;
}
collect-Expired now b false fiber r e = e

module _ (now : Timespec) (outcome : ℕ → WakeResult) (now_valid : libfev.Time.IsValid now) where
  expire_loop_lem :
      (fuel : ℕ) (b : Bucket)
      → IsValid b
      → b.len < fuel
      → Gives (Expired now b) (expire_loop fuel now outcome b)
  unfolding expire_loop timers_bucket_empty timers_bucket_min
  expire_loop_lem zero b v lt = absurd (omega arith)
  expire_loop_lem (suc fuel) b v lt =
      let t = b.mem.heap 0 in
      let sign = is_nonpos-cmp (abs_time_of b t) now (v.times t) now_valid in
      Gives-if (b.len == 0)
        (λ empty. gives (Expired-none now b v (λ x h. absurd (ground (arith, h.0)))))
        (λ some_left.
          Gives-if (not (is_nonpos (timespec_cmp (abs_time_of b t) now)))
            (λ stop. gives (Expired-none now b v (later_than_root now b v (ground (arith, sign)))))
            (λ go.
              let held : InBucket b t = ground (arith, v.linked 0) in
              Gives-bind (timers_bucket_del_min_lem b v (ground arith)) λ b' d.
                Gives-bind
                  (expire_loop_lem fuel (mark t b') (mark-IsValid b b' t d)
                    (omega (arith, d.len, len-mark b b' t d)))
                  λ r e. gives (
                    collect-Expired now b _ _ r
                      (Expired-step b b' t d now r held (ground (arith, sign)) e))))

  -- Expiring ends. The timers that are left are those later than now; each of the others is marked as
  -- expired; timers outside the bucket and the bucket's `min` stay as they are.
  pub wake_expired_lem :
      (b : Bucket) → IsValid b → Gives (Expired now b) (wake_expired now outcome b)
  unfolding wake_expired
  wake_expired_lem b v = expire_loop_lem (suc b.len) b v (omega arith)
