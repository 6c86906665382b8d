-- ===== src/Timers/Buckets/Del.antt =====
-- src/fev_timers_binheap.c: `fev_timers_bucket_del` and `fev_timers_bucket_del_min`.
use libfev.Base.{
  ℕ, ◌+◌, ◌-◌, ◌<◌, ◌≡◌, ◌∙◌, arith, refl, sym, subst, ltb, ◌==◌, Bool, true, false, some, Gives,
  gives, Gives-if, Gives-bind, ◌>>=◌,
}
use native.Mathlib.Decide.{dec_lt}
use libfev.Timers.{Mem, Bucket, sift_up, sift_down, timers_bucket_min}
use libfev.Timers.Heap.Order.{IsHeap}
use libfev.Timers.Heap.Links.{index, keys, IsLinked, Holds}
use libfev.Timers.Heap.Up.{sift_up-Sifted}
use libfev.Timers.Heap.Down.{Sunk, sift_down-Sunk}
use libfev.Timers.Buckets.{with_mem, del_sunk, timers_bucket_del, timers_bucket_del_min}
use libfev.Timers.Buckets.Valid.{IsValid, InBucket, Deleted}
use libfev.Timers.Buckets.Removed.{
  Removed, Removed-last, Removed-root, Removed-inner, root_low, UpOrder-above,
}

-- How a removal from the bucket `b` at its root, or below, is seen by the caller.
Removed-Deleted :
    (b : Bucket) (t : ℕ) {m : Mem}
    → IsValid b
    → 0 < b.len
    → Removed (b.len - 1) t b.mem m
    → Deleted b t (with_mem b (b.len - 1) m)
Removed-Deleted b t {m} v pos r =
    let size : b.len - 1 + 1 ≡ b.len = omega arith in
    record {
      valid = record {
        linked = r.linked;
        order = r.order;
        times = λ x. rw (r.abs_time x) (v.times x);
        room = omega (arith, v.room);
        small = v.small;
      };
      len = omega arith;
      same = λ x. rw size at (r.same x);
      frame = record {
        abs_time = r.abs_time;
        waiter = r.waiter;
        others = λ x ne out. r.others x ne (λ h. out (rw size at h));
        min = refl;
      };
    }

sift_down-last : (m : Mem) (n : ℕ) → sift_down m (n + 1) n ≡ some m
unfolding sift_down
sift_down-last m n = ground arith

-- What `fev_timers_bucket_del` has done when it reports `changed`.
pub record DelEnds (b : Bucket) (t : ℕ) (r : Bucket × Bool) : Type 0 where
  pub deleted : Deleted b t r.0
  pub at_root : r.1 ≡ (timers_bucket_min b == t)
  pub root : r.1 ≡ false → timers_bucket_min r.0 ≡ timers_bucket_min b

module _ (b : Bucket) (t : ℕ) (v : IsValid b) (held : InBucket b t) where
  abbrev room : ℕ
  room = b.len - 1

  size : b.len ≡ room + 1
  size = omega arith

  linked : IsLinked b.mem (room + 1) (room + 1)
  linked = rw (← size) v.linked

  order : IsHeap (keys b.mem) (room + 1)
  order = rw (← size) v.order

  inside : Holds b.mem (room + 1) (room + 1) t
  inside = rw (← size) held

  del-DelEnds :
      {m : Mem} (c : Bool)
      → Removed room t b.mem m
      → c ≡ (index b.mem t == 0)
      → DelEnds b t (with_mem b room m, c)
  unfolding timers_bucket_min
  del-DelEnds c r e = record {
    deleted = Removed-Deleted b t v (omega arith) r;
    at_root = ground (arith, v.linked 0);
    root = λ f. r.root (ground arith);
  }

  del_sunk-last : (i : ℕ) → index b.mem t ≡ i → i ≡ room → Gives (DelEnds b t) (del_sunk b i b.mem)
  unfolding del_sunk
  del_sunk-last i e f =
      let r = Removed-last b.mem room t linked inside order (e ∙ f) in
      Gives-if (ltb 0 i)
        (λ pos.
          Gives-if (ltb i room) (λ lt. absurd (ground arith))
            (λ _. gives (del-DelEnds false r (ground arith))))
        (λ root. gives (del-DelEnds true r (ground arith)))

  del_sunk-inner :
      (i : ℕ) {m : Mem}
      → index b.mem t ≡ i
      → i < room
      → Sunk room (index b.mem t) (b.mem.heap room) b.mem m
      → Gives (DelEnds b t) (del_sunk b i m)
  unfolding del_sunk
  del_sunk-inner i {m} e lt s =
      let lt' : index b.mem t < room = omega arith in
      let l = s.placed.linked in
      Gives-if (ltb 0 i)
        (λ pos.
          let pos' : 0 < index b.mem t = ground arith in
          let high = root_low b.mem room t linked inside pos' lt' order s in
          Gives-if (ltb i room)
            (λ _.
              subst
                (λ j.
                  Gives (DelEnds b t)
                    (sift_up m j (m.heap j) >>= λ m'. some (with_mem b room m', false)))
                e
                (Gives-bind
                  (sift_up-Sifted m room (index b.mem t) (m.heap (index b.mem t))
                    (λ j p q. l j p (omega arith)) (λ x. rw (s.placed.abs_time x) (v.times x))
                    (λ h. h.1 (l (index b.mem t) lt' (omega arith)))
                    (UpOrder-above room t b.mem m lt' s))
                  λ m' u. gives (
                    del-DelEnds false (Removed-inner b.mem room t linked inside pos' lt' s u high)
                      (ground arith))))
            (λ ge. absurd (ground arith)))
        (λ root. gives (
          del-DelEnds true (Removed-root b.mem room t linked inside (ground arith) (omega arith) s)
            (ground arith)))

  -- Deleting a timer that is in a valid bucket ends. The bucket is valid and holds exactly the other
  -- timers, no timer's time or waiter has changed, and it reports exactly whether the least timer was
  -- deleted; when it was not, the least timer is the one from before.
  pub timers_bucket_del_lem : Gives (DelEnds b t) (timers_bucket_del b t)
  unfolding timers_bucket_del
  timers_bucket_del_lem =
      subst
        (λ n.
          Gives (DelEnds b t) (sift_down b.mem n (index b.mem t) >>= del_sunk b (index b.mem t)))
        (sym size)
        (elim (dec_lt (index b.mem t) room) [
          | yes lt ↦
              Gives-bind (sift_down-Sunk b.mem room (index b.mem t) lt linked v.times order)
                λ m s. del_sunk-inner (index b.mem t) refl lt s
          | no ge ↦
              let e : index b.mem t ≡ room = omega arith in
              rw (e, sift_down-last b.mem room) (del_sunk-last room e refl)
        ])

-- Deleting the least timer of a valid bucket that is not empty ends. The bucket is valid and holds
-- exactly the other timers, and no timer's time or waiter has changed.
pub timers_bucket_del_min_lem :
    (b : Bucket)
    → IsValid b
    → 0 < b.len
    → Gives (Deleted b (timers_bucket_min b)) (timers_bucket_del_min b)
unfolding timers_bucket_del_min timers_bucket_min
timers_bucket_del_min_lem b v pos =
    let t = b.mem.heap 0 in
    let at : index b.mem t ≡ 0 = v.linked 0 pos (omega arith) in
    let held : InBucket b t = ground arith in
    subst (λ n. Gives (Deleted b t) (sift_down b.mem n 0 >>= λ m. some (with_mem b (b.len - 1) m)))
      (sym (size b t v held))
      (elim (dec_lt 0 (b.len - 1)) [
        | yes lt ↦
            Gives-bind
              (sift_down-Sunk b.mem (b.len - 1) 0 lt (linked b t v held) v.times (order b t v held))
              λ m s. gives (
                Removed-Deleted b t v pos (
                  Removed-root b.mem (b.len - 1) t (linked b t v held) (inside b t v held) at lt
                    (subst (λ i. Sunk (b.len - 1) i (b.mem.heap (b.len - 1)) b.mem m) (sym at) s)))
        | no ge ↦
            let e : b.len - 1 ≡ 0 = omega arith in
            rw
              (subst (λ i. sift_down b.mem (b.len - 1 + 1) i ≡ some b.mem) e
                (sift_down-last b.mem (b.len - 1)))
              (gives (
                Removed-Deleted b t v pos (
                  Removed-last b.mem (b.len - 1) t (linked b t v held) (inside b t v held)
                    (order b t v held) (at ∙ sym e))))
      ])
