-- ===== src/Timers/Heap/Down.antt =====
-- src/fev_timers_binheap.c, `fev_timers_sift_down`.
use libfev.Base.{
  ℕ, zero, suc, ◌+◌, ◌-◌, ◌*◌, ◌/◌, ◌≤◌, ◌<◌, ◌≡◌, refl, ap, arith, update, leb, ltb, ◌==◌, Option,
  Gives, gives, Gives-weaken, Gives-if,
}
use native.Mathlib.Decide.{ℕ_discrete}
use native.Mathlib.Nat.{le_refl}
use libfev.Time.Laws.{ns}
use libfev.Timers.{Mem, put, smaller_child, sift_down_loop, sift_down, place}
use libfev.Timers.Heap.Order.{
  parent, IsHeap, IsSmallerChild, DownOrder, DownOrder-step, DownOrder-stop, SunkOrder,
}
use libfev.Timers.Heap.Links.{
  key, keys, HasTimes, IsLinked, Holds, keys-put, heap-put, is_nonpos-timers_cmp, is_neg-timers_cmp,
  abs_time-put, Moved, Moved-refl, Moved-trans, Moved-put, Placed, Moved-place,
}

-- what the loop hands to the final write
pub record Lowered (n start h v : ℕ) (m : Mem) (r : Mem × ℕ) : Type 0 where
  pub inside : r.1 < n
  pub from : start ≤ r.1
  pub root : 0 < start → r.0.heap 0 ≡ m.heap 0
  pub moved : Moved n h r.1 m r.0
  pub order : SunkOrder (update (keys r.0) r.1 v) n start

smaller_child-IsSmallerChild :
    (m : Mem) (n h : ℕ)
    → HasTimes m
    → h * 2 + 1 < n
    → IsSmallerChild (keys m) n h (smaller_child m n h)
unfolding smaller_child
smaller_child-IsSmallerChild m n h v lt =
    rw (is_neg-timers_cmp m (m.heap (h * 2 + 1 + 1)) (m.heap (h * 2 + 1)) v) record {
      inside = ground arith;
      child = ground arith;
      least = λ c p q r. elim (ℕ_discrete c (h * 2 + 1)) [
        | yes e ↦ rw e (ground arith)
        | no e ↦ let e' : c ≡ h * 2 + 1 + 1 = omega arith in rw e' (ground arith)
      ];
    }

DownOrder-put :
    (m : Mem) (n start h c v : ℕ)
    → DownOrder (keys m) n start h v
    → IsSmallerChild (keys m) n h c
    → keys m c < v
    → DownOrder (keys (put m h (m.heap c))) n start c v
DownOrder-put m n start h c v d s lt =
    let u = DownOrder-step (keys m) n start h c v d s lt in
    let at = keys-put m h (m.heap c) in
    record {
      inside = u.inside;
      from = u.from;
      edges = λ x p q a b. ground (arith, u.edges x p q, at x, at (parent x));
      above = λ e. ground (arith, u.above e, at (parent c));
      bridged = λ x p q a b. ground (arith, u.bridged x p q a b, at x, at (parent c));
    }

sift_down_loop-Lowered :
    (fuel : ℕ) (m : Mem) (n start h t : ℕ)
    → n - h ≤ fuel
    → 2 ≤ n
    → IsLinked m n h
    → HasTimes m
    → DownOrder (keys m) n start h (key m t)
    → Gives (Lowered n start h (key m t) m) (sift_down_loop fuel m n h t)
unfolding sift_down_loop
sift_down_loop-Lowered zero m n start h t f big l v d = absurd (omega (arith, d.inside))
sift_down_loop-Lowered (suc fuel) m n start h t f big l v d =
    Gives-if (ltb ((n - 2) / 2) h)
      (λ leaf. gives (record {
        inside = d.inside;
        from = d.from;
        root = λ p. refl;
        moved = Moved-refl n h m l;
        order = DownOrder-stop (keys m) n start h (key m t) d (λ c p q r. absurd (ground arith));
      }))
      (λ inner.
        let s = smaller_child-IsSmallerChild m n h v (ground arith) in
        let c = smaller_child m n h in
        let m' = put m h (m.heap c) in
        let same : key m' t ≡ key m t = ap ns (abs_time-put m h (m.heap c) t) in
        rw (is_nonpos-timers_cmp m t (m.heap c) v) (
          Gives-if (leb (key m t) (keys m c))
            (λ le. gives (record {
              inside = d.inside;
              from = d.from;
              root = λ p. refl;
              moved = Moved-refl n h m l;
              order =
                  DownOrder-stop (keys m) n start h (key m t) d
                    (λ x p q r. ground (arith, s.least x p q r));
            }))
            (λ gt.
              let step = Moved-put m n h c l d.inside s.inside (omega (arith, s.child)) in
              Gives-weaken
                (sift_down_loop-Lowered fuel m' n start c t (omega (arith, s.child, s.inside)) big
                  step.linked (λ x. rw (abs_time-put m h (m.heap c) x) (v x))
                  (rw same (DownOrder-put m n start h c (key m t) d s (ground arith))))
                (λ r w. record {
                  inside = w.inside;
                  from = w.from;
                  root = λ p. ground (arith, w.root p, heap-put m h (m.heap c) 0, d.from);
                  moved = Moved-trans step w.moved;
                  order = rw same at w.order;
                }))))

-- the memory after the last timer is written into the hole
pub record Sunk (n start t : ℕ) (m m' : Mem) : Type 0 where
  pub placed : Placed n start t m m'
  pub order : SunkOrder (keys m') n start
  pub root : 0 < start → m'.heap 0 ≡ m.heap 0

place-Sunk :
    (n start t : ℕ) (m : Mem) {r : Option (Mem × ℕ)}
    → ¬ Holds m n start t
    → Gives (Lowered n start start (key m t) m) r
    → Gives (Sunk n start t m) (place t r)
unfolding place
place-Sunk n start t m fresh (gives {x = (m', h')} s) =
    let at = keys-put m' h' t in
    let time = s.moved.abs_time t in
    gives (record {
      placed = Moved-place n start h' t m m' s.moved s.inside fresh;
      root = λ p. ground (arith, s.root p, s.from, heap-put m' h' t 0);
      order = record {
        edges = λ c p q r. ground (arith, s.order.edges c p q r, at c, at (parent c), time);
        bridged =
            λ c p q r w. ground (arith, s.order.bridged c p q r w, at c, at (parent start), time);
      };
    })

-- `fev_timers_sift_down` on a heap of `n + 1` slots, at a slot other than the last: the last timer
-- takes the place of the timer in `start`, and moves down as far as it has to.
pub sift_down-Sunk :
    (m : Mem) (n start : ℕ)
    → start < n
    → IsLinked m (n + 1) (n + 1)
    → HasTimes m
    → IsHeap (keys m) (n + 1)
    → Gives (Sunk n start (m.heap n) m) (sift_down m (n + 1) start)
unfolding sift_down
sift_down-Sunk m n start lt l v o =
    let size : n + 1 - 1 ≡ n = omega arith in
    let linked : IsLinked m n start = λ i p q. l i (omega arith) (omega arith) in
    let fresh : ¬ Holds m n start (m.heap n) =
      λ held. absurd (omega (arith, held.0, l n (omega arith) (omega arith))) in
    let order : DownOrder (keys m) n start start (keys m n) = record {
      inside = lt;
      from = le_refl start;
      edges = λ c p q r s. o c p (omega arith);
      above = λ ne. absurd (ne refl);
      bridged = λ c p q r s. ground (arith, o c p (omega arith), o start s (omega arith));
    } in
    rw size (
      Gives-if (start == n) (λ e. absurd (ground arith))
        (λ _. place-Sunk n start (m.heap n) m fresh (
          Gives-if (leb 2 n)
            (λ big.
              sift_down_loop-Lowered (n + 1) m n start start (m.heap n) (omega arith) (ground arith)
                linked v order)
            (λ small. gives (record {
              inside = lt;
              from = le_refl start;
              root = λ p. refl;
              moved = Moved-refl n start m linked;
              order =
                  DownOrder-stop (keys m) n start start (keys m n) order
                    (λ c p q r. absurd (ground arith));
            })))))
