-- ===== src/Timers/Heap/Up.antt =====
-- src/fev_timers_binheap.c, `fev_timers_sift_up`.
use libfev.Base.{
  ℕ, zero, suc, ◌≤◌, ◌<◌, ◌≡◌, ◌⊎◌, refl, ap, arith, update, leb, ltb, ◌==◌, Option, Gives, gives,
  Gives-weaken, Gives-if,
}
use native.Mathlib.Nat.{le_refl}
use libfev.Time.Laws.{ns}
use libfev.Timers.{Mem, put, sift_up_loop, sift_up, place}
use libfev.Timers.Heap.Order.{parent, IsHeap, UpOrder, UpOrder-step, UpOrder-stop}
use libfev.Timers.Heap.Links.{
  key, keys, HasTimes, IsLinked, Holds, keys-put, heap-put, is_nonpos-timers_cmp, abs_time-put,
  Moved, Moved-refl, Moved-trans, Moved-put, Placed, Moved-place,
}

-- what the loop hands to the final write: a hole in which the key `v` completes the heap
pub record Sought (n h v : ℕ) (m : Mem) (r : Mem × ℕ) : Type 0 where
  pub inside : r.1 < n
  pub root : r.0.heap 0 ≡ m.heap 0
  pub high : 0 < h → keys m 0 ≤ v → 0 < r.1
  pub moved : Moved n h r.1 m r.0
  pub order : IsHeap (update (keys r.0) r.1 v) n

UpOrder-put :
    (m : Mem) (n h v : ℕ)
    → UpOrder (keys m) n h v
    → 0 < h
    → v < keys m (parent h)
    → UpOrder (keys (put m h (m.heap (parent h)))) n (parent h) v
UpOrder-put m n h v u pos lt =
    let s = UpOrder-step (keys m) n h v u pos lt in
    let at = keys-put m h (m.heap (parent h)) in
    record {
      inside = s.inside;
      edges = λ c p q a b. ground (arith, s.edges c p q, at c, at (parent c));
      below = λ c p q a. ground (arith, s.below c p q, at c);
      bridged = λ c p q a b. ground (arith, s.bridged c p q a b, at c, at (parent (parent h)));
    }

sift_up_loop-Sought :
    (fuel : ℕ) (m : Mem) (n h t : ℕ)
    → h ≤ fuel
    → 0 < h
    → IsLinked m n h
    → HasTimes m
    → UpOrder (keys m) n h (key m t)
    → Gives (Sought n h (key m t) m) (sift_up_loop fuel m h t)
unfolding sift_up_loop
sift_up_loop-Sought zero m n h t f pos l v u = absurd (omega arith)
sift_up_loop-Sought (suc fuel) m n h t f pos l v u =
    let p = m.heap (parent h) in
    let m' = put m h p in
    let same : key m' t ≡ key m t = ap ns (abs_time-put m h p t) in
    rw (is_nonpos-timers_cmp m p t v) (
      Gives-if (leb (key m p) (key m t))
        (λ le. gives (record {
          inside = u.inside;
          root = refl;
          high = λ q w. q;
          moved = Moved-refl n h m l;
          order = UpOrder-stop (keys m) n h (key m t) u (λ _. ground arith);
        }))
        (λ gt.
          let u' = UpOrder-put m n h (key m t) u pos (ground arith) in
          let step =
            Moved-put m n h (parent h) l u.inside (omega (arith, u.inside)) (omega arith) in
          Gives-if (parent h == 0)
            (λ root. gives (record {
              inside = u'.inside;
              root = ground (arith, heap-put m h p 0);
              high = λ q w. absurd (ground arith);
              moved = step;
              order = UpOrder-stop (keys m') n (parent h) (key m t) u' (λ q. ground arith);
            }))
            (λ more.
              Gives-weaken
                (sift_up_loop-Sought fuel m' n (parent h) t (omega arith) (ground arith) step.linked
                  (λ x. rw (abs_time-put m h p x) (v x)) (rw same u'))
                (λ r s. record {
                  inside = s.inside;
                  root = ground (arith, s.root, heap-put m h p 0);
                  high = λ q w. s.high (ground arith) (ground (arith, keys-put m h p 0));
                  moved = Moved-trans step s.moved;
                  order = rw same at s.order;
                }))))

-- the memory after the timer is written into the hole
pub record Sifted (n h t : ℕ) (m m' : Mem) : Type 0 where
  pub placed : Placed n h t m m'
  pub order : IsHeap (keys m') n
  pub root : (m'.heap 0 ≡ t) ⊎ (m'.heap 0 ≡ m.heap 0)
  pub root_kept : 0 < h → keys m 0 ≤ key m t → m'.heap 0 ≡ m.heap 0

pub place-Sifted :
    (n h t : ℕ) (m : Mem) {r : Option (Mem × ℕ)}
    → ¬ Holds m n h t
    → Gives (Sought n h (key m t) m) r
    → Gives (Sifted n h t m) (place t r)
unfolding place
place-Sifted n h t m fresh (gives {x = (m', h')} s) = gives (record {
  placed = Moved-place n h h' t m m' s.moved s.inside fresh;
  order = λ c p q.
      ground
        (arith, s.order c p q, keys-put m' h' t c, keys-put m' h' t (parent c), s.moved.abs_time t);
  root = ground (arith, heap-put m' h' t 0, s.root);
  root_kept = λ p q. ground (arith, heap-put m' h' t 0, s.root, s.high p q);
})

-- `fev_timers_sift_up` puts a timer that is not in the heap into the hole, and moves it up until the
-- heap is in order.
pub sift_up-Sifted :
    (m : Mem) (n h t : ℕ)
    → IsLinked m n h
    → HasTimes m
    → ¬ Holds m n h t
    → UpOrder (keys m) n h (key m t)
    → Gives (Sifted n h t m) (sift_up m h t)
unfolding sift_up
sift_up-Sifted m n h t l v fresh u = place-Sifted n h t m fresh (
    Gives-if (ltb 0 h) (λ pos. sift_up_loop-Sought h m n h t (le_refl h) (ground arith) l v u)
      (λ root. gives (record {
        inside = u.inside;
        root = refl;
        high = λ q w. q;
        moved = Moved-refl n h m l;
        order = UpOrder-stop (keys m) n h (key m t) u (λ q. ground arith);
      })))
