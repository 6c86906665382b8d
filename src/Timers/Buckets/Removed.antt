-- ===== src/Timers/Buckets/Removed.antt =====
-- src/fev_timers_binheap.c: the memory after a timer is taken out of the heap by the two sifts.
use libfev.Base.{ℕ, ◌+◌, ◌≤◌, ◌<◌, ◌≡◌, ◌≢◌, ◌↔◌, ◌⊎◌, inl, inr, ap, ◌∙◌, arith, refl, sym}
use native.Mathlib.Decide.{ℕ_discrete}
use libfev.Time.Laws.{ns}
use libfev.Timers.{Mem}
use libfev.Timers.Heap.Order.{IsHeap, UpOrder, root_least}
use libfev.Timers.Heap.Links.{index, key, keys, IsLinked, Holds, Placed}
use libfev.Timers.Heap.Up.{Sifted}
use libfev.Timers.Heap.Down.{Sunk}

-- the memory after the timer `t` is taken out of a heap of `n + 1` slots
pub record Removed (n t : ℕ) (m m' : Mem) : Type 0 where
  pub linked : IsLinked m' n n
  pub order : IsHeap (keys m') n
  pub same : (x : ℕ) → Holds m' n n x ↔ ((x ≢ t) × Holds m (n + 1) (n + 1) x)
  pub abs_time : (x : ℕ) → (m'.timers x).abs_time ≡ (m.timers x).abs_time
  pub waiter : (x : ℕ) → (m'.timers x).waiter ≡ (m.timers x).waiter
  pub others : (x : ℕ) → x ≢ t → ¬ Holds m (n + 1) (n + 1) x → index m' x ≡ index m x
  pub root : 0 < index m t → m'.heap 0 ≡ m.heap 0

module _ (m : Mem) (n t : ℕ) (l : IsLinked m (n + 1) (n + 1))
    (held : Holds m (n + 1) (n + 1) t) where
  abbrev pub last : ℕ
  last = m.heap n

  -- the timers that stand apart from the hole, and the last one, are those other than `t`
  others_stay :
      index m t < n
      → (x : ℕ) → ((x ≡ last) ⊎ Holds m n (index m t) x) ↔ ((x ≢ t) × Holds m (n + 1) (n + 1) x)
  others_stay lt x = (
    λ h. elim h [
      | inl e ↦ (λ e'. absurd (ground (arith, l n)), ground (arith, l n))
      | inr (a, c, d) ↦ (λ e'. absurd (ground arith), ground arith)
    ],
    λ (ne, h). elim (ℕ_discrete x last) [
      | yes e ↦ inl e
      | no e ↦ inr (ground (arith, l n), ground arith, h.2)
    ],
  )

  others_kept :
      {m' : Mem}
      → index m t < n
      → Placed n (index m t) last m m'
      → (x : ℕ) → x ≢ t
      → ¬ Holds m (n + 1) (n + 1) x
      → index m' x ≡ index m x
  others_kept lt p x ne out =
      p.others x (λ e. out ((others_stay lt x).0 (inl e)).1)
        (λ h. out ((others_stay lt x).0 (inr h)).1)

  -- The last timer was in the root's slot: nothing moves.
  pub Removed-last : IsHeap (keys m) (n + 1) → index m t ≡ n → Removed n t m m
  Removed-last o e = record {
    linked = λ i p q. l i (omega arith) (omega arith);
    order = λ c p q. o c p (omega arith);
    same = λ x. (
      λ (a, c, d). (λ e'. absurd (ground arith), (omega arith, omega arith, d)),
      λ (ne, h). (ground (arith, held), ground (arith, held), h.2),
    );
    abs_time = λ x. refl;
    waiter = λ x. refl;
    others = λ x ne out. refl;
    root = λ p. refl;
  }

  pub Removed-root :
      {m' : Mem} → index m t ≡ 0 → 0 < n → Sunk n (index m t) last m m' → Removed n t m m'
  Removed-root e pos s = record {
    linked = s.placed.linked;
    order = λ c p q. s.order.edges c p q (omega arith);
    same = λ x. (
      λ h. (others_stay (omega arith) x).0 ((s.placed.same x).0 h),
      λ h. (s.placed.same x).1 ((others_stay (omega arith) x).1 h),
    );
    abs_time = s.placed.abs_time;
    waiter = s.placed.waiter;
    others = others_kept (omega arith) s.placed;
    root = λ p. absurd (omega arith);
  }

  root_below :
      {m' : Mem}
      → index m t < n
      → IsHeap (keys m) (n + 1)
      → Sunk n (index m t) last m m'
      → (x : ℕ) → Holds m' n n x
      → key m (m.heap 0) ≤ key m' x
  root_below lt o s x h =
      let (ne, i) = (others_stay lt x).0 ((s.placed.same x).0 h) in
      let least = root_least (keys m) (n + 1) (index m x) o i.0 in
      let time = ap ns (s.placed.abs_time x) in rw (time, ← ap (key m) i.2) least

  pub root_low :
      {m' : Mem}
      → 0 < index m t
      → index m t < n
      → IsHeap (keys m) (n + 1)
      → Sunk n (index m t) last m m'
      → keys m' 0 ≤ keys m' (index m t)
  root_low {m'} pos lt o s =
      let at = s.placed.linked (index m t) lt (omega arith) in
      rw (s.root pos, ap ns (s.placed.abs_time (m.heap 0)))
        (root_below lt o s (m'.heap (index m t)) (ground arith))

  -- Below the root the timer that is now in the slot goes up from it.
  pub Removed-inner :
      {m' m'' : Mem}
      → 0 < index m t
      → index m t < n
      → Sunk n (index m t) last m m'
      → Sifted n (index m t) (m'.heap (index m t)) m' m''
      → keys m' 0 ≤ keys m' (index m t)
      → Removed n t m m''
  Removed-inner {m'} {m''} pos lt s u high = record {
    linked = u.placed.linked;
    order = u.order;
    same = λ x. (
      λ h. (others_stay lt x).0 ((s.placed.same x).0 (back x ((u.placed.same x).0 h))),
      λ h. (u.placed.same x).1 (forth x ((s.placed.same x).1 ((others_stay lt x).1 h))),
    );
    abs_time = λ x. u.placed.abs_time x ∙ s.placed.abs_time x;
    waiter = λ x. u.placed.waiter x ∙ s.placed.waiter x;
    others = λ x ne out.
        let gone : ¬ Holds m' n n x = λ h. out ((others_stay lt x).0 ((s.placed.same x).0 h)).1 in
        u.placed.others x (λ e. gone (back x (inl e))) (λ h. gone (back x (inr h)))
        ∙ others_kept lt s.placed x ne out;
    root = λ p. u.root_kept pos high ∙ s.root pos;
  }
    where
      back : (x : ℕ) → (x ≡ m'.heap (index m t)) ⊎ Holds m' n (index m t) x → Holds m' n n x
      back x (inl e) = ground (arith, s.placed.linked (index m t))
      back x (inr (a, c, d)) = (a, omega arith, d)

      forth : (x : ℕ) → Holds m' n n x → (x ≡ m'.heap (index m t)) ⊎ Holds m' n (index m t) x
      forth x (a, c, d) = elim (ℕ_discrete (index m' x) (index m t)) [
        | yes e ↦ inl (sym d ∙ ap m'.heap e)
        | no e ↦ inr (a, e, d)
      ]

pub UpOrder-above :
    (n t : ℕ) (m m' : Mem)
    → index m t < n
    → Sunk n (index m t) (m.heap n) m m'
    → UpOrder (keys m') n (index m t) (keys m' (index m t))
UpOrder-above n t m m' lt s = record {
  inside = lt;
  edges = λ c p q a b. s.order.edges c p q a;
  below = λ c p q a. ground (arith, s.order.edges c p q);
  bridged = s.order.bridged;
}
