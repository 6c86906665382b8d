-- ===== src/Queues/Mpmc/Popping.antt =====
-- The steps of a pop keep the invariant.
use libfev.Base.{
  ℕ, ◌+◌, ◌-◌, ◌%◌, ◌^◌, ◌≤◌, ◌<◌, ◌≡◌, ◌≢◌, refl, sym, ap, ◌∙◌, arith, Option, some, ◌∷◌, update,
  update-all, update_ne, update_self, subst,
}
use Prim.Native.Nat.{◌∣◌}
use native.Mathlib.Decide.{dec_lt}
use libfev.Queues.Window.{u32}
use libfev.Queues.Mpmc.{Cell}
use libfev.Queues.Mpmc.Steps.{Phase, pop_swaps, pop_took, System, capacity, slot, move, taken}
use libfev.Queues.Mpmc.Entries.{Entry, ready, gone, span, span-above, Allowed, takes}
use libfev.Queues.Mpmc.Known.{
  cell, Pushes, Pops, Used, Free, held, Knows, pop_has, Inv, slot-mod, slots-apart, cell-round,
}
use libfev.Queues.Mpmc.Kept.{Kept, Knows-kept, Used-kept, Free-kept, keeps_push, keeps_pop}
use libfev.Queues.Mpmc.Looks.{view, view-first}

-- Words of counts that are close to each other tell the counts.
pub u32-eq : (a b : ℕ) → a ≤ b → b < a + 2 ^ 31 → u32 b ≡ u32 a → a ≡ b
u32-eq a b le lt e = omega arith

pub no_push :
    {a p q : Phase}
    → a ≡ p
    → ((x t : ℕ) → Pushes p x t → Pushes q x t)
    → (x t : ℕ) → Pushes a x t
    → Pushes q x t
no_push e f x t w = f x t (subst (λ r. Pushes r x t) e w)

pub no_pop :
    {a p q : Phase} → a ≡ p → ((h : ℕ) → Pops p h → Pops q h) → (h : ℕ) → Pops a h → Pops q h
no_pop e f h w = f h (subst (λ r. Pops r h) e w)

-- Writing a cell leaves the cells of other positions alone.
pub cell-miss :
    (s : System) (q p : ℕ) (c : Cell)
    → capacity s ∣ 2 ^ 32
    → p ≢ q
    → p < q + capacity s
    → q < p + capacity s
    → update s.buffer (slot s q) c (p % capacity s) ≡ cell s p
cell-miss s q p c d ne a b =
    update_ne s.buffer (slot s q) (p % capacity s) c
      (λ z. slots-apart (capacity s) p q ne a b (sym z ∙ slot-mod s q d))

pub cell-hit :
    (s : System) (q : ℕ) (c : Cell)
    → capacity s ∣ 2 ^ 32
    → update s.buffer (slot s q) c (q % capacity s) ≡ c
cell-hit s q c d =
    ap (λ z. update s.buffer z c (q % capacity s)) (slot-mod s q d)
    ∙ update_self s.buffer (q % capacity s) c

module _ (s : System) (e : ℕ → Entry) (hands : ℕ → Option ℕ) (v : Inv s e hands) where
  module _ (i x : ℕ) (at : s.phases i ≡ pop_swaps s.head) (lt : s.head < s.tail)
      (en : e s.head ≡ ready x) (seq : (cell s s.head).sequence ≡ s.head + 1)
      (val : (cell s s.head).value ≡ x) where
    unfoldable pub after_take : System
    after_take = move (record s { head = s.head + 1 }) i (pop_took s.head)

    unfoldable pub entries_take : ℕ → Entry
    entries_take = update e s.head (gone i x)

    take_other : (j : ℕ) → Kept s after_take e entries_take j
    unfolding after_take entries_take
    take_other j = record {
      size = refl;
      heads = omega arith;
      tails = omega arith;
      first = λ a b c. absurd (omega arith);
      last = λ a b c. c;
      pops = λ h y below le q f. (le, refl, update_ne e s.head h (gone i x) (omega arith));
      pushes = λ p y le below q f.
          let ne : s.head ≢ p = λ z. ground (arith, en, ap e z, f) in
          (omega (arith, ne), refl, update_ne e s.head p (gone i x) ne);
    }

    take_room : (p : ℕ) → s.tail ≤ p → p < s.head + 1 + capacity s → Free after_take p
    unfolding after_take
    take_room p le below = elim (dec_lt p (s.head + capacity s)) [
      | yes inner ↦
          Free-kept s after_take p (v.room p le inner) refl refl
            (λ j h _. keeps_pop s.phases i (pop_took s.head) (no_pop at (λ _ w. elim w [ ])) j h)
      | no outer ↦
          let q : s.head + capacity s ≡ p = omega arith in
          held i s.head
            (subst (λ r. Pops r s.head) (sym (update_self s.phases i (pop_took s.head))) Pops.took)
            q
            (ap (λ z. (cell s z).sequence) (sym q)
              ∙ ap (λ z. z.sequence) (cell-round s s.head)
              ∙ seq)
    ]

    pub take-Inv : Inv after_take entries_take (update hands i (some x))
    unfolding after_take entries_take
    take-Inv = record {
      power = v.power;
      big = v.big;
      proper = v.proper;
      order = omega arith;
      bound = omega (arith, v.bound);
      used = λ p le below.
          subst (Used after_take p) (sym (update_ne e s.head p (gone i x) (omega arith))) (
            Used-kept s after_take p (e p) (v.used p (omega arith) below) refl (λ j y.
              keeps_push s.phases i (pop_took s.head) (no_push at (λ _ _ w. elim w [ ])) j y p));
      room = take_room;
      past = λ p below. elim (dec_lt p s.head) [
        | yes inner ↦ v.past p inner
        | no outer ↦ let q : p ≡ s.head = omega arith in rw q (omega (arith, seq))
      ];
      upper = λ p. omega (arith, v.upper p);
      knows =
          update-all (λ j q. Knows after_take entries_take (update hands i (some x)) j q) s.phases i
            (pop_took s.head)
            (λ j ne.
              Knows-kept s after_take e entries_take hands (update hands i (some x)) j (s.phases j)
                (v.knows j) (update_ne hands i j (some x) ne) (take_other j))
            (pop_has x (omega arith) (omega (arith, v.bound)) seq val
              (update_self e s.head (gone i x)) (update_self hands i (some x)));
    }

    pub take-Allowed :
        Allowed
          (capacity s)
          (view s e hands v)
          (view after_take entries_take (update hands i (some x)) take-Inv)
          (taken i)
    unfolding after_take entries_take
    take-Allowed =
        let fewer : s.tail - s.head - 1 ≡ s.tail - (s.head + 1) = omega arith in
        takes i x
          (view-first s e hands v lt
            ∙ ap (λ y. y ∷ span e (s.head + 1) (s.tail - s.head - 1)) en
            ∙ ap (λ n. ready x ∷ span e (s.head + 1) n) fewer
            ∙ ap (λ l. ready x ∷ l)
                (sym (
                  span-above e s.head (gone i x) (s.head + 1) (s.tail - (s.head + 1))
                    (omega arith))))
          refl
