-- ===== src/Queues/Mpmc/Freeing.antt =====
-- The step of a pop that frees its cell keeps the invariant.
use libfev.Base.{
  ℕ, ◌+◌, ◌%◌, ◌^◌, ◌≤◌, ◌<◌, ◌≡◌, ◌≢◌, refl, sym, ap, ◌∙◌, arith, Option, none, some, update,
  update-all, update_ne, subst,
}
use Prim.Native.Nat.{◌∣◌}
use native.Mathlib.Decide.{ℕ_discrete}
use native.Mathlib.Nat.{add-mod_right}
use libfev.Queues.Mpmc.{Cell}
use libfev.Queues.Mpmc.Steps.{idle, pop_read, System, capacity, slot, move, returned}
use libfev.Queues.Mpmc.Entries.{Entry, gone, Allowed, returns}
use libfev.Queues.Mpmc.Known.{cell, Pops, Free, free, Knows, nothing, Inv, slot-mod, cell-round}
use libfev.Queues.Mpmc.Kept.{Kept, Knows-kept, Used-kept, Free-kept, keeps_push}
use libfev.Queues.Mpmc.Looks.{view}
use libfev.Queues.Mpmc.Popping.{no_push, cell-miss, cell-hit}

module _ (s : System) (e : ℕ → Entry) (hands : ℕ → Option ℕ) (v : Inv s e hands) where
  module _ (i h x : ℕ) (at : s.phases i ≡ pop_read h x) (below : h < s.head)
      (past_tail : s.tail ≤ h + capacity s) (seq : (cell s h).sequence ≡ h + 1)
      (en : e h ≡ gone i x) (hand : hands i ≡ some x) where
    unfoldable pub freed : Cell
    freed = record (s.buffer (slot s h)) { sequence = h + s.buffer_mask + 1 }

    unfoldable pub after_free : System
    unfolding freed
    after_free = move (record s { buffer = update s.buffer (slot s h) freed }) i idle

    round_seq : (cell s (h + capacity s)).sequence ≡ h + 1
    round_seq = ap (λ z. z.sequence) (cell-round s h) ∙ seq

    -- The cells of the positions from `head` on other than the one that is freed.
    free_miss :
        (p : ℕ)
        → s.head ≤ p
        → p < s.head + capacity s
        → p ≢ h + capacity s
        → cell after_free p ≡ cell s p
    unfolding after_free freed
    free_miss p a b ne =
        ap (λ z. update s.buffer z freed (p % capacity s)) (turned v.power)
        ∙ cell-miss s (h + capacity s) p freed v.power ne (omega arith) (omega (arith, v.order))
      where
        turned : capacity s ∣ 2 ^ 32 → slot s h ≡ slot s (h + capacity s)
        turned d =
            slot-mod s h d
            ∙ sym (add-mod_right h (capacity s))
            ∙ sym (slot-mod s (h + capacity s) d)

    free_hit : (cell after_free (h + capacity s)).sequence ≡ h + capacity s
    unfolding after_free freed
    free_hit =
        ap (λ z. (update s.buffer (slot s h) freed z).sequence) (add-mod_right h (capacity s))
        ∙ ap (λ z. z.sequence) (cell-hit s h freed v.power)
        ∙ omega arith

    free_room : (p : ℕ) → s.tail ≤ p → p < s.head + capacity s → Free after_free p
    unfolding after_free
    free_room p le lt = elim (ℕ_discrete p (h + capacity s)) [
      | yes q ↦ free (ap (λ z. (cell after_free z).sequence) q ∙ free_hit ∙ sym q)
      | no ne ↦
          Free-kept s after_free p (v.room p le lt) refl
            (free_miss p (omega (arith, v.order)) lt ne)
            (λ j g there'.
              update-all (λ j q. Pops (s.phases j) g → Pops q g) s.phases i idle (λ j _ w. w)
                (λ w.
                  absurd (
                    ne (sym there' ∙ ap (λ z. z + capacity s) (only (subst (λ r. Pops r g) at w)))))
                j)
    ]
      where
        only : {g : ℕ} → Pops (pop_read h x) g → g ≡ h
        only Pops.read = refl

    free_grows : (p : ℕ) → (cell s p).sequence ≤ (cell after_free p).sequence
    unfolding after_free freed
    free_grows p =
        update-all (λ k c. (s.buffer k).sequence ≤ c.sequence) s.buffer (slot s h) freed
          (λ k ne. omega arith)
          (omega (arith, ap (λ k. (s.buffer k).sequence) (slot-mod s h v.power), seq))
          (p % capacity s)

    free_upper : (p : ℕ) → (cell after_free p).sequence ≤ s.head + capacity s
    unfolding after_free freed
    free_upper p =
        update-all
          (λ k c.
            (s.buffer (p % capacity s)).sequence ≤ s.head + capacity s
            → c.sequence ≤ s.head + capacity s)
          (λ k. s.buffer (p % capacity s)) (slot s h) freed (λ k ne le. le) (λ _. omega arith)
          (p % capacity s) (v.upper p)

    -- Another popping thread has another position.
    free_other : (j : ℕ) → i ≢ j → Kept s after_free e e j
    unfolding after_free
    free_other j ne = record {
      size = refl;
      heads = omega arith;
      tails = omega arith;
      first = λ a lt q.
          ap (λ z. z.sequence) (free_miss s.head (omega arith) (omega (arith, v.big)) (omega arith))
          ∙ q;
      last = λ a lt q.
          ap (λ z. z.sequence)
            (free_miss s.tail v.order lt
              (λ z. omega (arith, q, ap (λ k. (cell s k).sequence) z, round_seq, v.big)))
          ∙ q;
      pops = λ g y lt le q f.
          let ne' : g ≢ h = λ z. ne (ground (arith, en, ap e z, f)) in
          (
            le,
            sym (cell-round after_free g)
                ∙ free_miss (g + capacity s) (omega (arith, v.order)) (omega arith)
                    (λ z. ne' (omega arith))
                ∙ cell-round s g,
            refl,
          );
      pushes = λ p y le lt q f. (le, free_miss p le (omega (arith, v.bound)) (omega arith), refl);
    }

    pub free-Inv : Inv after_free e (update hands i none)
    unfolding after_free
    free-Inv = record {
      power = v.power;
      big = v.big;
      proper = v.proper;
      order = v.order;
      bound = v.bound;
      used = λ p le lt.
          Used-kept s after_free p (e p) (v.used p le lt)
            (free_miss p le (omega (arith, v.bound)) (omega arith))
            (λ j y. keeps_push s.phases i idle (no_push at (λ _ _ w. elim w [ ])) j y p);
      room = free_room;
      past = λ p lt. omega (arith, v.past p lt, free_grows p);
      upper = free_upper;
      knows =
          update-all (λ j q. Knows after_free e (update hands i none) j q) s.phases i idle
            (λ j ne.
              Knows-kept s after_free e e hands (update hands i none) j (s.phases j) (v.knows j)
                (update_ne hands i j none ne) (free_other j ne))
            nothing;
    }

    pub free-Allowed :
        Allowed
          (capacity s)
          (view s e hands v)
          (view after_free e (update hands i none) free-Inv)
          (returned i x)
    unfolding after_free
    free-Allowed = returns i x hand refl refl
