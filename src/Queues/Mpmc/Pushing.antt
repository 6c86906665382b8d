-- ===== src/Queues/Mpmc/Pushing.antt =====
-- The steps of a push keep the invariant.
use libfev.Base.{
  ℕ, ◌+◌, ◌-◌, ◌%◌, ◌≤◌, ◌<◌, ◌≡◌, ◌≢◌, refl, sym, ap, ◌∙◌, arith, Option, update, update-all,
  update_ne, update_self, subst,
}
use native.Mathlib.Decide.{ℕ_discrete}
use libfev.Queues.Mpmc.{Cell}
use libfev.Queues.Mpmc.Steps.{
  push_swaps, push_took, push_wrote, System, capacity, slot, move, silent, reserved,
}
use libfev.Queues.Mpmc.Entries.{
  Entry, pending, span, length-span, span-push, Allowed, hidden, reserves,
}
use libfev.Queues.Mpmc.Known.{cell, Pushes, Used, waits, Knows, push_has, push_put, Inv, cell-round}
use libfev.Queues.Mpmc.Kept.{Kept, Knows-kept, Used-kept, Free-kept, keeps_push, keeps_pop}
use libfev.Queues.Mpmc.Looks.{view}
use libfev.Queues.Mpmc.Popping.{no_push, no_pop, cell-miss, cell-hit}

module _ (s : System) (e : ℕ → Entry) (hands : ℕ → Option ℕ) (v : Inv s e hands) where
  module _ (i x : ℕ) (at : s.phases i ≡ push_swaps x s.tail) (lt : s.tail < s.head + capacity s)
      (seq : (cell s s.tail).sequence ≡ s.tail) where
    unfoldable pub after_reserve : System
    after_reserve = move (record s { tail = s.tail + 1 }) i (push_took x s.tail)

    unfoldable pub entries_reserve : ℕ → Entry
    entries_reserve = update e s.tail (pending i x)

    reserve_other : (j : ℕ) → Kept s after_reserve e entries_reserve j
    unfolding after_reserve entries_reserve
    reserve_other j = record {
      size = refl;
      heads = omega arith;
      tails = omega arith;
      first = λ a b c. c;
      last = λ a b c. absurd (omega arith);
      pops = λ h y below le q f.
          let ne : s.tail ≢ h + capacity s = λ z. omega (
            arith,
            seq,
            ap (λ k. (cell s k).sequence) z,
            ap (λ c. c.sequence) (cell-round s h),
            q,
            v.big,
          ) in
          (omega (arith, ne), refl, update_ne e s.tail h (pending i x) (omega (arith, v.order)));
      pushes = λ p y le below q f. (le, refl, update_ne e s.tail p (pending i x) (omega arith));
    }

    reserve_used : (p : ℕ) → s.head ≤ p → p < s.tail + 1 → Used after_reserve p (entries_reserve p)
    unfolding after_reserve entries_reserve
    reserve_used p le below = elim (ℕ_discrete s.tail p) [
      | yes q ↦
          subst (λ z. Used after_reserve z (entries_reserve z)) q
            (subst (Used after_reserve s.tail) (sym (update_self e s.tail (pending i x))) (
              waits seq (
                subst (λ r. Pushes r x s.tail) (sym (update_self s.phases i (push_took x s.tail)))
                  Pushes.took)))
      | no ne ↦ subst (Used after_reserve p) (sym (update_ne e s.tail p (pending i x) ne)) (
          Used-kept s after_reserve p (e p) (v.used p le (omega arith)) refl (λ j y.
            keeps_push s.phases i (push_took x s.tail) (no_push at (λ _ _ w. elim w [ ])) j y p))
    ]

    pub reserve-Inv : Inv after_reserve entries_reserve hands
    unfolding after_reserve entries_reserve
    reserve-Inv = record {
      power = v.power;
      big = v.big;
      proper = v.proper;
      order = omega (arith, v.order);
      bound = omega arith;
      used = reserve_used;
      room = λ p le below.
          Free-kept s after_reserve p (v.room p (omega arith) below) refl refl (λ j h _.
            keeps_pop s.phases i (push_took x s.tail) (no_pop at (λ _ w. elim w [ ])) j h);
      past = v.past;
      upper = v.upper;
      knows =
          update-all (λ j q. Knows after_reserve entries_reserve hands j q) s.phases i
            (push_took x s.tail)
            (λ j ne.
              Knows-kept s after_reserve e entries_reserve hands hands j (s.phases j) (v.knows j)
                refl (reserve_other j))
            (push_has v.order (omega arith) (update_self e s.tail (pending i x)) seq);
    }

    pub reserve-Allowed :
        Allowed
          (capacity s)
          (view s e hands v)
          (view after_reserve entries_reserve hands reserve-Inv)
          (reserved i x)
    unfolding after_reserve entries_reserve
    reserve-Allowed =
        let more : s.tail + 1 - s.head ≡ s.tail - s.head + 1 = omega (arith, v.order) in
        let there : s.tail ≡ s.head + (s.tail - s.head) = omega (arith, v.order) in
        reserves i x
          (ap (span entries_reserve s.head) more
            ∙ ap (λ k. span (update e k (pending i x)) s.head (s.tail - s.head + 1)) there
            ∙ span-push e s.head (s.tail - s.head) (pending i x))
          (omega (arith, length-span entries_reserve s.head (s.tail + 1 - s.head), v.order)) refl

  module _ (i x t : ℕ) (at : s.phases i ≡ push_took x t) (le : s.head ≤ t) (lt : t < s.tail)
      (en : e t ≡ pending i x) (seq : (cell s t).sequence ≡ t) where
    unfoldable pub filled : Cell
    filled = record (s.buffer (slot s t)) { value = x }

    unfoldable pub after_write : System
    unfolding filled
    after_write = move (record s { buffer = update s.buffer (slot s t) filled }) i (push_wrote x t)

    write_miss :
        (p : ℕ) → s.head ≤ p → p < s.head + capacity s → p ≢ t → cell after_write p ≡ cell s p
    unfolding after_write
    write_miss p a b ne = cell-miss s t p filled v.power ne (omega arith) (omega (arith, v.bound))

    -- The sequence numbers stay.
    write_seq : (p : ℕ) → (cell after_write p).sequence ≡ (cell s p).sequence
    unfolding after_write filled
    write_seq p =
        update-all (λ k c. c.sequence ≡ (s.buffer k).sequence) s.buffer (slot s t) filled
          (λ k ne. refl) refl (p % capacity s)

    write_other : (j : ℕ) → i ≢ j → Kept s after_write e e j
    unfolding after_write
    write_other j ne = record {
      size = refl;
      heads = omega arith;
      tails = omega arith;
      first = λ a b c. write_seq s.head ∙ c;
      last = λ a b c. write_seq s.tail ∙ c;
      pops = λ h y below past_tail q f. (
        past_tail,
        sym (cell-round after_write h)
            ∙ write_miss (h + capacity s) (omega arith) (omega arith) (omega arith)
            ∙ cell-round s h,
        refl,
      );
      pushes = λ p y a b q f. (
        a,
        write_miss p a (omega (arith, v.bound)) (λ z. ne (ground (arith, en, ap e z, f))),
        refl,
      );
    }

    moves :
        (j y p : ℕ) → Pushes (s.phases j) y p → Pushes (update s.phases i (push_wrote x t) j) y p
    moves = keeps_push s.phases i (push_wrote x t) (no_push at turned)
      where
        turned : (y p : ℕ) → Pushes (push_took x t) y p → Pushes (push_wrote x t) y p
        turned _ _ Pushes.took = Pushes.wrote

    write_used : (p : ℕ) → s.head ≤ p → p < s.tail → Used after_write p (e p)
    unfolding after_write
    write_used p a b = elim (ℕ_discrete t p) [
      | yes q ↦
          subst (λ z. Used after_write z (e z)) q
            (subst (Used after_write t) (sym en) (
              waits (write_seq t ∙ seq) (
                subst (λ r. Pushes r x t) (sym (update_self s.phases i (push_wrote x t)))
                  Pushes.wrote)))
      | no ne ↦
          Used-kept s after_write p (e p) (v.used p a b)
            (write_miss p a (omega (arith, v.bound)) (λ z. ne (sym z))) (λ j y. moves j y p)
    ]

    pub write-Inv : Inv after_write e hands
    unfolding after_write filled
    write-Inv = record {
      power = v.power;
      big = v.big;
      proper = v.proper;
      order = v.order;
      bound = v.bound;
      used = write_used;
      room = λ p a b.
          Free-kept s after_write p (v.room p a b) refl
            (write_miss p (omega (arith, v.order)) b (omega arith))
            (λ j h _. keeps_pop s.phases i (push_wrote x t) (no_pop at (λ _ w. elim w [ ])) j h);
      past = λ p below. rw (write_seq p) (v.past p below);
      upper = λ p. rw (write_seq p) (v.upper p);
      knows =
          update-all (λ j q. Knows after_write e hands j q) s.phases i (push_wrote x t)
            (λ j ne.
              Knows-kept s after_write e e hands hands j (s.phases j) (v.knows j) refl
                (write_other j ne))
            (push_put le lt en (write_seq t ∙ seq)
              (ap (λ c. c.value) (cell-hit s t filled v.power)));
    }

    pub write-Allowed :
        Allowed (capacity s) (view s e hands v) (view after_write e hands write-Inv) silent
    unfolding after_write
    write-Allowed = hidden refl
