-- ===== src/Queues/Mpmc/Publishing.antt =====
-- The step of a push that publishes its cell keeps the invariant.
use libfev.Base.{
  ℕ, ◌+◌, ◌-◌, ◌%◌, ◌≤◌, ◌<◌, ◌≡◌, ◌≢◌, refl, sym, ap, ◌∙◌, arith, Option, ◌∷◌, ◌++◌, update,
  update-all, update_ne, update_self, subst,
}
use native.Mathlib.Decide.{ℕ_discrete}
use libfev.Queues.Mpmc.{Cell}
use libfev.Queues.Mpmc.Steps.{idle, push_wrote, System, capacity, slot, move, published}
use libfev.Queues.Mpmc.Entries.{
  Entry, pending, ready, span, span-below, span-above, span-at, Allowed, publishes,
}
use libfev.Queues.Mpmc.Known.{cell, Pushes, Used, full, Knows, nothing, Inv, slot-mod, cell-round}
use libfev.Queues.Mpmc.Kept.{Kept, Knows-kept, Used-kept, Free-kept, keeps_pop}
use libfev.Queues.Mpmc.Looks.{view}
use libfev.Queues.Mpmc.Popping.{no_pop, cell-miss, cell-hit}

module _ (s : System) (e : ℕ → Entry) (hands : ℕ → Option ℕ) (v : Inv s e hands) where
  module _ (i x t : ℕ) (at : s.phases i ≡ push_wrote x t) (le : s.head ≤ t) (lt : t < s.tail)
      (en : e t ≡ pending i x) (seq : (cell s t).sequence ≡ t) (val : (cell s t).value ≡ x) where
    unfoldable pub shown : Cell
    shown = record (s.buffer (slot s t)) { sequence = t + 1 }

    unfoldable pub after_publish : System
    unfolding shown
    after_publish = move (record s { buffer = update s.buffer (slot s t) shown }) i idle

    unfoldable pub entries_publish : ℕ → Entry
    entries_publish = update e t (ready x)

    publish_miss :
        (p : ℕ) → s.head ≤ p → p < s.head + capacity s → p ≢ t → cell after_publish p ≡ cell s p
    unfolding after_publish
    publish_miss p a b ne = cell-miss s t p shown v.power ne (omega arith) (omega (arith, v.bound))

    publish_other : (j : ℕ) → i ≢ j → Kept s after_publish e entries_publish j
    unfolding after_publish entries_publish
    publish_other j ne = record {
      size = refl;
      heads = omega arith;
      tails = omega arith;
      first = λ a b c.
          ap (λ z. z.sequence)
            (publish_miss s.head (omega arith) (omega (arith, v.big))
              (λ z. omega (arith, c, ap (λ k. (cell s k).sequence) z, seq)))
          ∙ c;
      last = λ a b c. ap (λ z. z.sequence) (publish_miss s.tail v.order b (omega arith)) ∙ c;
      pops = λ h y below past_tail q f. (
        past_tail,
        sym (cell-round after_publish h)
            ∙ publish_miss (h + capacity s) (omega arith) (omega arith) (omega arith)
            ∙ cell-round s h,
        update_ne e t h (ready x) (omega arith),
      );
      pushes = λ p y a b q f.
          let ne' : p ≢ t = λ z. ne (ground (arith, en, ap e z, f)) in
          (
            a,
            publish_miss p a (omega (arith, v.bound)) ne',
            update_ne e t p (ready x) (λ z. ne' (sym z)),
          );
    }

    publish_used : (p : ℕ) → s.head ≤ p → p < s.tail → Used after_publish p (entries_publish p)
    unfolding after_publish entries_publish shown
    publish_used p a b = elim (ℕ_discrete t p) [
      | yes q ↦
          subst (λ z. Used after_publish z (entries_publish z)) q
            (subst (Used after_publish t) (sym (update_self e t (ready x))) (
              full (ap (λ c. c.sequence) (cell-hit s t shown v.power)) (
                ap (λ c. c.value) (cell-hit s t shown v.power)
                ∙ ap (λ k. (s.buffer k).value) (slot-mod s t v.power)
                ∙ val)))
      | no ne ↦ subst (Used after_publish p) (sym (update_ne e t p (ready x) ne)) (
          Used-kept s after_publish p (e p) (v.used p a b)
            (publish_miss p a (omega (arith, v.bound)) (λ z. ne (sym z)))
            (λ j y w.
              update-all (λ j q. Pushes (s.phases j) y p → Pushes q y p) s.phases i idle
                (λ j _ w. w) (λ w. absurd (ne (only (subst (λ r. Pushes r y p) at w)))) j w))
    ]
      where
        only : {y p : ℕ} → Pushes (push_wrote x t) y p → t ≡ p
        only Pushes.wrote = refl

    publish_grows : (p : ℕ) → (cell s p).sequence ≤ (cell after_publish p).sequence
    unfolding after_publish shown
    publish_grows p =
        update-all (λ k c. (s.buffer k).sequence ≤ c.sequence) s.buffer (slot s t) shown
          (λ k ne. omega arith)
          (omega (arith, ap (λ k. (s.buffer k).sequence) (slot-mod s t v.power), seq))
          (p % capacity s)

    publish_upper : (p : ℕ) → (cell after_publish p).sequence ≤ s.head + capacity s
    unfolding after_publish shown
    publish_upper p =
        update-all
          (λ k c.
            (s.buffer (p % capacity s)).sequence ≤ s.head + capacity s
            → c.sequence ≤ s.head + capacity s)
          (λ k. s.buffer (p % capacity s)) (slot s t) shown (λ k ne q. q)
          (λ _. omega (arith, v.bound)) (p % capacity s) (v.upper p)

    pub publish-Inv : Inv after_publish entries_publish hands
    unfolding after_publish entries_publish shown
    publish-Inv = record {
      power = v.power;
      big = v.big;
      proper = v.proper;
      order = v.order;
      bound = v.bound;
      used = publish_used;
      room = λ p a b.
          Free-kept s after_publish p (v.room p a b) refl
            (publish_miss p (omega (arith, v.order)) b (omega arith))
            (λ j h _. keeps_pop s.phases i idle (no_pop at (λ _ w. elim w [ ])) j h);
      past = λ p below. omega (arith, v.past p below, publish_grows p);
      upper = publish_upper;
      knows =
          update-all (λ j q. Knows after_publish entries_publish hands j q) s.phases i idle
            (λ j ne.
              Knows-kept s after_publish e entries_publish hands hands j (s.phases j) (v.knows j)
                refl (publish_other j ne))
            nothing;
    }

    pub publish-Allowed :
        Allowed
          (capacity s)
          (view s e hands v)
          (view after_publish entries_publish hands publish-Inv)
          (published i x)
    unfolding after_publish entries_publish
    publish-Allowed =
        let n = s.tail - s.head in
        let in_reach : t < s.head + n = omega (arith, v.order) in
        let rest = span e (t + 1) (s.head + n - t - 1) in
        publishes i x (span e s.head (t - s.head)) rest
          (span-at e s.head t n le in_reach ∙ ap (λ y. span e s.head (t - s.head) ++ y ∷ rest) en)
          (span-at (update e t (ready x)) s.head t n le in_reach
            ∙ ap
                (λ y.
                  span (update e t (ready x)) s.head (t - s.head)
                  ++ y ∷ span (update e t (ready x)) (t + 1) (s.head + n - t - 1))
                (update_self e t (ready x))
            ∙ ap (λ l. l ++ ready x ∷ span (update e t (ready x)) (t + 1) (s.head + n - t - 1))
                (span-below e t (ready x) s.head (t - s.head) (omega arith))
            ∙ ap (λ l. span e s.head (t - s.head) ++ ready x ∷ l)
                (span-above e t (ready x) (t + 1) (s.head + n - t - 1) (omega arith)))
          refl
