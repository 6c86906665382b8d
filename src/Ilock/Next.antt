-- ===== src/Ilock/Next.antt =====
-- The slow path of an unlock hands the lock over to the first fiber of the list.
use libfev.Base.{
  ℕ, suc, ◌==◌, ◌≡◌, ◌≢◌, ◌⊎◌, inl, inr, refl, sym, ap, ◌∙◌, arith, if◌then◌else◌, true, false,
  none, some, List, [], ◌∷◌, is_empty, update, update-all, update_ne, update_self, subst,
}
use libfev.Ilock.{Phase, idle, waiting, handed, unlock_slow, System, remove_first, unlock_waiters}
use libfev.Ilock.Inv.{owns, is_inside, places, fits, count, Inv, others_free, others_fit, outside}

waiting-of : (p : Phase) (n : ℕ) → suc n ≡ places p → is_inside p ≡ false → p ≡ waiting
waiting-of p n e f = ground arith

-- What `unlock_waiters` leads to.
pub record HandedOver (s : System) (i : ℕ) (t : System) : Type 0 where
  pub fiber : ℕ
  pub rest : List ℕ
  pub first : s.waiters ≡ fiber ∷ rest
  pub switched : s.phases fiber ≡ waiting
  pub handed_to : t.phases fiber ≡ handed
  pub left : t.waiters ≡ rest
  pub back : t.phases i ≡ idle
  pub others : (j : ℕ) → i ≢ j → fiber ≢ j → t.phases j ≡ s.phases j
  pub inner : t.section ≡ s.section
  pub told : t.state ≡ (if is_empty rest then 1 else 2)

module _ (s : System) (i : ℕ) (v : Inv s) (unlocks : s.phases i ≡ unlock_slow)
    (out : s.section ≡ none) where
  fit : fits unlock_slow s.state (is_empty s.waiters) ≡ true
  fit = subst (λ p. fits p s.state (is_empty s.waiters) ≡ true) unlocks (v.fit i)

  pub two : s.state ≡ 2
  two = ground (arith, fit)

  owner : (owns (s.phases i) ≡ true) ⊎ (s.state ≡ 0)
  owner = inl (ap owns unlocks)

  module _ (fiber : ℕ) (rest : List ℕ) (e : s.waiters ≡ fiber ∷ rest) where
    first : suc (count fiber rest) ≡ places (s.phases fiber)
    first = ground (arith, ap (count fiber) e, v.counted fiber)

    pub first_waits : s.phases fiber ≡ waiting
    first_waits = waiting-of (s.phases fiber) (count fiber rest) first (outside s i v out fiber)

    first_once : count fiber rest ≡ 0
    first_once = ground (arith, first, ap places first_waits)

    pub differ : i ≢ fiber
    differ q = ground (arith, q, unlocks, first_waits)

    after : ℕ → Phase
    after = update (update s.phases fiber handed) i idle

    after-all :
        (P : ℕ → Phase → Type 0)
        → ((j : ℕ) → i ≢ j → fiber ≢ j → P j (s.phases j))
        → P fiber handed
        → P i idle
        → (j : ℕ) → P j (after j)
    unfolding after
    after-all P others at_fiber at_i =
        update-all P (update s.phases fiber handed) i idle
          (λ j ne.
            update-all (λ j q. i ≢ j → P j q) s.phases fiber handed (λ j nf ni. others j ni nf)
              (λ ni. at_fiber) j ne)
          at_i

    after_first : after fiber ≡ handed
    unfolding after
    after_first =
        update_ne (update s.phases fiber handed) i fiber idle differ
        ∙ update_self s.phases fiber handed

    only : (j : ℕ) → owns (after j) ≡ true → fiber ≡ j
    only =
        after-all (λ j q. owns q ≡ true → fiber ≡ j)
          (λ j ni nf o. absurd (ground (arith, o, others_free s i v owner j ni))) (λ o. refl)
          (λ o. absurd (ground arith))

    state : ℕ
    state = if is_empty rest then 1 else s.state

    handed-fits : fits handed state (is_empty rest) ≡ true
    unfolding state
    handed-fits = ground (arith, two)

    removed : Inv (record s { state = state; waiters = rest; phases = after })
    removed = record {
      one = λ a b p q. sym (only a p) ∙ only b q;
      fit =
          after-all (λ j q. fits q state (is_empty rest) ≡ true)
            (λ j ni nf. others_fit s i v state (is_empty rest) owner j ni) handed-fits refl;
      held = inr (fiber, ap owns after_first);
      inside =
          after-all (λ j q. is_inside q ≡ true → s.section ≡ some j)
            (λ j ni nf w. absurd (ground (arith, w, outside s i v out j)))
            (λ w. absurd (ground arith)) (λ w. absurd (ground arith));
      counted =
          after-all (λ j q. count j rest ≡ places q)
            (λ j ni nf. ground (arith, v.counted j, ap (count j) e)) first_once
            (ground (arith, v.counted i, ap (count i) e, ap places unlocks));
    }

  pub remove_first-Inv : (xs : List ℕ) → s.waiters ≡ xs → Inv (remove_first i xs s)
  unfolding remove_first after state
  remove_first-Inv [] e = absurd (ground (arith, fit, ap is_empty e))
  remove_first-Inv (fiber ∷ rest) e = removed fiber rest e

  pub unlock_waiters-Inv : Inv (unlock_waiters i s)
  unfolding unlock_waiters
  unlock_waiters-Inv =
      let asserted : (s.state == 2) ≡ true = ground (arith, two) in
      rw asserted (remove_first-Inv s.waiters refl)

  remove_first-HandedOver : (xs : List ℕ) → s.waiters ≡ xs → HandedOver s i (remove_first i xs s)
  unfolding remove_first after
  remove_first-HandedOver [] e = absurd (ground (arith, fit, ap is_empty e))
  remove_first-HandedOver (x ∷ xs) e = record {
    fiber = x;
    rest = xs;
    first = e;
    switched = first_waits x xs e;
    handed_to = after_first x xs e;
    left = refl;
    back = update_self (update s.phases x handed) i idle;
    others = λ j ni nf.
        update_ne (update s.phases x handed) i j idle ni ∙ update_ne s.phases x j handed nf;
    inner = refl;
    told = ground (arith, two);
  }

  pub unlock_waiters-HandedOver : HandedOver s i (unlock_waiters i s)
  unfolding unlock_waiters
  unlock_waiters-HandedOver =
      let asserted : (s.state == 2) ≡ true = ground (arith, two) in
      rw asserted (remove_first-HandedOver s.waiters refl)
