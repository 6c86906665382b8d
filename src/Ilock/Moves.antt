-- ===== src/Ilock/Moves.antt =====
-- The steps of an internal lock keep the invariant.
use libfev.Base.{
  ℕ, ◌==◌, ◌≡◌, ◌≢◌, inl, inr, refl, sym, ap, ◌∙◌, arith, if◌then◌else◌, true, false, none, some,
  List, [], ◌∷◌, ◌++◌, is_empty, update, update-all, update_self, Bool-cases, subst,
}
use libfev.Ilock.{
  Phase, idle, lock_slow, entering, appended, waiting, handed, holding, unlock_slow, System,
  unlock_fast, resumed,
}
use libfev.Ilock.Inv.{
  owns, is_inside, places, fits, count-append, Held, Inv, others_fit, outside, nobody_if_free,
  Change-Inv,
}

empty-of : (xs : List ℕ) → is_empty xs ≡ true → xs ≡ []
empty-of [] e = refl
empty-of (x ∷ xs) e = absurd (ground arith)

append-bare : (xs : List ℕ) (x : ℕ) → is_empty (xs ++ x ∷ []) ≡ false
append-bare [] x = refl
append-bare (y ∷ xs) x = refl

module _ (s : System) (i : ℕ) (v : Inv s) where
  owned_by :
      (t : System) (p : Phase) → owns p ≡ true → Held (record t { phases = update s.phases i p })
  owned_by t p e = inr (i, rw (update_self s.phases i p) e)

  -- The lock as it was: `i` neither gets it nor loses it.
  still :
      (t : System) (p : Phase)
      → t.state ≡ s.state
      → t.waiters ≡ s.waiters
      → owns (s.phases i) ≡ owns p
      → Held (record t { phases = update s.phases i p })
  still t p es ew e = elim v.held [
    | inl (z, w) ↦ inl (es ∙ z, ew ∙ w)
    | inr (o, w) ↦ inr (
      o,
      update-all (λ j q. owns (s.phases j) ≡ true → owns q ≡ true) s.phases i p (λ j ne o. o)
          (λ o. sym e ∙ o) o w,
    )
  ]

  bare_if_free : s.state ≡ 0 → s.waiters ≡ []
  bare_if_free z = elim v.held [
    | inl (_, w) ↦ w
    | inr (o, w) ↦ absurd (ground (arith, w, nobody_if_free s i v z o))
  ]

  pub lock-Inv :
      s.phases i ≡ idle
      → s.state ≡ 0
      → Inv (record s { state = 1; phases = update s.phases i holding })
  lock-Inv e z =
      let w = bare_if_free z in
      Change-Inv s i v (record s { state = 1 }) holding
        (record {
          owner = λ o. inr z;
          fit_self = rw w refl;
          fit_other = others_fit s i v 1 (is_empty s.waiters) (inr z);
          still_held = owned_by (record s { state = 1 }) holding refl;
          enters = λ o. absurd (ground arith);
          alone = inl refl;
          count_self = v.counted i ∙ ap places e;
          count_other = λ j ne. refl;
        })

  -- A step that touches nothing but the phase of `i`.
  pub quiet-Inv :
      (p : Phase)
      → owns (s.phases i) ≡ owns p
      → fits p s.state (is_empty s.waiters) ≡ true
      → places (s.phases i) ≡ places p
      → is_inside p ≡ false
      → Inv (record s { phases = update s.phases i p })
  quiet-Inv p a b c d = Change-Inv s i v s p (record {
    owner = λ o. inl (a ∙ o);
    fit_self = b;
    fit_other = λ j ne. v.fit j;
    still_held = still s p refl refl a;
    enters = λ o. absurd (ground arith);
    alone = inl refl;
    count_self = v.counted i ∙ c;
    count_other = λ j ne. refl;
  })

  pub exchange_free-Inv :
      s.phases i ≡ lock_slow
      → s.section ≡ none
      → s.state ≡ 0
      → Inv (record s { state = 2; section = some i; phases = update s.phases i entering })
  exchange_free-Inv e out z =
      let w = bare_if_free z in
      let t = record s { state = 2; section = some i } in
      Change-Inv s i v t entering (record {
        owner = λ o. inr z;
        fit_self = rw w refl;
        fit_other = others_fit s i v 2 (is_empty s.waiters) (inr z);
        still_held = owned_by t entering refl;
        enters = λ o. refl;
        alone = inr (inl out);
        count_self = v.counted i ∙ ap places e;
        count_other = λ j ne. refl;
      })

  pub store_locked-Inv :
      s.phases i ≡ entering
      → Inv (record s { state = 1; section = none; phases = update s.phases i holding })
  store_locked-Inv e =
      let t = record s { state = 1; section = none } in
      Change-Inv s i v t holding (record {
        owner = λ o. inl (ap owns e);
        fit_self = ground (arith, e, v.fit i);
        fit_other = others_fit s i v 1 (is_empty s.waiters) (inl (ap owns e));
        still_held = owned_by t holding refl;
        enters = λ o. absurd (ground arith);
        alone = inr (inr (v.inside i (ap is_inside e)));
        count_self = v.counted i ∙ ap places e;
        count_other = λ j ne. refl;
      })

  longer-fits :
      (p : Phase)
      → is_inside p ≡ false
      → fits p s.state (is_empty s.waiters) ≡ true
      → fits p 2 false ≡ true
  longer-fits p out f = ground (arith, f)

  pub exchange_held-Inv :
      s.phases i ≡ lock_slow
      → s.section ≡ none
      → s.state ≢ 0
      → Inv (record s {
        state = 2;
        waiters = s.waiters ++ i ∷ [];
        section = some i;
        phases = update s.phases i appended;
      })
  exchange_held-Inv e out nz =
      let t = record s { state = 2; waiters = s.waiters ++ i ∷ []; section = some i } in
      Change-Inv s i v t appended (record {
        owner = λ o. absurd (ground arith);
        fit_self = refl;
        fit_other = λ j ne.
            rw (append-bare s.waiters i) (longer-fits (s.phases j) (outside s i v out j) (v.fit j));
        still_held = elim v.held [
          | inl (z, w) ↦ absurd (nz z)
          | inr (o, w) ↦ inr (
            o,
            update-all (λ j q. owns (s.phases j) ≡ true → owns q ≡ true) s.phases i appended
                (λ j ne o. o) (λ o. sym (ap owns e) ∙ o) o w,
          )
        ];
        enters = λ o. refl;
        alone = inr (inl out);
        count_self = ground (arith, count-append i s.waiters (i ∷ []), v.counted i, ap places e);
        count_other = λ j ne. ground (arith, count-append j s.waiters (i ∷ []));
      })

  pub lock_post-Inv :
      s.phases i ≡ appended → Inv (record s { section = none; phases = update s.phases i waiting })
  lock_post-Inv e =
      let t = record s { section = none } in
      Change-Inv s i v t waiting (record {
        owner = λ o. absurd (ground arith);
        fit_self = refl;
        fit_other = λ j ne. v.fit j;
        still_held = still t waiting refl refl (ap owns e);
        enters = λ o. absurd (ground arith);
        alone = inr (inr (v.inside i (ap is_inside e)));
        count_self = v.counted i ∙ ap places e;
        count_other = λ j ne. refl;
      })

  pub unlock-Inv :
      s.phases i ≡ holding
      → Inv (record s {
        state = (unlock_fast s.state).1;
        phases = update s.phases i (if (unlock_fast s.state).0 then idle else unlock_slow);
      })
  unfolding unlock_fast
  unlock-Inv e =
      let f : fits holding s.state (is_empty s.waiters) ≡ true =
        subst (λ p. fits p s.state (is_empty s.waiters) ≡ true) e (v.fit i) in
      elim (Bool-cases (s.state == 1)) [
        | inl one ↦ rw one (
            let w = empty-of s.waiters (ground (arith, f)) in
            Change-Inv s i v (record s { state = 0 }) idle
              (record {
                owner = λ o. absurd (ground arith);
                fit_self = refl;
                fit_other = others_fit s i v 0 (is_empty s.waiters) (inl (ap owns e));
                still_held = inl (refl, w);
                enters = λ o. absurd (ground arith);
                alone = inl refl;
                count_self = v.counted i ∙ ap places e;
                count_other = λ j ne. refl;
              }))
        | inr two ↦
            rw two (quiet-Inv unlock_slow (ap owns e) (ground (arith, f)) (ap places e) refl)
      ]

  pub resume-Inv :
      s.phases i ≡ handed → Inv (record s { phases = update s.phases i (resumed s.state) })
  unfolding resumed
  resume-Inv e =
      let f : fits handed s.state (is_empty s.waiters) ≡ true =
        subst (λ p. fits p s.state (is_empty s.waiters) ≡ true) e (v.fit i) in
      elim (Bool-cases (s.state == 0)) [
        | inl z ↦ absurd (ground (arith, f))
        | inr nz ↦ rw nz (quiet-Inv holding (ap owns e) f (ap places e) refl)
      ]
