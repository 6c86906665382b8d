-- ===== src/Cond/Inv.antt =====
-- What holds of a condition variable in every reachable state.
use libfev.Base.{
  ℕ, ◌==◌, ◌≡◌, ◌≢◌, ◌⊎◌, inl, inr, refl, sym, ap, ◌∙◌, arith, Bool, true, false, Option, none,
  some, List, [], ◌∷◌, elem, update, update-all, update_self, update_ne, Bool-cases,
  elem-append_inv, elem-select, subst,
}
use libfev.Waiter.{WakeResult}
use libfev.WaitersQueue.{Woken, is_set, wait_leave}
use libfev.WaitersQueue.Picked.{Picked}
use libfev.WaitersQueue.Leave.{elem-wait_leave}
use libfev.Cond.{Phase, holding, wants, unlocked, waiting, System, ready, accepts, tell, takers}

-- The fiber owns the mutex.
abbrev pub owns : Phase → Bool
owns holding = true
owns wants = true
owns _ = false

abbrev pub waits : Phase → Bool
waits waiting = true
waits _ = false

abbrev pub is_inside : Phase → Bool
is_inside unlocked = true
is_inside _ = false

pub record Inv (s : System) : Type 0 where
  pub owned : (i : ℕ) → owns (s.phases i) ≡ true → s.owner ≡ some i
  pub listed : (i : ℕ) → waits (s.phases i) ≡ true → elem i s.nodes ≡ true
  pub inside : (i : ℕ) → is_inside (s.phases i) ≡ true → s.section ≡ some i

-- When fiber `i` may move to phase `p`, while it leaves the rest as `t` has it.
pub record Change (s : System) (i : ℕ) (t : System) (p : Phase) : Type 0 where
  pub owner : owns p ≡ true → t.owner ≡ some i
  pub others_own : (t.owner ≡ s.owner) ⊎ ((s.owner ≡ none) ⊎ (s.owner ≡ some i))
  pub joins : waits p ≡ true → elem i t.nodes ≡ true
  pub keeps : (j : ℕ) → i ≢ j → elem j s.nodes ≡ true → elem j t.nodes ≡ true
  pub enters : is_inside p ≡ true → t.section ≡ some i
  pub alone : (t.section ≡ s.section) ⊎ ((s.section ≡ none) ⊎ (s.section ≡ some i))

-- What names fiber `j` still names it when the change was another fiber's.
still_names :
    (old new : Option ℕ) (i j : ℕ)
    → i ≢ j
    → (new ≡ old) ⊎ ((old ≡ none) ⊎ (old ≡ some i))
    → old ≡ some j
    → new ≡ some j
still_names old new i j ne (inl e) q = e ∙ q
still_names old new i j ne (inr (inl e)) q = absurd (ground (arith, e, q))
still_names old new i j ne (inr (inr e)) q = absurd (ground (arith, ne, sym e ∙ q))

pub Change-Inv :
    (s : System) (i : ℕ) (t : System) (p : Phase)
    → Inv s
    → Change s i t p
    → Inv (record t { phases = update s.phases i p })
Change-Inv s i t p v c = record {
  owned =
      update-all (λ j q. owns q ≡ true → t.owner ≡ some j) s.phases i p
        (λ j ne o. still_names s.owner t.owner i j ne c.others_own (v.owned j o)) c.owner;
  listed =
      update-all (λ j q. waits q ≡ true → elem j t.nodes ≡ true) s.phases i p
        (λ j ne w. c.keeps j ne (v.listed j w)) c.joins;
  inside =
      update-all (λ j q. is_inside q ≡ true → t.section ≡ some j) s.phases i p
        (λ j ne w. still_names s.section t.section i j ne c.alone (v.inside j w)) c.enters;
}

-- A step that changes neither the list nor the section.
pub quiet-Inv :
    (s : System) (i : ℕ) (owner : Option ℕ) (p : Phase)
    → Inv s
    → (owns p ≡ true → owner ≡ some i)
    → (owner ≡ s.owner) ⊎ ((s.owner ≡ none) ⊎ (s.owner ≡ some i))
    → waits p ≡ false
    → is_inside p ≡ false
    → Inv (record s { owner = owner; phases = update s.phases i p })
quiet-Inv s i owner p v a b c d =
    Change-Inv s i (record s { owner = owner }) p v
      (record {
        owner = a;
        others_own = b;
        joins = λ w. absurd (ground arith);
        keeps = λ j ne e. e;
        enters = λ w. absurd (ground arith);
        alone = inl refl;
      })

pub leave-Inv :
    (s : System) (i : ℕ) (p : Phase)
    → Inv s
    → owns p ≡ false
    → waits p ≡ false
    → is_inside p ≡ false
    → Inv (record s { nodes = wait_leave i s.nodes; phases = update s.phases i p })
leave-Inv s i p v a b c =
    Change-Inv s i (record s { nodes = wait_leave i s.nodes }) p v
      (record {
        owner = λ w. absurd (ground arith);
        others_own = inl refl;
        joins = λ w. absurd (ground arith);
        keeps = λ j ne e. elem-wait_leave i j s.nodes ne e;
        enters = λ w. absurd (ground arith);
        alone = inl refl;
      })

-- Telling some fibers leaves each fiber as it was, or moves it from its wait; those that wait and are
-- among them are woken up.
pub tell-cases :
    (ks : List ℕ) (phases : ℕ → Phase) (j : ℕ)
    → ((elem j ks ≡ false) × (tell ks phases j ≡ phases j)) ⊎ (tell ks phases j ≡ ready (phases j))
unfolding tell
tell-cases [] phases j = inl (refl, refl)
tell-cases (k ∷ ks) phases j = elim (Bool-cases (k == j)) [
  | inl e ↦
      let same : k ≡ j = ground arith in
      inr (rw same (update_self (tell ks phases) j (ready (phases j))))
  | inr ne ↦
      let apart = update_ne (tell ks phases) k j (ready (phases k)) (ground arith) in
      elim (tell-cases ks phases j) [
        | inl (out, e) ↦ inl (ground (arith, out), apart ∙ e)
        | inr e ↦ inr (apart ∙ e)
      ]
]

module _ (s : System) (v : Inv s) (outcome : ℕ → WakeResult) (max_waiters : ℕ)
    (agree : (k : ℕ) → is_set (outcome k) ≡ accepts (s.phases k)) (r : Woken)
    (p : Picked outcome max_waiters s.nodes 0 r) where
  -- A fiber that waited is still on the list, or it was told.
  pub listed_or_told :
      (j : ℕ)
      → waits (s.phases j) ≡ true
      → (elem j (takers outcome r) ≡ true) ⊎ (elem j r.left ≡ true)
  listed_or_told j w =
      elim (elem-append_inv j r.deleted r.left
        (subst (λ l. elem j l ≡ true) p.split (v.listed j w))) [
          | inl a ↦
              inl (elem-select (λ k. is_set (outcome k)) j r.deleted a (ground (arith, agree j)))
          | inr b ↦ inr b
        ]

  pub told-Inv : Inv (record s { nodes = r.left; phases = tell (takers outcome r) s.phases })
  told-Inv = record {
    owned = λ j o. elim (tell-cases (takers outcome r) s.phases j) [
      | inl (_, e) ↦ v.owned j (sym (ap owns e) ∙ o)
      | inr e ↦ v.owned j (ready-owns (s.phases j) (sym (ap owns e) ∙ o))
    ];
    listed = λ j w. elim (tell-cases (takers outcome r) s.phases j) [
      | inl (out, e) ↦ elim (listed_or_told j (sym (ap waits e) ∙ w)) [
        | inl a ↦ absurd (ground (arith, a, out))
        | inr b ↦ b
      ]
      | inr e ↦ absurd (ready-waits (s.phases j) (sym (ap waits e) ∙ w))
    ];
    inside = λ j w. elim (tell-cases (takers outcome r) s.phases j) [
      | inl (_, e) ↦ v.inside j (sym (ap is_inside e) ∙ w)
      | inr e ↦ v.inside j (ready-inside (s.phases j) (sym (ap is_inside e) ∙ w))
    ];
  }
    where
      ready-owns : (q : Phase) → owns (ready q) ≡ true → owns q ≡ true
      ready-owns q e = ground arith

      ready-waits : (q : Phase) → waits (ready q) ≢ true
      ready-waits q e = ground arith

      ready-inside : (q : Phase) → is_inside (ready q) ≡ true → is_inside q ≡ true
      ready-inside q e = ground arith
