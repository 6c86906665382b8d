-- ===== src/Mutex/Moves.antt =====
-- The steps of a fiber other than a wake-up keep the invariant.
use libfev.Base.{
  ℕ, ◌==◌, ◌≡◌, ◌≢◌, ◌⊎◌, inl, inr, refl, arith, Bool, true, false, none, some, ◌||◌, [], ◌∷◌, ◌++◌,
  elem-append_left, elem-append_last, Bool-cases,
}
use libfev.Mutex.{
  Phase, idle, wants, entering, waiting, holding, in_callback, System, unlock_callback, leaves,
}
use libfev.Mutex.Inv.{owns, waits, is_inside, stores, Inv, Change}
use libfev.WaitersQueue.{wait_leave}
use libfev.WaitersQueue.Leave.{elem-wait_leave, wait_leave-empty}

module _ (s : System) (i : ℕ) (v : Inv s) where
  -- The state word stays, and so do the list and the section.
  pub same-Change :
      (p : Phase)
      → (owns p ≡ true → owns (s.phases i) ≡ true)
      → (owns (s.phases i) ≡ true → owns p ≡ true)
      → (waits p ≡ true → waits (s.phases i) ≡ true)
      → is_inside p ≡ false
      → stores p ≡ false
      → Change s i s p
  same-Change p a b w e f = record {
    owner = λ o. inl (a o);
    frees = λ z. (ground (arith, b, v.free z i), inr z);
    queue = v.queued;
    keeps = λ j ne w m. m;
    joins = λ o. v.listed i (w o);
    enters = λ o. absurd (ground arith);
    ends = λ o. absurd (ground arith);
    alone = inl (refl, refl);
  }

  bare_if_free : s.state ≢ 2 → s.nodes ≡ []
  bare_if_free ne = elim v.queued [ inl e ↦ e | inr e ↦ absurd (ne e) ]

  -- A compare-exchange that succeeds on a state that is not 2.
  pub swap-Change :
      (p : Phase) (state : ℕ)
      → s.state ≢ 2
      → ((owns (s.phases i) ≡ true) ⊎ (s.state ≡ 0))
      → (state ≡ 0 → owns p ≡ false)
      → waits p ≡ false
      → is_inside p ≡ false
      → stores p ≡ false
      → Change s i (record s { state = state }) p
  swap-Change p state ne own a w e f = record {
    owner = λ o. own;
    frees = λ z. (a z, own);
    queue = inl (bare_if_free ne);
    keeps = λ j ne w m. m;
    joins = λ o. absurd (ground arith);
    enters = λ o. absurd (ground arith);
    ends = λ o. absurd (ground arith);
    alone = inl (refl, refl);
  }

  pub recheck_free-Change :
      s.section ≡ none
      → s.state ≡ 0
      → Change s i (record s { state = 2; section = some i }) entering
  recheck_free-Change out z = record {
    owner = λ o. inr z;
    frees = λ q. absurd (omega arith);
    queue = inr refl;
    keeps = λ j ne w m. m;
    joins = λ o. absurd (ground arith);
    enters = λ o. refl;
    ends = λ o. bare_if_free (omega arith);
    alone = inr (inl out);
  }

  pub recheck_held-Change :
      s.section ≡ none → Change s i (record s { state = 2; nodes = s.nodes ++ i ∷ [] }) waiting
  recheck_held-Change out = record {
    owner = λ o. absurd (ground arith);
    frees = λ q. absurd (omega arith);
    queue = inr refl;
    keeps = λ j ne w m. elem-append_left j s.nodes (i ∷ []) m;
    joins = λ o. elem-append_last i s.nodes;
    enters = λ o. absurd (ground arith);
    ends = λ o. absurd (ground arith);
    alone = inr (inl out);
  }

  pub store_locked-Change :
      s.phases i ≡ entering → Change s i (record s { state = 1; section = none }) holding
  store_locked-Change e = record {
    owner = λ o. inl (ground arith);
    frees = λ q. absurd (omega arith);
    queue = inl (v.bare i (ground arith));
    keeps = λ j ne w m. m;
    joins = λ o. absurd (ground arith);
    enters = λ o. absurd (ground arith);
    ends = λ o. absurd (ground arith);
    alone = inr (inr (v.inside i (ground arith)));
  }

  pub leave-Change :
      (p : Phase)
      → leaves (s.phases i) ≡ true
      → s.section ≡ none
      → (p ≡ idle) ⊎ (p ≡ wants)
      → Change s i (record s { nodes = wait_leave i s.nodes }) p
  leave-Change p l out to = record {
    owner = λ o. absurd (ground arith);
    frees = λ z. (ground arith, inr z);
    queue = elim v.queued [ inl e ↦ inl (wait_leave-empty i s.nodes e) | inr e ↦ inr e ];
    keeps = λ j ne w m. elem-wait_leave i j s.nodes ne m;
    joins = λ o. absurd (ground arith);
    enters = λ o. absurd (ground arith);
    ends = λ o. absurd (ground arith);
    alone = inr (inl out);
  }

  callback_queue :
      (num : ℕ) (empty : Bool)
      → s.phases i ≡ in_callback num empty
      → (s.nodes ≡ []) ⊎ (unlock_callback s.state num empty ≡ 2)
  unfolding unlock_callback
  callback_queue num empty e = elim (Bool-cases ((num == 0) || empty)) [
    | inl t ↦ inl (v.bare i (ground arith))
    | inr f ↦ elim v.queued [ inl q ↦ inl q | inr q ↦ inr (ground arith) ]
  ]

  pub callback-Change :
      (num : ℕ) (empty : Bool)
      → s.phases i ≡ in_callback num empty
      → Change s i (record s { state = unlock_callback s.state num empty; section = none }) idle
  unfolding unlock_callback
  callback-Change num empty e = record {
    owner = λ o. absurd (ground arith);
    frees = λ z. (refl, ground arith);
    queue = callback_queue num empty e;
    keeps = λ j ne w m. m;
    joins = λ o. absurd (ground arith);
    enters = λ o. absurd (ground arith);
    ends = λ o. absurd (ground arith);
    alone = inr (inr (v.inside i (ground arith)));
  }
