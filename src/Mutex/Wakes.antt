-- ===== src/Mutex/Wakes.antt =====
-- The wake-up in `fev_mutex_unlock` keeps the invariant: it hands the mutex over to at most one fiber.
use libfev.Base.{
  ℕ, ◌+◌, ◌≤◌, ◌≡◌, ◌≢◌, ◌⊎◌, inl, inr, refl, sym, ap, ◌∙◌, arith, true, none, some, List, [], ◌∷◌,
  ◌++◌, elem, select, length, is_empty, elem-append_inv, elem-select, select-inv, update,
  update-all,
}
use libfev.Waiter.{WakeResult}
use libfev.WaitersQueue.{Woken, is_set}
use libfev.WaitersQueue.Picked.{Picked, wake_loop_lem}
use libfev.Mutex.{Phase, unlocking, in_callback, System, ready, accepts, hand_over, after_wake}
use libfev.Mutex.Inv.{
  owns, waits, is_inside, stores, Inv, Change-Inv, others_free, others_outside, stores-inside,
}

-- The nodes that were taken and accepted the reason.
abbrev takers : (ℕ → WakeResult) → Woken → List ℕ
takers outcome r = select (λ k. is_set (outcome k)) r.deleted

is_empty-inv : (xs : List ℕ) → is_empty xs ≡ true → xs ≡ []
is_empty-inv [] e = refl
is_empty-inv (x ∷ xs) e = absurd (ground arith)

append-empty : (xs ys : List ℕ) → [] ≡ xs ++ ys → ys ≡ []
append-empty [] ys e = sym e
append-empty (x ∷ xs) ys e = absurd (ground arith)

module _ (s : System) (i : ℕ) (outcome : ℕ → WakeResult) (v : Inv s)
    (unlocks : s.phases i ≡ unlocking) (out : s.section ≡ none)
    (agree : (k : ℕ) → is_set (outcome k) ≡ accepts (s.phases k)) (r : Woken)
    (p : Picked outcome 1 s.nodes 0 r) where
  owner : owns (s.phases i) ≡ true
  owner = ground (arith, unlocks)

  held : s.state ≢ 0
  held z = ground (arith, v.free z i, owner)

  -- A waiting fiber was taken or is still on the list.
  listed :
      (j : ℕ)
      → waits (s.phases j) ≡ true
      → (elem j (takers outcome r) ≡ true) ⊎ (elem j r.left ≡ true)
  listed j w = elim (elem-append_inv j r.deleted r.left (subst_elem (v.listed j w))) [
    | inl a ↦ inl (elem-select (λ k. is_set (outcome k)) j r.deleted a (ground (arith, agree j)))
    | inr b ↦ inr b
  ]
    where
      subst_elem : elem j s.nodes ≡ true → elem j (r.deleted ++ r.left) ≡ true
      subst_elem e = rw (← p.split) e

  left_queue : (r.left ≡ []) ⊎ (s.state ≡ 2)
  left_queue = elim v.queued [
    | inl e ↦ inl (append-empty r.deleted r.left (sym e ∙ p.split))
    | inr e ↦ inr e
  ]

  none_taken :
      takers outcome r ≡ []
      → Inv (record {
        state = s.state;
        nodes = r.left;
        section = some i;
        phases = update s.phases i (in_callback r.num_woken (is_empty r.left));
      })
  none_taken e =
      let zero_woken : r.num_woken ≡ 0 = p.counted ∙ ap (λ l. 0 + length l) e in
      let nothing_left : r.left ≡ [] = elim p.greedy [
        | inl l ↦ l
        | inr l ↦ absurd (omega (arith, l, zero_woken))
      ] in
      Change-Inv s i (record s { nodes = r.left; section = some i })
        (in_callback r.num_woken (is_empty r.left)) v
        (record {
          owner = λ o. inl owner;
          frees = λ z. absurd (held z);
          queue = left_queue;
          keeps =
              λ j ne w m. elim (listed j w) [ inl a ↦ absurd (ground (arith, a, e)) | inr b ↦ b ];
          joins = λ o. absurd (ground arith);
          enters = λ o. refl;
          ends = λ o. nothing_left;
          alone = inr (inl out);
        })

  -- After fiber `k` has been told that it is ready.
  told : ℕ → ℕ → Phase
  told k = update s.phases k (ready (s.phases k))

  module _ (k : ℕ) (e : takers outcome r ≡ k ∷ []) where
    one_woken : r.num_woken ≡ 1
    one_woken = p.counted ∙ ap (λ l. 0 + length l) e

    accepted : accepts (s.phases k) ≡ true
    accepted =
        sym (agree k) ∙ select-inv (λ j. is_set (outcome j)) k r.deleted (rw e (ground arith))

    after : ℕ → Phase
    after = update (told k) i (in_callback r.num_woken (is_empty r.left))

    after-all :
        (P : ℕ → Phase → Type 0)
        → ((j : ℕ) → i ≢ j → k ≢ j → P j (s.phases j))
        → P k (ready (s.phases k))
        → P i (in_callback r.num_woken (is_empty r.left))
        → (j : ℕ) → P j (after j)
    unfolding after told
    after-all P others at_k at_i =
        update-all P (told k) i (in_callback r.num_woken (is_empty r.left))
          (λ j ne.
            update-all (λ j q. i ≢ j → P j q) s.phases k (ready (s.phases k))
              (λ j nk ni. others j ni nk) (λ ni. at_k) j ne)
          at_i

    only : (j : ℕ) → owns (after j) ≡ true → k ≡ j
    only =
        after-all (λ j q. owns q ≡ true → k ≡ j)
          (λ j ne nk o. absurd (ground (arith, o, others_free s i v (inl owner) j ne))) (λ o. refl)
          (λ o. absurd (ground (arith, one_woken)))

    one_taken : Inv (record { state = s.state; nodes = r.left; section = some i; phases = after })
    one_taken = record {
      one = λ a b p q. sym (only a p) ∙ only b q;
      free = λ z. absurd (held z);
      queued = left_queue;
      listed =
          after-all (λ j q. waits q ≡ true → elem j r.left ≡ true)
            (λ j ne nk w. elim (listed j w) [
              | inl a ↦ absurd (ground (arith, nk, rw e at a))
              | inr b ↦ b
            ])
            (λ w. absurd (ground (arith, accepted))) (λ w. absurd (ground arith));
      inside =
          after-all (λ j q. is_inside q ≡ true → some i ≡ some j)
            (λ j ne nk w. absurd (ground (arith, w, others_outside s i v (inl out) j ne)))
            (λ w. absurd (ground (arith, accepted))) (λ w. refl);
      bare =
          after-all (λ j q. stores q ≡ true → r.left ≡ [])
            (λ j ne nk w.
              absurd
                (ground (arith, stores-inside (s.phases j) w, others_outside s i v (inl out) j ne)))
            (λ w. absurd (ground (arith, accepted)))
            (λ w. is_empty-inv r.left (ground (arith, one_woken)));
    }

  by_takers :
      (ks : List ℕ)
      → takers outcome r ≡ ks
      → length ks ≤ 1
      → Inv (record {
        state = s.state;
        nodes = r.left;
        section = some i;
        phases = update (hand_over ks s.phases) i (in_callback r.num_woken (is_empty r.left));
      })
  unfolding hand_over after told
  by_takers [] e le = none_taken e
  by_takers (k ∷ []) e le = one_taken k e
  by_takers (k ∷ l ∷ ks) e le = absurd (omega arith)

  pub woken-Inv : Inv (record {
    state = s.state;
    nodes = r.left;
    section = some i;
    phases =
        update
          (hand_over (takers outcome r) s.phases)
          i
          (in_callback r.num_woken (is_empty r.left));
  })
  woken-Inv = by_takers (takers outcome r) refl (omega (arith, p.counted, p.bounded (omega arith)))

pub wake-Inv :
    (s : System) (i : ℕ) (outcome : ℕ → WakeResult)
    → Inv s
    → s.phases i ≡ unlocking
    → s.section ≡ none
    → ((k : ℕ) → is_set (outcome k) ≡ accepts (s.phases k))
    → Inv (after_wake i outcome s)
unfolding after_wake
wake-Inv s i outcome v unlocks out agree =
    woken-Inv s i outcome v unlocks out agree _ (wake_loop_lem outcome 1 s.nodes 0)
