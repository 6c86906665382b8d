-- ===== src/Sem/Permits.antt =====
-- What a post does with its permit, and that no fiber sleeps while there are permits.
use libfev.Base.{
  ℕ, zero, suc, ◌+◌, ◌≤◌, ◌≡◌, ◌≢◌, ◌⊎◌, Bool-cases, subst, inl, inr, refl, sym, ap, ◌∙◌, arith,
  Bool, true, false, List, [], ◌∷◌, ◌++◌, ℤ, pos, negsuc, elem, select, length, is_empty,
  elem-append_left, elem-append_last, elem-append_inv, elem-select, update, update-all, update_self,
  update_ne,
}
use libfev.Waiter.{WakeResult}
use libfev.WaitersQueue.{Woken, is_set, wait_enter, wait_leave}
use libfev.WaitersQueue.Picked.{Picked, wake_loop_lem}
use libfev.WaitersQueue.Leave.{elem-wait_leave, wait_leave-empty}
use libfev.Sem.{
  Phase, idle, waiting, expired, no_timer, System, wait_recheck, succ, post_callback, accepts,
  int32_max, ready, tell, after_wait, after_post, Step, Reach, initial, later,
}

abbrev pub is_pos : ℤ → Bool
is_pos (pos (suc n)) = true
is_pos _ = false

abbrev waits : Phase → Bool
waits waiting = true
waits _ = false

record Inv (start : ℤ) (s : System) : Type 0 where
  pub listed : (i : ℕ) → waits (s.phases i) ≡ true → elem i s.nodes ≡ true
  pub queued : (s.nodes ≡ []) ⊎ (is_pos s.value ≡ false)

module _ {start : ℤ} (s : System) (v : Inv start s) where
  quiet-Inv :
      (i : ℕ) (p : Phase) → waits p ≡ false → Inv start (record s { phases = update s.phases i p })
  quiet-Inv i p e = record {
    listed =
        update-all (λ j q. waits q ≡ true → elem j s.nodes ≡ true) s.phases i p
          (λ j ne w. v.listed j w) (λ w. absurd (ground arith));
    queued = v.queued;
  }

  leave-Inv :
      (i : ℕ)
      → Inv start (record s { nodes = wait_leave i s.nodes; phases = update s.phases i idle })
  leave-Inv i = record {
    listed =
        update-all (λ j q. waits q ≡ true → elem j (wait_leave i s.nodes) ≡ true) s.phases i idle
          (λ j ne w. elem-wait_leave i j s.nodes ne (v.listed j w)) (λ w. absurd (ground arith));
    queued = elim v.queued [ inl e ↦ inl (wait_leave-empty i s.nodes e) | inr e ↦ inr e ];
  }

  sleep-Inv :
      (i : ℕ)
      → is_pos s.value ≡ false
      → Inv start (record s { nodes = s.nodes ++ i ∷ []; phases = update s.phases i waiting })
  sleep-Inv i e = record {
    listed =
        update-all (λ j q. waits q ≡ true → elem j (s.nodes ++ i ∷ []) ≡ true) s.phases i waiting
          (λ j ne w. elem-append_left j s.nodes (i ∷ []) (v.listed j w))
          (λ w. elem-append_last i s.nodes);
    queued = inr e;
  }

  take-Inv :
      (i n : ℕ)
      → s.value ≡ pos (suc n)
      → Inv start (record s { value = pos n; phases = update s.phases i idle })
  take-Inv i n e =
      let empty : s.nodes ≡ [] = elim v.queued [
        | inl q ↦ q
        | inr q ↦ absurd (ground (arith, e, q))
      ] in
      record {
        listed =
            update-all (λ j q. waits q ≡ true → elem j s.nodes ≡ true) s.phases i idle
              (λ j ne w. v.listed j w) (λ w. absurd (ground arith));
        queued = inl empty;
      }

wait-Inv : {start : ℤ} (s : System) (i : ℕ) → Inv start s → Inv start (after_wait i s)
unfolding after_wait wait_enter wait_recheck
wait-Inv {start} s i v = go s.value refl
  where
    go : (u : ℤ) → s.value ≡ u → Inv start (after_wait i s)
    go (pos (suc n)) e = rw e (take-Inv s v i n e)
    go (pos zero) e = rw e (rw (← e) (sleep-Inv s v i (ground arith)))
    go (negsuc n) e = rw e (rw (← e) (sleep-Inv s v i (ground arith)))

append-empty : (xs ys : List ℕ) → [] ≡ xs ++ ys → ys ≡ []
append-empty [] ys e = sym e
append-empty (x ∷ xs) ys e = absurd (ground arith)

ready-waits : (p : Phase) → waits (ready p) ≡ false
ready-waits p = ground arith

module _ {start : ℤ} (s : System) (v : Inv start s) (outcome : ℕ → WakeResult)
    (agree : (k : ℕ) → is_set (outcome k) ≡ accepts (s.phases k)) (r : Woken)
    (p : Picked outcome 1 s.nodes 0 r) where
  takers : List ℕ
  takers = select (λ k. is_set (outcome k)) r.deleted

  still_listed :
      (j : ℕ) → waits (s.phases j) ≡ true → (elem j takers ≡ true) ⊎ (elem j r.left ≡ true)
  unfolding takers
  still_listed j w = elim (elem-append_inv j r.deleted r.left (rw p.split at (v.listed j w))) [
    | inl a ↦ inl (elem-select (λ k. is_set (outcome k)) j r.deleted a (ground (arith, agree j)))
    | inr b ↦ inr b
  ]

  left_queue : (r.left ≡ []) ⊎ (is_pos s.value ≡ false)
  left_queue = elim v.queued [
    | inl e ↦ inl (append-empty r.deleted r.left (sym e ∙ p.split))
    | inr e ↦ inr e
  ]

  posted : List ℕ → System
  posted ks = record {
    value = post_callback s.value r.num_woken (is_empty r.left);
    nodes = r.left;
    phases = tell ks s.phases;
  }

  post_none : takers ≡ [] → Inv start (posted [])
  unfolding posted post_callback tell takers
  post_none e =
      let z : r.num_woken ≡ 0 = p.counted ∙ ap (λ l. 0 + length l) e in
      record {
        listed =
            λ j w. elim (still_listed j w) [ inl a ↦ absurd (ground (arith, a, e)) | inr b ↦ b ];
        queued = inl (elim p.greedy [ inl l ↦ l | inr l ↦ absurd (omega (arith, l, z)) ]);
      }

  post_one : (k : ℕ) → takers ≡ k ∷ [] → Inv start (posted (k ∷ []))
  unfolding posted post_callback tell takers
  post_one k e =
      let z : r.num_woken ≡ 1 = p.counted ∙ ap (λ l. 0 + length l) e in
      record {
        listed =
            update-all (λ j q. waits q ≡ true → elem j r.left ≡ true) s.phases k
              (ready (s.phases k))
              (λ j ne w. elim (still_listed j w) [
                | inl a ↦ absurd (ground (arith, ne, rw e at a))
                | inr b ↦ b
              ])
              (λ w. absurd (ground (arith, ready-waits (s.phases k))));
        queued = rw z left_queue;
      }

  by_takers : (ks : List ℕ) → takers ≡ ks → length ks ≤ 1 → Inv start (posted ks)
  by_takers [] e le = post_none e
  by_takers (k ∷ []) e le = post_one k e
  by_takers (k ∷ l ∷ ks) e le = absurd (omega arith)

  posted-Inv : Inv start (posted takers)
  unfolding takers
  posted-Inv = by_takers takers refl (omega (arith, p.counted, p.bounded (omega arith)))

Step-Inv : {start : ℤ} {s t : System} → Step s t → Inv start s → Inv start t
unfolding after_post posted takers
Step-Inv {s = s} (Step.wait i e) v = wait-Inv s i v
Step-Inv {s = s} (Step.expire i e) v = quiet-Inv s v i expired refl
Step-Inv {s = s} (Step.timer_fails i e) v = quiet-Inv s v i no_timer refl
Step-Inv {s = s} (Step.leave i l) v = leave-Inv s v i
Step-Inv {s = s} (Step.post outcome agree small) v =
    posted-Inv s v outcome agree _ (wake_loop_lem outcome 1 s.nodes 0)

Reach-Inv : {start : ℤ} {s : System} → Reach start s → Inv start s
Reach-Inv initial = record { listed = λ i w. absurd (ground arith); queued = inl refl }
Reach-Inv (later r step) = Step-Inv step (Reach-Inv r)

select_one :
    (test : ℕ → Bool) (xs : List ℕ) (k : ℕ)
    → select test xs ≡ k ∷ []
    → (test k ≡ true) × (elem k xs ≡ true)
select_one test [] k e = absurd (cc e)
select_one test (x ∷ xs) k e = elim (Bool-cases (test x)) [
  | inl t ↦
      let q : x ∷ select test xs ≡ k ∷ [] = rw t at e in
      let same : x ≡ k = ground (arith, q) in
      (subst (λ y. test y ≡ true) same t, ground (arith, same))
  | inr f ↦ let (a, b) = select_one test xs k (rw f at e) in (a, ground (arith, b))
]

-- What a post does with its permit.
pub data Posted (s t : System) : Type 0 where
  kept :
      t.value ≡ succ s.value
      → ((j : ℕ) → t.phases j ≡ s.phases j)
      → ((j : ℕ) → elem j s.nodes ≡ true → accepts (s.phases j) ≡ false)
      → Posted s t
  handed :
      (k : ℕ)
      → t.value ≡ s.value
      → elem k s.nodes ≡ true
      → accepts (s.phases k) ≡ true
      → t.phases k ≡ ready (s.phases k)
      → ((j : ℕ) → k ≢ j → t.phases j ≡ s.phases j)
      → Posted s t

module _ (s : System) (outcome : ℕ → WakeResult)
    (agree : (k : ℕ) → is_set (outcome k) ≡ accepts (s.phases k)) (r : Woken)
    (p : Picked outcome 1 s.nodes 0 r) where
  nobody_accepts :
      select (λ k. is_set (outcome k)) r.deleted ≡ []
      → (j : ℕ) → elem j s.nodes ≡ true
      → accepts (s.phases j) ≡ false
  nobody_accepts e j m =
      let z : r.num_woken ≡ 0 = p.counted ∙ ap (λ l. 0 + length l) e in
      let bare : r.left ≡ [] = elim p.greedy [ inl l ↦ l | inr l ↦ absurd (omega (arith, l, z)) ] in
      elim (elem-append_inv j r.deleted r.left (rw p.split at m)) [
        | inl a ↦ elim (Bool-cases (is_set (outcome j))) [
          | inl t ↦
              let w = elem-select (λ k. is_set (outcome k)) j r.deleted a t in
              absurd (ground (arith, w, ap (elem j) e))
          | inr f ↦ sym (agree j) ∙ f
        ]
        | inr b ↦ absurd (ground (arith, b, ap (elem j) bare))
      ]

  by_woken :
      (ks : List ℕ)
      → select (λ k. is_set (outcome k)) r.deleted ≡ ks
      → length ks ≤ 1
      → Posted s (record {
        value = post_callback s.value r.num_woken (is_empty r.left);
        nodes = r.left;
        phases = tell ks s.phases;
      })
  unfolding post_callback tell
  by_woken [] e le =
      let z : r.num_woken ≡ 0 = p.counted ∙ ap (λ l. 0 + length l) e in
      kept (rw z refl) (λ j. refl) (nobody_accepts e)
  by_woken (k ∷ []) e le =
      let z : r.num_woken ≡ 1 = p.counted ∙ ap (λ l. 0 + length l) e in
      let (set, m) = select_one (λ i. is_set (outcome i)) r.deleted k e in
      handed k (rw z refl) (rw p.split (elem-append_left k r.deleted r.left m))
        (sym (agree k) ∙ set) (update_self s.phases k (ready (s.phases k)))
        (λ j ne. update_ne s.phases k j (ready (s.phases k)) ne)
  by_woken (k ∷ l ∷ ks) e le = absurd (omega arith)

-- A post below the greatest value makes exactly one permit available. Either the value goes up by one, no fiber is told anything, and
-- no fiber on the list could have taken the permit; or the value stays, and exactly one fiber of the list
-- is told that it is ready. That fiber returns 0 from its wait, but for one whose timer could not be
-- allocated: it returns ENOMEM all the same, and the permit is lost with it.
pub post_lem :
    (s : System) (outcome : ℕ → WakeResult)
    → ((k : ℕ) → is_set (outcome k) ≡ accepts (s.phases k))
    → s.value ≢ pos int32_max
    → Posted s (after_post outcome s)
unfolding after_post
post_lem s outcome agree small =
    let p = wake_loop_lem outcome 1 s.nodes 0 in
    by_woken s outcome agree _ p _ refl (omega (arith, p.counted, p.bounded (omega arith)))

-- In every reachable state in which a fiber sleeps on the list, there is no permit, and the fiber is on
-- the list that the next post goes through.
pub sleepers_lack :
    {start : ℤ} {s : System}
    → Reach start s
    → (i : ℕ) → s.phases i ≡ waiting
    → (is_pos s.value ≡ false) × (elem i s.nodes ≡ true)
sleepers_lack {s = s} r i e =
    let v = Reach-Inv r in
    let m = v.listed i (ground arith) in
    (elim v.queued [ inl q ↦ absurd (ground (arith, m, q)) | inr q ↦ q ], m)
