-- ===== src/Mutex/Inv.antt =====
-- What holds of a mutex in every reachable state: the invariant, and when the step of one fiber keeps it.
use libfev.Base.{
  ℕ, ◌==◌, ◌≡◌, ◌≢◌, ◌⊎◌, inl, inr, refl, sym, ◌∙◌, arith, Bool, true, false, none, some, ◌||◌, [],
  elem, update, update-all, Bool-cases,
}
use libfev.Mutex.{Phase, entering, waiting, holding, unlocking, in_callback, System}

-- The fiber owns the mutex.
abbrev pub owns : Phase → Bool
owns entering = true
owns holding = true
owns unlocking = true
owns (in_callback num empty) = num == 0
owns _ = false

abbrev pub waits : Phase → Bool
waits waiting = true
waits _ = false

-- The fiber is inside the critical section of the waiters queue.
abbrev pub is_inside : Phase → Bool
is_inside entering = true
is_inside (in_callback num empty) = true
is_inside _ = false

-- The fiber is about to store a state that tells that nobody waits.
abbrev pub stores : Phase → Bool
stores entering = true
stores (in_callback num empty) = (num == 0) || empty
stores _ = false

abbrev pub One : (ℕ → Phase) → Type 0
One phases = (i j : ℕ) → owns (phases i) ≡ true → owns (phases j) ≡ true → i ≡ j

pub record Inv (s : System) : Type 0 where
  pub one : One s.phases
  pub free : s.state ≡ 0 → (i : ℕ) → owns (s.phases i) ≡ false
  pub queued : (s.nodes ≡ []) ⊎ (s.state ≡ 2)
  pub listed : (i : ℕ) → waits (s.phases i) ≡ true → elem i s.nodes ≡ true
  pub inside : (i : ℕ) → is_inside (s.phases i) ≡ true → s.section ≡ some i
  pub bare : (i : ℕ) → stores (s.phases i) ≡ true → s.nodes ≡ []

-- When fiber `i` may move to phase `p`, while it leaves the mutex as `t` has it.
pub record Change (s : System) (i : ℕ) (t : System) (p : Phase) : Type 0 where
  pub owner : owns p ≡ true → (owns (s.phases i) ≡ true) ⊎ (s.state ≡ 0)
  pub frees : t.state ≡ 0 → (owns p ≡ false) × ((owns (s.phases i) ≡ true) ⊎ (s.state ≡ 0))
  pub queue : (t.nodes ≡ []) ⊎ (t.state ≡ 2)
  pub keeps :
      (j : ℕ) → i ≢ j → waits (s.phases j) ≡ true → elem j s.nodes ≡ true → elem j t.nodes ≡ true
  pub joins : waits p ≡ true → elem i t.nodes ≡ true
  pub enters : is_inside p ≡ true → t.section ≡ some i
  pub ends : stores p ≡ true → t.nodes ≡ []
  pub alone :
      ((t.section ≡ s.section) × (t.nodes ≡ s.nodes)) ⊎ ((s.section ≡ none) ⊎ (s.section ≡ some i))

some-inj : {a b : ℕ} → some a ≡ some b → a ≡ b
some-inj e = ground arith

pub others_free :
    (s : System) (i : ℕ)
    → Inv s
    → (owns (s.phases i) ≡ true) ⊎ (s.state ≡ 0)
    → (j : ℕ) → i ≢ j
    → owns (s.phases j) ≡ false
others_free s i v own j ne = elim (Bool-cases (owns (s.phases j))) [
  | inr f ↦ f
  | inl t ↦ elim own [ inl o ↦ absurd (ne (v.one i j o t)) | inr z ↦ v.free z j ]
]

pub others_outside :
    (s : System) (i : ℕ)
    → Inv s
    → (s.section ≡ none) ⊎ (s.section ≡ some i)
    → (j : ℕ) → i ≢ j
    → is_inside (s.phases j) ≡ false
others_outside s i v at j ne = elim (Bool-cases (is_inside (s.phases j))) [
  | inr f ↦ f
  | inl t ↦ elim at [
    | inl e ↦ absurd (ground (arith, e, v.inside j t))
    | inr e ↦ absurd (ne (some-inj (sym e ∙ v.inside j t)))
  ]
]

pub stores-inside : (p : Phase) → stores p ≡ true → is_inside p ≡ true
stores-inside p e = ground arith

One-moved :
    (s : System) (i : ℕ) (p : Phase)
    → Inv s
    → (owns p ≡ true → (owns (s.phases i) ≡ true) ⊎ (s.state ≡ 0))
    → One (update s.phases i p)
One-moved s i p v owner = elim (Bool-cases (owns p)) [
  | inl t ↦
      let only =
        update-all (λ j q. owns q ≡ true → i ≡ j) s.phases i p
          (λ j ne o. ground (arith, others_free s i v (owner t) j ne)) (λ _. refl) in
      λ j k a b. sym (only j a) ∙ only k b
  | inr f ↦
      let old =
        update-all (λ j q. owns q ≡ true → owns (s.phases j) ≡ true) s.phases i p (λ j ne o. o)
          (λ o. ground arith) in
      λ j k a b. v.one j k (old j a) (old k b)
]

pub Change-Inv :
    (s : System) (i : ℕ) (t : System) (p : Phase)
    → Inv s
    → Change s i t p
    → Inv (record t { phases = update s.phases i p })
Change-Inv s i t p v c = record {
  one = One-moved s i p v c.owner;
  free = λ z.
      update-all (λ j q. owns q ≡ false) s.phases i p (others_free s i v (c.frees z).1)
        (c.frees z).0;
  queued = c.queue;
  listed =
      update-all (λ j q. waits q ≡ true → elem j t.nodes ≡ true) s.phases i p
        (λ j ne w. c.keeps j ne w (v.listed j w)) c.joins;
  inside =
      update-all (λ j q. is_inside q ≡ true → t.section ≡ some j) s.phases i p
        (λ j ne w. elim c.alone [
          | inl (e, _) ↦ e ∙ v.inside j w
          | inr at ↦ absurd (ground (arith, others_outside s i v at j ne))
        ])
        c.enters;
  bare =
      update-all (λ j q. stores q ≡ true → t.nodes ≡ []) s.phases i p
        (λ j ne w. elim c.alone [
          | inl (_, e) ↦ e ∙ v.bare j w
          | inr at ↦
              absurd (ground (arith, others_outside s i v at j ne, stores-inside (s.phases j) w))
        ])
        c.ends;
}
