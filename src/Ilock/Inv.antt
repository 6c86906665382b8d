-- ===== src/Ilock/Inv.antt =====
-- What holds of an internal lock in every reachable state: the invariant, and when a step that moves one
-- fiber keeps it.
use libfev.Base.{
  ℕ, ◌+◌, ◌==◌, ◌≡◌, ◌≢◌, ◌⊎◌, inl, inr, refl, sym, ◌∙◌, arith, if◌then◌else◌, Bool, true, false,
  none, some, ◌&&◌, not, List, [], ◌∷◌, ◌++◌, is_empty, update, update-all, Bool-cases,
}
use libfev.Ilock.{Phase, entering, appended, waiting, handed, holding, unlock_slow, fault, System}

abbrev pub owns : Phase → Bool
owns entering = true
owns handed = true
owns holding = true
owns unlock_slow = true
owns _ = false

-- The fiber holds the inner lock.
abbrev pub is_inside : Phase → Bool
is_inside entering = true
is_inside appended = true
is_inside _ = false

-- How often the fiber is on the list.
abbrev pub places : Phase → ℕ
places appended = 1
places waiting = 1
places _ = 0

-- What the state word is while a fiber in this phase owns the lock.
abbrev pub fits : Phase → (state : ℕ) → (bare : Bool) → Bool
fits entering state bare = (state == 2) && bare
fits handed state bare = if bare then state == 1 else state == 2
fits holding state bare = if bare then state == 1 else state == 2
fits unlock_slow state bare = (state == 2) && not bare
fits fault state bare = false
fits _ state bare = true

abbrev pub count : ℕ → List ℕ → ℕ
count i [] = 0
count i (x ∷ xs) = (if i == x then 1 else 0) + count i xs

pub count-append : (i : ℕ) (xs ys : List ℕ) → count i (xs ++ ys) ≡ count i xs + count i ys
count-append i [] ys = omega arith
count-append i (x ∷ xs) ys = omega (arith, count-append i xs ys)

abbrev pub One : (ℕ → Phase) → Type 0
One phases = (i j : ℕ) → owns (phases i) ≡ true → owns (phases j) ≡ true → i ≡ j

-- The lock is free, or a fiber owns it.
abbrev pub Held : System → Type 0
Held s = ((s.state ≡ 0) × (s.waiters ≡ [])) ⊎ ((o : ℕ) × (owns (s.phases o) ≡ true))

pub record Inv (s : System) : Type 0 where
  pub one : One s.phases
  pub fit : (i : ℕ) → fits (s.phases i) s.state (is_empty s.waiters) ≡ true
  pub held : Held s
  pub inside : (i : ℕ) → is_inside (s.phases i) ≡ true → s.section ≡ some i
  pub counted : (i : ℕ) → count i s.waiters ≡ places (s.phases i)

-- When fiber `i` may move to phase `p`, while it leaves the lock as `t` has it.
pub record Change (s : System) (i : ℕ) (t : System) (p : Phase) : Type 0 where
  pub owner : owns p ≡ true → (owns (s.phases i) ≡ true) ⊎ (s.state ≡ 0)
  pub fit_self : fits p t.state (is_empty t.waiters) ≡ true
  pub fit_other : (j : ℕ) → i ≢ j → fits (s.phases j) t.state (is_empty t.waiters) ≡ true
  pub still_held : Held (record t { phases = update s.phases i p })
  pub enters : is_inside p ≡ true → t.section ≡ some i
  pub alone : (t.section ≡ s.section) ⊎ ((s.section ≡ none) ⊎ (s.section ≡ some i))
  pub count_self : count i t.waiters ≡ places p
  pub count_other : (j : ℕ) → i ≢ j → count j t.waiters ≡ count j s.waiters

pub fits-free :
    (p : Phase) (state : ℕ) (bare : Bool) → owns p ≡ false → p ≢ fault → fits p state bare ≡ true
fits-free p state bare e ne = ground (arith, ne)

module _ (s : System) (i : ℕ) (v : Inv s) where
  pub not_fault : (j : ℕ) → s.phases j ≢ fault
  not_fault j e = ground (arith, e, v.fit j)

  pub nobody_if_free : s.state ≡ 0 → (j : ℕ) → owns (s.phases j) ≡ false
  nobody_if_free z j = ground (arith, z, v.fit j)

  pub others_free :
      (owns (s.phases i) ≡ true) ⊎ (s.state ≡ 0) → (j : ℕ) → i ≢ j → owns (s.phases j) ≡ false
  others_free own j ne = elim (Bool-cases (owns (s.phases j))) [
    | inr f ↦ f
    | inl t ↦ elim own [ inl o ↦ absurd (ne (v.one i j o t)) | inr z ↦ nobody_if_free z j ]
  ]

  -- Whatever the state becomes, the others fit when they do not own the lock.
  pub others_fit :
      (state : ℕ) (bare : Bool)
      → (owns (s.phases i) ≡ true) ⊎ (s.state ≡ 0)
      → (j : ℕ) → i ≢ j
      → fits (s.phases j) state bare ≡ true
  others_fit state bare own j ne =
      fits-free (s.phases j) state bare (others_free own j ne) (not_fault j)

  pub outside : s.section ≡ none → (j : ℕ) → is_inside (s.phases j) ≡ false
  outside out j = elim (Bool-cases (is_inside (s.phases j))) [
    | inr f ↦ f
    | inl t ↦ absurd (ground (arith, out, v.inside j t))
  ]

  others_outside :
      (s.section ≡ none) ⊎ (s.section ≡ some i) → (j : ℕ) → i ≢ j → is_inside (s.phases j) ≡ false
  others_outside at j ne = elim (Bool-cases (is_inside (s.phases j))) [
    | inr f ↦ f
    | inl t ↦ elim at [
      | inl e ↦ absurd (ground (arith, e, v.inside j t))
      | inr e ↦ absurd (ground (arith, ne, sym e ∙ v.inside j t))
    ]
  ]

  One-moved :
      (p : Phase)
      → (owns p ≡ true → (owns (s.phases i) ≡ true) ⊎ (s.state ≡ 0))
      → One (update s.phases i p)
  One-moved p owner = elim (Bool-cases (owns p)) [
    | inl t ↦
        let only =
          update-all (λ j q. owns q ≡ true → i ≡ j) s.phases i p
            (λ j ne o. ground (arith, others_free (owner t) j ne)) (λ _. refl) in
        λ j k a b. sym (only j a) ∙ only k b
    | inr f ↦
        let old =
          update-all (λ j q. owns q ≡ true → owns (s.phases j) ≡ true) s.phases i p (λ j ne o. o)
            (λ o. ground arith) in
        λ j k a b. v.one j k (old j a) (old k b)
  ]

  pub Change-Inv :
      (t : System) (p : Phase) → Change s i t p → Inv (record t { phases = update s.phases i p })
  Change-Inv t p c = record {
    one = One-moved p c.owner;
    fit =
        update-all (λ j q. fits q t.state (is_empty t.waiters) ≡ true) s.phases i p c.fit_other
          c.fit_self;
    held = c.still_held;
    inside =
        update-all (λ j q. is_inside q ≡ true → t.section ≡ some j) s.phases i p
          (λ j ne w. elim c.alone [
            | inl e ↦ e ∙ v.inside j w
            | inr at ↦ absurd (ground (arith, others_outside at j ne))
          ])
          c.enters;
    counted =
        update-all (λ j q. count j t.waiters ≡ places q) s.phases i p
          (λ j ne. c.count_other j ne ∙ v.counted j) c.count_self;
  }
