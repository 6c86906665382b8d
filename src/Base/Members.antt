-- ===== src/Base/Members.antt =====
-- Membership in lists of numbers, by computation.
use Prim.Native.Nat.{ℕ}
use mathlib.Core.Path.{◌≡◌}
use mathlib.Core.Logic.{◌⊎◌, inl, inr}
use mathlib.Core.Bool.{Bool, true}
use mathlib.Core.List.{List, [], ◌∷◌, ◌++◌}
use native.Mathlib.Omega.{arith}
use libfev.Base.Tests.{◌==◌, Bool-cases}
use libfev.Base.Lists.{elem, select}

pub elem-append_left : (j : ℕ) (xs ys : List ℕ) → elem j xs ≡ true → elem j (xs ++ ys) ≡ true
elem-append_left j [] ys e = absurd (ground arith)
elem-append_left j (x ∷ xs) ys e = ground (arith, elem-append_left j xs ys)

pub elem-append_last : (j : ℕ) (xs : List ℕ) → elem j (xs ++ j ∷ []) ≡ true
elem-append_last j [] = ground arith
elem-append_last j (x ∷ xs) = ground (arith, elem-append_last j xs)

pub elem-append_inv :
    (j : ℕ) (xs ys : List ℕ) → elem j (xs ++ ys) ≡ true → (elem j xs ≡ true) ⊎ (elem j ys ≡ true)
elem-append_inv j [] ys e = inr e
elem-append_inv j (x ∷ xs) ys e = elim (Bool-cases (j == x)) [
  | inl hit ↦ inl (ground arith)
  | inr miss ↦ elim (elem-append_inv j xs ys (ground arith)) [
    | inl a ↦ inl (ground arith)
    | inr b ↦ inr b
  ]
]

pub elem-select :
    (test : ℕ → Bool) (j : ℕ) (xs : List ℕ)
    → elem j xs ≡ true
    → test j ≡ true
    → elem j (select test xs) ≡ true
elem-select test j [] e t = absurd (ground arith)
elem-select test j (x ∷ xs) e t = ground (arith, elem-select test j xs)

pub select-inv :
    (test : ℕ → Bool) (j : ℕ) (xs : List ℕ) → elem j (select test xs) ≡ true → test j ≡ true
select-inv test j [] e = absurd (ground arith)
select-inv test j (x ∷ xs) e = ground (arith, select-inv test j xs)
