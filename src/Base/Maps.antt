-- ===== src/Base/Maps.antt =====
-- Memory cells as maps from an index or an address to what is stored there.
use Prim.Native.Nat.{ℕ}
use mathlib.Core.Path.{◌≡◌}
use mathlib.Core.Logic.{◌≢◌}
use native.Mathlib.Omega.{arith}
use native.Mathlib.Decide.{ℕ_discrete}
use libfev.Base.Tests.{◌==◌, if◌then◌else◌}

-- the write `f[i] = v`
abbrev pub update {ℓ} : {A : Type ℓ} → (ℕ → A) → ℕ → A → ℕ → A
update f i v j = if i == j then v else f j

pub update_self {ℓ} : {A : Type ℓ} (f : ℕ → A) (i : ℕ) (v : A) → update f i v i ≡ v
update_self f i v = ground arith

pub update_ne {ℓ} : {A : Type ℓ} (f : ℕ → A) (i j : ℕ) (v : A) → i ≢ j → update f i v j ≡ f j
update_ne f i j v h = ground arith

-- What holds of every cell after a write.
pub update-all {ℓ ℓ'} :
    {A : Type ℓ} (P : ℕ → A → Type ℓ') (f : ℕ → A) (i : ℕ) (v : A)
    → ((j : ℕ) → i ≢ j → P j (f j))
    → P i v
    → (j : ℕ) → P j (update f i v j)
update-all P f i v others here j = elim (ℕ_discrete i j) [
  | yes e ↦ rw (← e, update_self f i v) here
  | no ne ↦ rw (update_ne f i j v ne) (others j ne)
]
