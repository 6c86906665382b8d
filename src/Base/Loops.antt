-- ===== src/Base/Loops.antt =====
-- Loops on fuel: `none` means that the fuel ran out. A theorem `Gives P r` says that it did not.
use mathlib.Core.Path.{◌≡◌, refl}
use mathlib.Core.Bool.{Bool, true, false}
use mathlib.Core.Option.{Option, none, some}
use libfev.Base.Tests.{if◌then◌else◌}

infixl 5 ◌>>=◌
abbrev pub ◌>>=◌ : {A B : Type 0} → Option A → (A → Option B) → Option B
none >>= _ = none
some x >>= f = f x

-- There is a result, and it satisfies `P`.
pub data Gives {A : Type 0} (P : A → Type 0) : Option A → Type 0 where
  gives : {x : A} → P x → Gives P (some x)

pub Gives-inv :
    {A : Type 0} {P : A → Type 0} {r : Option A} → Gives P r → (x : A) × (r ≡ some x) × P x
Gives-inv (gives {x = x} p) = (x, refl, p)

pub Gives-if :
    {A : Type 0} {P : A → Type 0} {then_r else_r : Option A} (test : Bool)
    → (test ≡ true → Gives P then_r)
    → (test ≡ false → Gives P else_r)
    → Gives P (if test then then_r else else_r)
Gives-if true on_true on_false = on_true refl
Gives-if false on_true on_false = on_false refl

module _ {A : Type 0} {P : A → Type 0} {r : Option A} (g : Gives P r) where
  pub Gives-bind :
      {B : Type 0} {Q : B → Type 0} {f : A → Option B}
      → ((x : A) → P x → Gives Q (f x))
      → Gives Q (r >>= f)
  Gives-bind {f = f} k = let (x, e, p) = Gives-inv g in rw e (k x p)

  pub Gives-weaken : {Q : A → Type 0} → ((x : A) → P x → Q x) → Gives Q r
  Gives-weaken k = let (x, e, p) = Gives-inv g in rw e (gives (k x p))
