-- ===== src/Queues/Window.antt =====
-- The entries of a ring from a position on. A position is taken modulo the size of the ring, so the
-- 32-bit wrap of the positions does not show as long as the size divides 2 ^ 32.
use libfev.Base.{
  ℕ, zero, suc, ◌+◌, ◌-◌, ◌%◌, ◌^◌, ◌<◌, ◌≡◌, ◌≢◌, refl, sym, ap, ◌∙◌, arith, List, [], ◌∷◌, ◌++◌,
  update, update_ne, update_self, length, if◌then◌else◌, ltb, Bool, true, false, Option, none, some,
}
use Prim.Native.Nat.{◌∣◌}
use native.Mathlib.Nat.{mod-mod_of_dvd, mod-add-mod, mod-lt, mod-eq_of_lt, mod-eq-sub-mod, add-zero}
use native.Mathlib.Decide.{dec_lt}

-- uint32_t arithmetic
abbrev pub u32_mod : ℕ
u32_mod = 2 ^ 32

abbrev pub u32 : ℕ → ℕ
u32 n = n % 2 ^ 32

-- a - b on uint32_t
abbrev pub sub_u32 : ℕ → ℕ → ℕ
sub_u32 a b = (a + 2 ^ 32 - b) % 2 ^ 32

-- the `n` entries from the position `h` on, in a ring of `size` slots
abbrev pub window {ℓ} : {A : Type ℓ} → (ℕ → A) → (size h n : ℕ) → List A
window buf size h zero = []
window buf size h (suc n) = buf (h % size) ∷ window buf size (h + 1) n

pub shift-mod : (size a b k : ℕ) → a % size ≡ b % size → (a + k) % size ≡ (b + k) % size
shift-mod size a b k e =
    sym (mod-add-mod a size k) ∙ ap (λ x. (x + k) % size) e ∙ mod-add-mod b size k

-- Fewer than `size` steps lead to another slot.
pub mod-ne : (size a k : ℕ) → 0 < k → k < size → (a + k) % size ≢ a % size
mod-ne size a k pos lt e =
    let r = a % size in
    let small : r < size = mod-lt a (omega arith) in
    let e' : (r + k) % size ≡ r = mod-add-mod a size k ∙ e in
    elim (dec_lt (r + k) size) [
      | yes p ↦ absurd (omega (arith, e', mod-eq_of_lt p))
      | no p ↦ absurd (
          omega (
            arith,
            e',
            mod-eq-sub-mod {n = r + k} {m = size} (omega arith),
            mod-eq_of_lt {n = r + k - size} {m = size} (omega arith),
          ))
    ]

module _ {ℓ} {A : Type ℓ} (buf : ℕ → A) (size : ℕ) where
  pub window-congr :
      (h h' n : ℕ) → h % size ≡ h' % size → window buf size h n ≡ window buf size h' n
  window-congr h h' zero e = refl
  window-congr h h' (suc n) e = rw (e, window-congr (h + 1) (h' + 1) n (shift-mod size h h' 1 e))

  pub window-u32 : (h n : ℕ) → size ∣ 2 ^ 32 → window buf size (u32 h) n ≡ window buf size h n
  window-u32 h n d = window-congr (u32 h) h n (mod-mod_of_dvd size h d)

  pub length-window : (h n : ℕ) → length (window buf size h n) ≡ n
  length-window h zero = refl
  length-window h (suc n) = ap suc (length-window (h + 1) n)

  pub window-snoc :
      (h n : ℕ) → window buf size h (suc n) ≡ window buf size h n ++ buf ((h + n) % size) ∷ []
  window-snoc h zero = rw add-zero
  window-snoc h (suc n) =
      let e : h + 1 + n ≡ h + suc n = omega arith in
      ap (◌∷◌ (buf (h % size))) (rw e at (window-snoc (h + 1) n))

  -- A write outside the window does not show.
  pub window-update :
      (i : ℕ) (v : A) (h n : ℕ)
      → ((j : ℕ) → j < n → i ≢ (h + j) % size)
      → window (update buf i v) size h n ≡ window buf size h n
  window-update i v h zero out = refl
  window-update i v h (suc n) out =
      let first : i ≢ h % size = rw add-zero at (out 0 (omega arith)) in
      let rest = window-update i v (h + 1) n (λ j lt.
        let e : h + suc j ≡ h + 1 + j = omega arith in rw e at (out (suc j) (omega arith))) in
      rw (update_ne buf i (h % size) v first, rest)

-- Writing just past the window and extending it adds the value at its end.
pub window-push {ℓ} :
    {A : Type ℓ} (buf : ℕ → A) (size : ℕ) (v : A) (h n : ℕ)
    → n < size
    → window (update buf ((h + n) % size) v) size h (suc n) ≡ window buf size h n ++ v ∷ []
window-push buf size v h n lt = rw (
  window-snoc (update buf ((h + n) % size) v) size h n,
  update_self buf ((h + n) % size) v,
  window-update buf size ((h + n) % size) v h n
      (λ j q. rw (apart j q) (mod-ne size (h + j) (n - j) (omega arith) (omega arith))),
)
  where
    apart : (j : ℕ) → j < n → h + n ≡ h + j + (n - j)
    apart j q = omega arith

pub window-ext {ℓ} :
    {A : Type ℓ} (f g : ℕ → A) (size h n : ℕ)
    → ((i : ℕ) → f i ≡ g i)
    → window f size h n ≡ window g size h n
window-ext f g size h zero e = refl
window-ext f g size h (suc n) e = rw (e (h % size), window-ext f g size (h + 1) n e)

pub window_of_pos {ℓ} :
    {A : Type ℓ} (buf : ℕ → A) (size h n : ℕ)
    → 0 < n
    → window buf size h n ≡ buf (h % size) ∷ window buf size (h + 1) (n - 1)
window_of_pos buf size h zero p = absurd (omega arith)
window_of_pos buf size h (suc n) p =
    let e : n ≡ suc n - 1 = omega arith in ap (λ k. buf (h % size) ∷ window buf size (h + 1) k) e

-- The abstract queue of at most `cap` fibers, oldest first.
unfoldable pub fifo_pop : List ℕ → Option ℕ × List ℕ
fifo_pop [] = (none, [])
fifo_pop (x ∷ xs) = (some x, xs)

unfoldable pub fifo_push : (cap : ℕ) → List ℕ → ℕ → Bool × List ℕ
fifo_push cap xs x = if ltb (length xs) cap then (true, xs ++ x ∷ []) else (false, xs)
