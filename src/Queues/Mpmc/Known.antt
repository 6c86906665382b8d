-- ===== src/Queues/Mpmc/Known.antt =====
-- What holds of the cells, the positions and the threads of a queue while they are at work.
use libfev.Base.{ℕ, ◌+◌, ◌-◌, ◌%◌, ◌^◌, ◌≤◌, ◌<◌, ◌≡◌, ◌≢◌, sym, ap, ◌∙◌, arith, Option, some}
use Prim.Native.Nat.{◌∣◌}
use native.Mathlib.Nat.{mod-mod_of_dvd, add-mod_right}
use native.Mathlib.Decide.{dec_lt}
use libfev.Queues.Window.{mod-ne}
use libfev.Queues.Mpmc.{Cell}
use libfev.Queues.Mpmc.Steps.{
  Phase, idle, pop_loaded, pop_reloads, pop_swaps, pop_took, pop_read, push_loaded, push_reloads,
  push_swaps, push_took, push_wrote, System, capacity, slot,
}
use libfev.Queues.Mpmc.Entries.{Entry, pending, ready, gone}

-- The cell of a position.
abbrev pub cell : System → (position : ℕ) → Cell
cell s p = s.buffer (p % capacity s)

-- The position that the push of a thread has got, with the item.
pub data Pushes : Phase → (item position : ℕ) → Type 0 where
  took : {x t : ℕ} → Pushes (push_took x t) x t
  wrote : {x t : ℕ} → Pushes (push_wrote x t) x t

pub data Pops : Phase → (position : ℕ) → Type 0 where
  took : {h : ℕ} → Pops (pop_took h) h
  read : {h x : ℕ} → Pops (pop_read h x) h

-- A position between `head` and `tail`.
pub data Used (s : System) (p : ℕ) : Entry → Type 0 where
  waits : {i x : ℕ} → (cell s p).sequence ≡ p → Pushes (s.phases i) x p → Used s p (pending i x)
  full : {x : ℕ} → (cell s p).sequence ≡ p + 1 → (cell s p).value ≡ x → Used s p (ready x)

-- A position that can still come before `head` has moved: its cell is free, or a pop has it.
pub data Free (s : System) (p : ℕ) : Type 0 where
  free : (cell s p).sequence ≡ p → Free s p
  held :
      (j h : ℕ) → Pops (s.phases j) h → h + capacity s ≡ p → (cell s p).sequence ≡ h + 1 → Free s p

pub data Knows (s : System) (e : ℕ → Entry) (hands : ℕ → Option ℕ) (i : ℕ) : Phase → Type 0 where
  nothing : Knows s e hands i idle
  pop_old : {h : ℕ} → h ≤ s.head → Knows s e hands i (pop_loaded h)
  pop_again : Knows s e hands i pop_reloads
  pop_seen :
      {h : ℕ}
      → h ≤ s.head
      → (h ≡ s.head → (h < s.tail) × ((cell s h).sequence ≡ h + 1))
      → Knows s e hands i (pop_swaps h)
  pop_has :
      {h : ℕ} (x : ℕ)
      → h < s.head
      → s.tail ≤ h + capacity s
      → (cell s h).sequence ≡ h + 1
      → (cell s h).value ≡ x
      → e h ≡ gone i x
      → hands i ≡ some x
      → Knows s e hands i (pop_took h)
  pop_got :
      {h x : ℕ}
      → h < s.head
      → s.tail ≤ h + capacity s
      → (cell s h).sequence ≡ h + 1
      → e h ≡ gone i x
      → hands i ≡ some x
      → Knows s e hands i (pop_read h x)
  push_old : {x t : ℕ} → t ≤ s.tail → Knows s e hands i (push_loaded x t)
  push_again : {x : ℕ} → Knows s e hands i (push_reloads x)
  push_seen :
      {x t : ℕ}
      → t ≤ s.tail
      → (t ≡ s.tail → (t < s.head + capacity s) × ((cell s t).sequence ≡ t))
      → Knows s e hands i (push_swaps x t)
  push_has :
      {x t : ℕ}
      → s.head ≤ t
      → t < s.tail
      → e t ≡ pending i x
      → (cell s t).sequence ≡ t
      → Knows s e hands i (push_took x t)
  push_put :
      {x t : ℕ}
      → s.head ≤ t
      → t < s.tail
      → e t ≡ pending i x
      → (cell s t).sequence ≡ t
      → (cell s t).value ≡ x
      → Knows s e hands i (push_wrote x t)

pub record Inv (s : System) (e : ℕ → Entry) (hands : ℕ → Option ℕ) : Type 0 where
  pub power : capacity s ∣ 2 ^ 32
  pub big : 2 ≤ capacity s
  pub proper : capacity s ≤ 2 ^ 30
  pub order : s.head ≤ s.tail
  pub bound : s.tail ≤ s.head + capacity s
  pub used : (p : ℕ) → s.head ≤ p → p < s.tail → Used s p (e p)
  pub room : (p : ℕ) → s.tail ≤ p → p < s.head + capacity s → Free s p
  pub past : (p : ℕ) → p < s.head → p + 1 ≤ (cell s p).sequence
  pub upper : (p : ℕ) → (cell s p).sequence ≤ s.head + capacity s
  pub knows : (i : ℕ) → Knows s e hands i (s.phases i)

pub slot-mod : (s : System) (p : ℕ) → capacity s ∣ 2 ^ 32 → slot s p ≡ p % capacity s
slot-mod s p d = mod-mod_of_dvd (capacity s) p d

-- Two positions less than the capacity apart have two cells.
pub slots-apart : (size p q : ℕ) → p ≢ q → p < q + size → q < p + size → p % size ≢ q % size
slots-apart size p q ne a b e = elim (dec_lt p q) [
  | yes lt ↦
      let at : p + (q - p) ≡ q = omega arith in
      mod-ne size p (q - p) (omega arith) (omega arith) (ap (λ k. k % size) at ∙ sym e)
  | no ge ↦
      let at : q + (p - q) ≡ p = omega arith in
      mod-ne size q (p - q) (omega arith) (omega arith) (ap (λ k. k % size) at ∙ e)
]

pub cell-round : (s : System) (h : ℕ) → cell s (h + capacity s) ≡ cell s h
cell-round s h = ap s.buffer (add-mod_right h (capacity s))
