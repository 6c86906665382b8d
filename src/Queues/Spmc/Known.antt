-- ===== src/Queues/Spmc/Known.antt =====
-- What the thieves of a queue know, and what the queue holds while they and its owner are at work.
use libfev.Base.{
  ℕ, zero, suc, ◌+◌, ◌-◌, ◌%◌, ◌^◌, ◌≤◌, ◌<◌, ◌≡◌, inl, inr, refl, sym, ap, ◌∙◌, arith, false,
  Option, none, some, List, [], ◌∷◌, ◌++◌, length, ltb, ◌==◌, update, update-all, Bool-cases,
}
use Prim.Native.Nat.{◌∣◌}
use native.Mathlib.Nat.{mod-mod_of_dvd}
use libfev.Queues.Window.{u32, window, window_of_pos, fifo_pop}
use libfev.Queues.Spmc.Steps.{
  Thief, idle, at_loop, reads, swaps, Owner, rests, writes, System, capacity, slot, Label, silent,
  popped, pushed, refused, looked, look_label,
}

abbrev pub contents : System → List ℕ
contents s = window s.buffer (capacity s) s.head (s.tail - s.head)

-- The count of `head` that a thief has.
abbrev pub held_head : Thief → Option ℕ
held_head idle = none
held_head (at_loop head) = some head
held_head (reads head) = some head
held_head (swaps head item) = some head

-- No thief has slept while the positions went round the 32 bits.
abbrev pub IsTimely : System → Type 0
IsTimely s = (i head : ℕ) → held_head (s.thieves i) ≡ some head → s.tail < head + 2 ^ 32

abbrev pub written_of : Owner → List ℕ
written_of rests = []
written_of (writes written todo) = written

abbrev pub todo_of : Owner → List ℕ
todo_of rests = []
todo_of (writes written todo) = todo

-- What a thief knows of the queue.
pub data Knows (s : System) : Thief → Type 0 where
  nothing : Knows s idle
  old : {head : ℕ} → head ≤ s.head → Knows s (at_loop head)
  some_item : {head : ℕ} → head ≤ s.head → head < s.tail → Knows s (reads head)
  first :
      {head item : ℕ}
      → head ≤ s.head
      → head < s.tail
      → (head ≡ s.head → item ≡ s.buffer (head % capacity s))
      → Knows s (swaps head item)

pub record Inv (s : System) : Type 0 where
  pub power : capacity s ∣ 2 ^ 32
  pub proper : capacity s ≤ 2 ^ 31
  pub order : s.head ≤ s.tail
  pub bound : s.tail + length (written_of s.owner) + length (todo_of s.owner) ≤ s.head + capacity s
  pub ahead : window s.buffer (capacity s) s.tail (length (written_of s.owner)) ≡ written_of s.owner
  pub knows : (i : ℕ) → Knows s (s.thieves i)

-- The atomic operations of a queue of at most `size` fibers.
pub data Fifo (size : ℕ) : Label → List ℕ → List ℕ → Type 0 where
  nothing : {xs ys : List ℕ} → ys ≡ xs → Fifo size silent xs ys
  pops : {xs ys : List ℕ} (r : Option ℕ) → (r, ys) ≡ fifo_pop xs → Fifo size (popped r) xs ys
  pushes :
      {xs ys : List ℕ} (fibers : List ℕ)
      → ys ≡ xs ++ fibers
      → length ys ≤ size
      → Fifo size (pushed fibers) xs ys
  is_full : {xs ys : List ℕ} → ys ≡ xs → length xs ≡ size → Fifo size refused xs ys

pub window-append :
    (buf : ℕ → ℕ) (size h m n : ℕ)
    → window buf size h (m + n) ≡ window buf size h m ++ window buf size (h + m) n
window-append buf size h zero n =
    let e : 0 + n ≡ n = omega arith in
    let f : h ≡ h + 0 = omega arith in ap (window buf size h) e ∙ ap (λ k. window buf size k n) f
window-append buf size h (suc m) n =
    let e : suc m + n ≡ suc (m + n) = omega arith in
    let f : h + 1 + m ≡ h + suc m = omega arith in
    ap (window buf size h) e
    ∙ ap (λ l. buf (h % size) ∷ l) (window-append buf size (h + 1) m n)
    ∙ ap (λ k. buf (h % size) ∷ window buf size (h + 1) m ++ window buf size k n) f

-- What a thief knows stays true while the counts grow and the first cell is kept.
pub Knows-kept :
    (s : System) (t : System) (p : Thief)
    → Knows s p
    → s.head ≤ t.head
    → s.tail ≤ t.tail
    → capacity t ≡ capacity s
    → (s.head ≡ t.head
        → s.head < s.tail
        → t.buffer (s.head % capacity s) ≡ s.buffer (s.head % capacity s))
    → Knows t p
Knows-kept s t _ nothing a b c d = nothing
Knows-kept s t _ (old e) a b c d = old (omega arith)
Knows-kept s t _ (some_item e f) a b c d = some_item (omega arith) (omega arith)
Knows-kept s t _ (first {head} e f g) a b c d =
    first (omega arith) (omega arith) λ (q : head ≡ t.head).
      let here : head ≡ s.head = omega arith in
      g here
      ∙ ap (λ h. s.buffer (h % capacity s)) here
      ∙ sym (d (omega arith) (omega arith))
      ∙ ap (λ h. t.buffer (h % capacity s)) (sym here)
      ∙ ap (λ k. t.buffer (head % k)) (sym c)

-- A step that changes nothing but what the thief `i` knows.
pub thief-Inv :
    (s : System) (i : ℕ) (p : Thief)
    → Inv s
    → Knows s p
    → Inv (record s { thieves = update s.thieves i p })
thief-Inv s i p v k = record {
  power = v.power;
  proper = v.proper;
  order = v.order;
  bound = v.bound;
  ahead = v.ahead;
  knows =
      update-all (λ j q. Knows (record s { thieves = update s.thieves i p }) q) s.thieves i p
        (λ j ne. here (s.thieves j) (v.knows j)) (here p k);
}
  where
    here : (q : Thief) → Knows s q → Knows (record s { thieves = update s.thieves i p }) q
    here q e =
        Knows-kept s (record s { thieves = update s.thieves i p }) q e (omega arith) (omega arith)
          refl (λ a b. refl)

pub slot-mod : (s : System) (position : ℕ) → Inv s → slot s position ≡ position % capacity s
slot-mod s position v = mod-mod_of_dvd (capacity s) position v.power

-- Words of counts that are close to each other tell the counts.
u32-eq : (a b : ℕ) → a ≤ b → b < a + 2 ^ 32 → u32 a ≡ u32 b → a ≡ b
u32-eq a b le lt e = omega arith

pub looking :
    (s : System) (head : ℕ)
    → Inv s
    → s.tail < head + 2 ^ 32
    → head ≤ s.head
    → Knows s (looked head s.tail)
unfolding looked
looking s head v timely le = elim (Bool-cases (u32 head == u32 s.tail)) [
  | inl t ↦ rw t nothing
  | inr f ↦ rw f (some_item le (below f))
]
  where
    below : (u32 head == u32 s.tail) ≡ false → head < s.tail
    below f = elim (Bool-cases (ltb head s.tail)) [
      | inl lt ↦ ground arith
      | inr ge ↦
          let same : head ≡ s.tail = ground (arith, v.order) in
          absurd (ground (arith, f, ap u32 same))
    ]

contents-empty : (s : System) → s.head ≡ s.tail → contents s ≡ []
contents-empty s e =
    let z : s.tail - s.head ≡ 0 = omega arith in ap (window s.buffer (capacity s) s.head) z

pub look-Fifo :
    (s t : System) (head : ℕ)
    → Inv s
    → s.tail < head + 2 ^ 32
    → head ≤ s.head
    → contents t ≡ contents s
    → Fifo (capacity s) (look_label head s.tail) (contents s) (contents t)
unfolding look_label fifo_pop
look-Fifo s t head v timely le e = elim (Bool-cases (u32 head == u32 s.tail)) [
  | inl same ↦
      let at : head ≡ s.tail =
        u32-eq head s.tail (omega (arith, v.order)) timely (ground (arith, same)) in
      let none_left = contents-empty s (omega (arith, v.order)) in
      rw same (pops none (rw (e, none_left) refl))
  | inr f ↦ rw f (nothing e)
]

-- The first fiber is what the thief read.
pub swap-Fifo :
    (s : System) (i head item : ℕ)
    → Inv s
    → s.tail < head + 2 ^ 32
    → u32 s.head ≡ u32 head
    → Knows s (swaps head item)
    → (head ≡ s.head)
      × (contents s ≡ item ∷ window s.buffer (capacity s) (s.head + 1) (s.tail - s.head - 1))
swap-Fifo s i head item v timely same (first le lt g) =
    let at : head ≡ s.head = u32-eq head s.head le (omega (arith, v.order)) (sym same) in
    (
      at,
      window_of_pos s.buffer (capacity s) s.head (s.tail - s.head) (omega arith)
          ∙ ap (λ x. x ∷ window s.buffer (capacity s) (s.head + 1) (s.tail - s.head - 1))
              (sym (g at ∙ ap (λ h. s.buffer (h % capacity s)) at)),
    )

pub swap-Inv :
    (s : System) (i : ℕ)
    → Inv s
    → s.head < s.tail
    → Inv (record s { head = s.head + 1; thieves = update s.thieves i idle })
swap-Inv s i v lt = record {
  power = v.power;
  proper = v.proper;
  order = omega arith;
  bound = omega (arith, v.bound);
  ahead = v.ahead;
  knows =
      update-all (λ j q. Knows t q) s.thieves i idle
        (λ j ne.
          Knows-kept s t (s.thieves j) (v.knows j) (omega arith) (omega arith) refl
            (λ a b. absurd (omega arith)))
        nothing;
}
  where
    t : System
    t = record s { head = s.head + 1; thieves = update s.thieves i idle }
