-- ===== src/Queues/Mpmc/View.antt =====
-- What a queue holds, and its invariant.
use libfev.Base.{
  ℕ, zero, suc, ◌+◌, ◌-◌, ◌%◌, ◌^◌, ◌≤◌, ◌<◌, ◌≡◌, refl, sym, ap, ◌∙◌, arith, List, [], some,
  length, ok, ◌⊎◌, inl, inr,
}
use Prim.Native.Nat.{◌∣◌}
use native.Mathlib.Nat.{mod-mod_of_dvd, mod-eq_of_lt, add-mod_right}
use native.Mathlib.Decide.{dec_lt}
use libfev.Queues.Window.{u32, window, length-window}
use libfev.Queues.Mpmc.{Cell, Queue, init, number_cells, queue_size, slot}
use libfev.Queues.Mpmc.Seqs.{Seqs}

abbrev pub capacity : Queue → ℕ
capacity q = q.buffer_mask + 1

pub record IsValid (q : Queue) : Type 0 where
  pub power : capacity q ∣ 2 ^ 32
  pub pair : 2 ≤ capacity q
  pub proper : capacity q ≤ 2 ^ 31
  pub head : q.head < 2 ^ 32
  pub tail : q.tail < 2 ^ 32
  pub room : queue_size q ≤ capacity q
  pub seqs : Seqs q.buffer (capacity q) q.head (queue_size q)

abbrev pub values : Queue → ℕ → ℕ
values q i = (q.buffer i).value

abbrev pub contents : Queue → List ℕ
contents q = window (values q) (capacity q) q.head (queue_size q)

pub length-contents : (q : Queue) → length (contents q) ≡ queue_size q
length-contents q = length-window (values q) (capacity q) q.head (queue_size q)

number_cells_lem :
    (n : ℕ) (cells : ℕ → Cell) (i : ℕ) → i < n → (number_cells n cells i).sequence ≡ i
unfolding number_cells
number_cells_lem zero cells i lt = absurd (omega arith)
number_cells_lem (suc n) cells i lt = ground (arith, number_cells_lem n cells i)

-- A new queue of a power-of-two capacity is valid and empty, and has that capacity.
pub mpmc_init-IsValid :
    (cells : ℕ → Cell) (size : ℕ)
    → 2 ≤ size
    → size ≤ 2 ^ 31
    → size ∣ 2 ^ 32
    → (q : Queue) × (init (some cells) size ≡ ok q)
      × IsValid q
      × (contents q ≡ [])
      × (capacity q ≡ size)
unfolding init queue_size
mpmc_init-IsValid cells size big small power =
    let e : size - 1 + 1 ≡ size = omega arith in
    let at : (i : ℕ) → i < size → (0 + i) % size ≡ i =
      λ i p. (let z : 0 + i ≡ i = omega arith in rw z (mod-eq_of_lt p)) in
    (
      record { buffer = number_cells size cells; buffer_mask = size - 1; head = 0; tail = 0 },
      refl,
      record {
        power = rw e power;
        pair = omega arith;
        proper = omega arith;
        head = omega arith;
        tail = omega arith;
        room = omega arith;
        seqs = record {
          full = λ i p. absurd (omega arith);
          free = λ i p q.
              let lt : i < size = omega arith in
              rw (e, at i lt, number_cells_lem size cells i lt) (omega arith);
        };
      },
      refl,
      e,
    )

-- The cell that the next pop looks at: full, or waiting for the entry at `head`.
pub head-sequence :
    (q : Queue)
    → IsValid q
    → ((0 < queue_size q) × ((q.buffer (slot q q.head)).sequence ≡ u32 (q.head + 1)))
      ⊎ ((queue_size q ≡ 0) × ((q.buffer (slot q q.head)).sequence ≡ u32 q.head))
head-sequence q v =
    let z : q.head + 0 ≡ q.head = omega arith in
    elim (dec_lt 0 (queue_size q)) [
      | yes p ↦ inl (p, rw z at (v.seqs.full 0 p))
      | no p ↦ inr (omega arith, rw z at (v.seqs.free 0 (omega arith) (omega arith)))
    ]

tail-size : (q : Queue) → IsValid q → q.tail ≡ u32 (q.head + queue_size q)
unfolding queue_size
tail-size q v = omega arith

pub slot-tail : (q : Queue) → IsValid q → slot q q.tail ≡ (q.head + queue_size q) % capacity q
slot-tail q v =
    ap (λ t. t % capacity q) (tail-size q v)
    ∙ mod-mod_of_dvd (capacity q) (q.head + queue_size q) v.power

-- The cell that the next push looks at: free, or, in a full queue, the oldest one.
pub tail-sequence :
    (q : Queue)
    → IsValid q
    → ((queue_size q < capacity q) × ((q.buffer (slot q q.tail)).sequence ≡ q.tail))
      ⊎ ((queue_size q ≡ capacity q) × ((q.buffer (slot q q.tail)).sequence ≡ u32 (q.head + 1)))
tail-sequence q v =
    let at = slot-tail q v in
    elim (dec_lt (queue_size q) (capacity q)) [
      | yes p ↦ inl (p, rw at (v.seqs.free (queue_size q) (omega arith) p) ∙ sym (tail-size q v))
      | no p ↦
          let full : queue_size q ≡ capacity q = omega (arith, v.room) in
          let z : q.head + 0 ≡ q.head = omega arith in
          let first = rw z at (v.seqs.full 0 (omega arith)) in
          inr (full, ap (λ j. (q.buffer j).sequence) (at ∙ wrap full) ∙ first)
    ]
  where
    wrap : queue_size q ≡ capacity q → (q.head + queue_size q) % capacity q ≡ q.head % capacity q
    wrap full = ap (λ n. (q.head + n) % capacity q) full ∙ add-mod_right q.head (capacity q)
