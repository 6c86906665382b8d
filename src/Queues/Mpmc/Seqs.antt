-- ===== src/Queues/Mpmc/Seqs.antt =====
-- The sequence numbers of a ring that holds the `n` entries from position `h` on: a full cell has the
-- position after its own, a free cell the position of the entry that will fill it.
use libfev.Base.{ℕ, suc, ◌+◌, ◌-◌, ◌%◌, ◌^◌, ◌≤◌, ◌<◌, ◌≡◌, ◌≢◌, sym, ap, ◌∙◌, arith, update}
use Prim.Native.Nat.{◌∣◌}
use native.Mathlib.Nat.{mod-mod_of_dvd, add-mod_right}
use native.Mathlib.Decide.{ℕ_discrete, dec_lt}
use libfev.Queues.Window.{u32, shift-mod, mod-ne}
use libfev.Queues.Mpmc.{Cell}

pub record Seqs (buf : ℕ → Cell) (size h n : ℕ) : Type 0 where
  pub full : (i : ℕ) → i < n → (buf ((h + i) % size)).sequence ≡ u32 (h + i + 1)
  pub free : (i : ℕ) → n ≤ i → i < size → (buf ((h + i) % size)).sequence ≡ u32 (h + i)

pub Seqs-u32 :
    (buf : ℕ → Cell) (size h n : ℕ) → size ∣ 2 ^ 32 → Seqs buf size h n → Seqs buf size (u32 h) n
Seqs-u32 buf size h n d s = record {
  full = λ i p. ap (λ j. (buf j).sequence) (at i) ∙ s.full i p ∙ omega arith;
  free = λ i p q. ap (λ j. (buf j).sequence) (at i) ∙ s.free i p q ∙ omega arith;
}
  where
    at : (i : ℕ) → (u32 h + i) % size ≡ (h + i) % size
    at i = shift-mod size (u32 h) h i (mod-mod_of_dvd size h d)

sequence-hit :
    (buf : ℕ → Cell) (i j : ℕ) (c : Cell) → i ≡ j → (update buf i c j).sequence ≡ c.sequence
sequence-hit buf i j c e = ground arith

sequence-miss :
    (buf : ℕ → Cell) (i j : ℕ) (c : Cell) → i ≢ j → (update buf i c j).sequence ≡ (buf j).sequence
sequence-miss buf i j c e = ground arith

-- Two offsets below the size give two slots.
slot-ne : (size h i j : ℕ) → i ≢ j → i < size → j < size → (h + i) % size ≢ (h + j) % size
slot-ne size h i j ne p q e = elim (dec_lt i j) [
  | yes lt ↦
      let at : h + j ≡ h + i + (j - i) = omega arith in
      mod-ne size (h + i) (j - i) (omega arith) (omega arith) (sym (ap (λ x. x % size) at) ∙ sym e)
  | no ge ↦
      let at : h + i ≡ h + j + (i - j) = omega arith in
      mod-ne size (h + j) (i - j) (omega arith) (omega arith) (sym (ap (λ x. x % size) at) ∙ e)
]

pub Seqs-pop :
    (buf : ℕ → Cell) (size h n : ℕ) (c : Cell)
    → n < size
    → c.sequence ≡ u32 (h + size)
    → Seqs buf size h (suc n)
    → Seqs (update buf (h % size) c) size (h + 1) n
Seqs-pop buf size h n c lt e s = record {
  full = λ i p. miss i (omega arith) ∙ s.full (suc i) (omega arith) ∙ omega arith;
  free = λ i p q. elim (dec_lt (suc i) size) [
    | yes r ↦ miss i r ∙ s.free (suc i) (omega arith) r ∙ omega arith
    | no r ↦
        let at : h + 1 + i ≡ h + size = omega arith in
        sequence-hit buf (h % size) ((h + 1 + i) % size) c
          (sym (add-mod_right h size) ∙ ap (λ x. x % size) (sym at))
        ∙ e
        ∙ omega arith
  ];
}
  where
    miss :
        (i : ℕ)
        → suc i < size
        → (update buf (h % size) c ((h + 1 + i) % size)).sequence
          ≡ (buf ((h + suc i) % size)).sequence
    miss i q =
        let at : h + 1 + i ≡ h + suc i = omega arith in
        let zeroth : h + 0 ≡ h = omega arith in
        ap (λ x. (update buf (h % size) c (x % size)).sequence) at
        ∙ sequence-miss buf (h % size) ((h + suc i) % size) c
            (rw zeroth at (slot-ne size h 0 (suc i) (omega arith) (omega arith) q))

pub Seqs-push :
    (buf : ℕ → Cell) (size h n : ℕ) (c : Cell)
    → n < size
    → c.sequence ≡ u32 (h + n + 1)
    → Seqs buf size h n
    → Seqs (update buf ((h + n) % size) c) size h (suc n)
Seqs-push buf size h n c lt e s = record {
  full = λ i p. elim (ℕ_discrete i n) [
    | yes f ↦
        sequence-hit buf ((h + n) % size) ((h + i) % size) c (ap (λ x. (h + x) % size) (sym f))
        ∙ e
        ∙ omega arith
    | no ne ↦ miss i ne (omega arith) ∙ s.full i (omega arith)
  ];
  free = λ i p q. miss i (omega arith) q ∙ s.free i (omega arith) q;
}
  where
    miss :
        (i : ℕ)
        → i ≢ n
        → i < size
        → (update buf ((h + n) % size) c ((h + i) % size)).sequence
          ≡ (buf ((h + i) % size)).sequence
    miss i ne q =
        sequence-miss buf ((h + n) % size) ((h + i) % size) c
          (slot-ne size h n i (omega arith) lt q)
