-- ===== src/Queues/Mpmc/Tests.antt =====
-- src/fev_bounded_mpmc_queue.h at a queue of four cells whose positions wrap.
use libfev.Base.{
  ◌+◌, ◌%◌, zero, suc, ◌<◌, ◌≤◌, ◌-◌, ◌^◌, ◌≡◌, refl, arith, ℕ, [], ◌∷◌, if◌then◌else◌, ◌==◌,
}
use Prim.Native.Nat.{◌∣◌}
use native.Mathlib.Nat.{dvd_of_mod-eq-zero}
use libfev.Queues.Mpmc.{Queue, queue_size}
use libfev.Queues.Mpmc.View.{IsValid, contents}

-- It holds the fibers 5, 6 and 7, at the last two positions and the first one.
abbrev pub sample : Queue
sample = record {
  buffer = λ i.
      if i == 2
      then record { sequence = 2 ^ 32 - 1; value = 5 }
      else if i == 3
      then record { sequence = 0; value = 6 }
      else if i == 0
      then record { sequence = 1; value = 7 }
      else record { sequence = 1; value = 9 };
  buffer_mask = 3;
  head = 2 ^ 32 - 2;
  tail = 1;
}

power : 4 ∣ 2 ^ 32
power = dvd_of_mod-eq-zero 4 refl

full_at :
    (j : ℕ)
    → j < 3
    → (sample.buffer ((sample.head + j) % 4)).sequence ≡ (sample.head + j + 1) % 2 ^ 32
full_at zero p = refl
full_at (suc zero) p = refl
full_at (suc (suc zero)) p = refl
full_at (suc (suc (suc j))) p = absurd (omega arith)

free_at :
    (j : ℕ)
    → 3 ≤ j
    → j < 4
    → (sample.buffer ((sample.head + j) % 4)).sequence ≡ (sample.head + j) % 2 ^ 32
free_at (suc (suc (suc zero))) p q = refl
free_at zero p q = absurd (omega arith)
free_at (suc zero) p q = absurd (omega arith)
free_at (suc (suc zero)) p q = absurd (omega arith)
free_at (suc (suc (suc (suc j)))) p q = absurd (omega arith)

pub sample-IsValid : IsValid sample
unfolding queue_size
sample-IsValid = record {
  power = power;
  pair = omega arith;
  proper = omega arith;
  head = omega arith;
  tail = omega arith;
  room = omega arith;
  seqs = record { full = full_at; free = free_at };
}

contents-sample : contents sample ≡ 5 ∷ 6 ∷ 7 ∷ []
unfolding queue_size
contents-sample = refl
