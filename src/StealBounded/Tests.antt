-- ===== src/StealBounded/Tests.antt =====
-- Worker 0 of three steals: worker 1 has three fibers, at the wrapping positions of its queue, and the
-- others have none.
use libfev.Base.{
  ℕ, ◌+◌, ◌%◌, ◌^◌, ◌≤◌, ◌<◌, ◌≡◌, inl, inr, refl, if◌then◌else◌, ◌==◌, [], Gives, arith,
  Bool-cases,
}
use Prim.Native.Nat.{◌∣◌}
use native.Mathlib.Nat.{dvd_of_mod-eq-zero}
use libfev.Queues.Spmc
use libfev.Queues.Spmc.View as SpmcView
use libfev.Queues.Spmc.Tests as SpmcTests
use libfev.Queues.Mpmc
use libfev.Queues.Mpmc.View as MpmcView
use libfev.Queues.Mpmc.Tests as MpmcTests
use libfev.StealBounded.{Fallback, store_own, store_or_fallback, steal}
use libfev.StealBounded.Laws.{IsCounted}
use libfev.StealBounded.Thief.{Stolen}
use libfev.StealBounded.Instances.{spmc_ops, mpmc_ops, IsOf, mpmc_steal_lem, spmc_steal_lem}

power : 4 ∣ 2 ^ 32
power = dvd_of_mod-eq-zero 4 refl

abbrev no_fibers : Fallback
no_fibers = record { queue = []; len = 0 }

no_fibers-IsCounted : IsCounted no_fibers
no_fibers-IsCounted = record { counted = refl; small = omega arith }

abbrev spmc_empty : Spmc.Queue
spmc_empty = record { buffer = λ i. 0; buffer_mask = 3; head = 0; tail = 0 }

spmc_empty-IsValid : SpmcView.IsValid spmc_empty
unfolding Spmc.queue_size
spmc_empty-IsValid = record {
  power = power;
  proper = omega arith;
  head = omega arith;
  tail = omega arith;
  room = omega arith;
}

abbrev spmc_queues : ℕ → Spmc.Queue
spmc_queues j = if j == 1 then SpmcTests.sample else spmc_empty

spmc_queues-IsOf : (j : ℕ) → IsOf 4 (spmc_queues j)
spmc_queues-IsOf j = elim (Bool-cases (j == 1)) [
  | inl e ↦ rw e (SpmcTests.sample-IsValid, refl)
  | inr e ↦ rw e (spmc_empty-IsValid, refl)
]

contents-spmc_empty : SpmcView.contents spmc_empty ≡ []
unfolding Spmc.queue_size
contents-spmc_empty = refl

spmc_steal_lem_example :
    Gives
      (λ r. Stolen (IsOf 4) SpmcView.contents 0 spmc_queues no_fibers r × (r.1 ≡ no_fibers))
      (steal (spmc_ops 1) (store_own (spmc_ops 1)) 2 5 3 0 spmc_queues no_fibers)
spmc_steal_lem_example =
    spmc_steal_lem 1 4 2 5 3 0 spmc_queues no_fibers spmc_queues-IsOf contents-spmc_empty
      no_fibers-IsCounted (omega arith)

abbrev mpmc_empty : Mpmc.Queue
mpmc_empty = record {
  buffer = λ i. record { sequence = i; value = 0 };
  buffer_mask = 3;
  head = 0;
  tail = 0;
}

mpmc_free_at :
    (j : ℕ)
    → 0 ≤ j
    → j < 4
    → (mpmc_empty.buffer ((mpmc_empty.head + j) % 4)).sequence ≡ (mpmc_empty.head + j) % 2 ^ 32
mpmc_free_at j p q = omega arith

mpmc_empty-IsValid : MpmcView.IsValid mpmc_empty
unfolding Mpmc.queue_size
mpmc_empty-IsValid = record {
  power = power;
  pair = omega arith;
  proper = omega arith;
  head = omega arith;
  tail = omega arith;
  room = omega arith;
  seqs = record { full = λ j p. absurd (omega arith); free = mpmc_free_at };
}

abbrev mpmc_queues : ℕ → Mpmc.Queue
mpmc_queues j = if j == 1 then MpmcTests.sample else mpmc_empty

mpmc_queues-IsValid : (j : ℕ) → MpmcView.IsValid (mpmc_queues j)
mpmc_queues-IsValid j = elim (Bool-cases (j == 1)) [
  | inl e ↦ rw e MpmcTests.sample-IsValid
  | inr e ↦ rw e mpmc_empty-IsValid
]

contents-mpmc_empty : MpmcView.contents mpmc_empty ≡ []
unfolding Mpmc.queue_size
contents-mpmc_empty = refl

abbrev once : Mpmc.Queue → ℕ
once q = 1

mpmc_steal_lem_example :
    Gives
      (Stolen MpmcView.IsValid MpmcView.contents 0 mpmc_queues no_fibers)
      (steal (mpmc_ops once) (store_or_fallback (mpmc_ops once)) 2 5 3 0 mpmc_queues no_fibers)
mpmc_steal_lem_example =
    mpmc_steal_lem once 2 5 3 0 mpmc_queues no_fibers mpmc_queues-IsValid contents-mpmc_empty
      no_fibers-IsCounted (omega arith)
