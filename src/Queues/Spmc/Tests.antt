-- ===== src/Queues/Spmc/Tests.antt =====
-- src/fev_bounded_spmc_queue.h at a queue of four slots whose positions wrap.
use libfev.Base.{◌-◌, ◌^◌, ◌≡◌, refl, arith, [], ◌∷◌, if◌then◌else◌, ◌==◌}
use Prim.Native.Nat.{◌∣◌}
use native.Mathlib.Nat.{dvd_of_mod-eq-zero}
use libfev.Queues.Spmc.{Queue, queue_size, push_stq}
use libfev.Queues.Spmc.View.{IsValid, contents}

-- It holds the fibers 5, 6 and 7, at the last two positions and the first one.
abbrev pub sample : Queue
sample = record {
  buffer = λ i. if i == 2 then 5 else if i == 3 then 6 else if i == 0 then 7 else 9;
  buffer_mask = 3;
  head = 2 ^ 32 - 2;
  tail = 1;
}

power : 4 ∣ 2 ^ 32
power = dvd_of_mod-eq-zero 4 refl

pub sample-IsValid : IsValid sample
unfolding queue_size
sample-IsValid = record {
  power = power;
  proper = omega arith;
  head = omega arith;
  tail = omega arith;
  room = omega arith;
}

contents-sample : contents sample ≡ 5 ∷ 6 ∷ 7 ∷ []
unfolding queue_size
contents-sample = refl

push_stq_test : (push_stq sample (1 ∷ 2 ∷ []) 2).1 ≡ 2 ∷ []
unfolding push_stq
push_stq_test = refl
