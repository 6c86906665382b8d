-- ===== src/Queues/Spmc/Race.antt =====
-- src/fev_bounded_spmc_queue.h: the owner has pushed the fiber 7, and the thief 0 has read it.
use libfev.Base.{ℕ, ◌^◌, ◌<◌, refl, arith, some, [], ◌∷◌, update}
use Prim.Native.Nat.{◌∣◌}
use native.Mathlib.Nat.{dvd_of_mod-eq-zero}
use libfev.Queues.Spmc.Steps.{
  idle, at_loop, reads, swaps, rests, writes, System, silent, popped, pushed, Step, Reach, initial,
  later, init, looked, look_label,
}
use libfev.Queues.Spmc.Known.{contents, IsTimely, Fifo}
use libfev.Queues.Spmc.Linear.{TimelyRun, spmc_linear}

abbrev cells : ℕ → ℕ
cells i = 9

abbrev after_push : System
after_push = record (init cells 4) { owner = writes [] (7 ∷ []) }

abbrev after_write : System
after_write = record after_push { buffer = update cells 0 7; owner = writes (7 ∷ []) [] }

abbrev after_store : System
after_store = record after_write { tail = 1; owner = rests }

abbrev after_load : System
after_load = record after_store { thieves = update after_store.thieves 0 (at_loop 0) }

abbrev after_look : System
after_look = record after_load { thieves = update after_load.thieves 0 (reads 0) }

abbrev after_read : System
after_read = record after_look { thieves = update after_look.thieves 0 (swaps 0 7) }

abbrev after_swap : System
after_swap = record after_read { head = 1; thieves = update after_read.thieves 0 idle }

IsTimely-small : (s : System) → s.tail < 2 ^ 32 → IsTimely s
IsTimely-small s lt i head e = omega arith

after_push-Step : Step (init cells 4) silent after_push
after_push-Step = Step.push 7 refl refl

after_write-Step : Step after_push silent after_write
after_write-Step = Step.write [] 7 [] refl

after_store-Step : Step after_write (pushed (7 ∷ [])) after_store
after_store-Step = Step.store_tail (7 ∷ []) refl

after_load-Step : Step after_store silent after_load
after_load-Step = Step.load_head 0 refl

after_look-Step : Step after_load silent after_look
unfolding looked look_label
after_look-Step = Step.load_tail 0 0 refl

after_read-Step : Step after_look silent after_read
after_read-Step = Step.read 0 0 refl

after_swap-Step : Step after_read (popped (some 7)) after_swap
after_swap-Step = Step.swap 0 0 7 refl refl

abbrev run : Reach cells 4 after_read
run =
    later silent
      (later silent
        (later silent
          (later (pushed (7 ∷ []))
            (later silent (later silent initial after_push-Step) after_write-Step) after_store-Step)
          after_load-Step)
        after_look-Step)
      after_read-Step

run-TimelyRun : TimelyRun run
run-TimelyRun = (
  (
    (
      (
        (
          (omega arith, IsTimely-small (init cells 4) (omega arith)),
          IsTimely-small after_push (omega arith),
        ),
        IsTimely-small after_write (omega arith),
      ),
      IsTimely-small after_store (omega arith),
    ),
    IsTimely-small after_load (omega arith),
  ),
  IsTimely-small after_look (omega arith),
)

power : 4 ∣ 2 ^ 32
power = dvd_of_mod-eq-zero 4 refl

spmc_linear_example : Fifo 4 (popped (some 7)) (contents after_read) (contents after_swap)
spmc_linear_example =
    spmc_linear (omega arith) (omega arith) power run run-TimelyRun
      (IsTimely-small after_read (omega arith)) after_swap-Step
