-- ===== src/Queues/Mpmc/Race.antt =====
-- src/fev_bounded_mpmc_queue.h: the thread 0 pushes the item 7, and the thread 1 pops it.
use libfev.Base.{ℕ, ◌+◌, ◌^◌, ◌<◌, refl, arith, update}
use Prim.Native.Nat.{◌∣◌}
use native.Mathlib.Nat.{dvd_of_mod-eq-zero}
use libfev.Queues.Mpmc.Steps.{
  System, idle, pop_loaded, pop_swaps, pop_took, push_loaded, push_swaps, push_took, push_wrote,
  move, silent, reserved, published, taken, Step, Reach, initial, later, init, look, pop_diff,
  push_diff, capacity,
}
use libfev.Queues.Mpmc.Moves.{IsTimely}
use libfev.Queues.Mpmc.Linear.{TimelyRun, Refinement, mpmc_linear}

abbrev values : ℕ → ℕ
values i = 9

abbrev start : System
start = init values 4

abbrev after_push : System
after_push = move start 0 (push_loaded 7 0)

abbrev after_look : System
after_look = move after_push 0 (push_swaps 7 0)

abbrev after_swap : System
after_swap = move (record after_look { tail = 1 }) 0 (push_took 7 0)

abbrev after_write : System
after_write =
    move
      (record after_swap {
        buffer = update after_swap.buffer 0 (record { sequence = 0; value = 7 });
      })
      0 (push_wrote 7 0)

abbrev after_publish : System
after_publish =
    move
      (record after_write {
        buffer = update after_write.buffer 0 (record { sequence = 1; value = 7 });
      })
      0 idle

abbrev after_pop : System
after_pop = move after_publish 1 (pop_loaded 0)

abbrev after_test : System
after_test = move after_pop 1 (pop_swaps 0)

abbrev after_take : System
after_take = move (record after_test { head = 1 }) 1 (pop_took 0)

after_push-Step : Step start silent after_push
after_push-Step = Step.push 0 7 refl

after_look-Step : Step after_push silent after_look
unfolding look push_diff
after_look-Step = Step.push_look 0 7 0 refl

after_swap-Step : Step after_look (reserved 0 7) after_swap
after_swap-Step = Step.push_swap 0 7 0 refl refl

after_write-Step : Step after_swap silent after_write
after_write-Step = Step.write_value 0 7 0 refl

after_publish-Step : Step after_write (published 0 7) after_publish
after_publish-Step = Step.publish 0 7 0 refl

after_pop-Step : Step after_publish silent after_pop
after_pop-Step = Step.pop 1 refl

after_test-Step : Step after_pop silent after_test
unfolding look pop_diff
after_test-Step = Step.pop_look 1 0 refl

after_take-Step : Step after_test (taken 1) after_take
after_take-Step = Step.pop_swap 1 0 refl refl

abbrev run : Reach values 4 after_take
run =
    later (taken 1)
      (later silent
        (later silent
          (later (published 0 7)
            (later silent
              (later (reserved 0 7)
                (later silent (later silent initial after_push-Step) after_look-Step)
                after_swap-Step)
              after_write-Step)
            after_publish-Step)
          after_pop-Step)
        after_test-Step)
      after_take-Step

IsTimely-small : (s : System) → s.tail + capacity s < 2 ^ 31 → IsTimely s
IsTimely-small s lt i p e = omega arith

run-TimelyRun : TimelyRun run
run-TimelyRun = (
  (
    (
      (
        (
          (
            (
              (omega arith, IsTimely-small start (omega arith)),
              IsTimely-small after_push (omega arith),
            ),
            IsTimely-small after_look (omega arith),
          ),
          IsTimely-small after_swap (omega arith),
        ),
        IsTimely-small after_write (omega arith),
      ),
      IsTimely-small after_publish (omega arith),
    ),
    IsTimely-small after_pop (omega arith),
  ),
  IsTimely-small after_test (omega arith),
)

power : 4 ∣ 2 ^ 32
power = dvd_of_mod-eq-zero 4 refl

mpmc_linear_example : Refinement run
mpmc_linear_example = mpmc_linear (omega arith) (omega arith) power run run-TimelyRun
