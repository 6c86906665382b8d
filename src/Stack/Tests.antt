-- ===== src/Stack/Tests.antt =====
-- src/fev_simple_mpmc_stack.h: thread 0 has pushed the node 5, and thread 1 has read it.
use libfev.Base.{ℕ, ◌^◌, ◌<◌, refl, arith, true, false, Option, none, some, update}
use libfev.Stack.{
  idle, push_counted, push_loaded, push_linked, pop_counted, pop_loaded, pop_read, System, silent,
  pushed, popped, round, round_label, Step, init, Reach, initial, later,
}
use libfev.Stack.Linear.{IsTimely, TimelyRun, Simulated, stack_linear}

abbrev cells : ℕ → Option ℕ
cells i = some 9

abbrev s0 : System
s0 = init cells

abbrev s1 : System
s1 = record s0 { out = update s0.out 5 false; phases = update s0.phases 0 (push_counted 5 0) }

abbrev s2 : System
s2 = record s1 { phases = update s1.phases 0 (push_loaded 5 none 0) }

abbrev s3 : System
s3 = record s2 { next = update s2.next 5 none; phases = update s2.phases 0 (push_linked 5 none 0) }

abbrev s4 : System
s4 = record s3 { top = some 5; count = 1; phases = update s3.phases 0 idle }

abbrev s5 : System
s5 = record s4 { phases = update s4.phases 1 (pop_counted 1) }

abbrev s6 : System
s6 = record s5 { phases = update s5.phases 1 (pop_loaded 5 1) }

abbrev s7 : System
s7 = record s6 { phases = update s6.phases 1 (pop_read 5 none 1) }

abbrev s8 : System
s8 = record s7 {
  top = none;
  count = 2;
  out = update s7.out 5 true;
  phases = update s7.phases 1 idle;
}

IsTimely-small : (s : System) → s.count < 2 ^ 64 → IsTimely s
IsTimely-small s lt i count e = omega arith

Step-load : Step s5 silent s6
unfolding round round_label
Step-load = Step.pop_load 1 1 refl

abbrev run : Reach cells s7
run =
    later {s = s6} silent
      (later {s = s5} silent
        (later {s = s4} silent
          (later {s = s3} (pushed 5)
            (later {s = s2} silent
              (later {s = s1} silent (later {s = s0} silent initial (Step.push 0 5 refl refl))
                (Step.push_load 0 5 0 refl))
              (Step.link 0 5 none 0 refl))
            (Step.push_swap 0 5 none 0 refl refl refl))
          (Step.pop 1 refl))
        Step-load)
      (Step.read_next 1 5 1 refl)

run-TimelyRun : TimelyRun run
run-TimelyRun = (
  (
    (
      (
        (
          ((omega arith, IsTimely-small s0 (omega arith)), IsTimely-small s1 (omega arith)),
          IsTimely-small s2 (omega arith),
        ),
        IsTimely-small s3 (omega arith),
      ),
      IsTimely-small s4 (omega arith),
    ),
    IsTimely-small s5 (omega arith),
  ),
  IsTimely-small s6 (omega arith),
)

Step-swap : Step s7 (popped (some 5)) s8
Step-swap = Step.pop_swap 1 5 none 1 refl refl refl

stack_linear_example : Simulated s7 (popped (some 5)) s8
stack_linear_example = stack_linear run run-TimelyRun (IsTimely-small s7 (omega arith)) Step-swap
