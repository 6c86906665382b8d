-- ===== src/FiberJoin/Tests.antt =====
-- src/fev_fiber.c: a fiber is joined while it runs, and exits with the value 5.
use libfev.Base.{◌+◌, ◌==◌, ◌≡◌, refl, true, false}
use libfev.FiberJoin.{
  exited, notified, joined, System, touch, join_round, join_start, wake, Step, created, Reach,
  initial, later,
}
use libfev.FiberJoin.Safety.{own_refs, handle_refs, stack_is_freed, knows, fiber_end_lem}

abbrev joining : System
joining = join_start (created false false)

abbrev dying : System
dying = record (touch joining) { return_value = 5; dead = true; target = exited }

abbrev told : System
told = record (touch dying) { target = notified; holder = wake dying.holder }

abbrev reading : System
reading = join_round told

abbrev got : System
got = record (touch reading) { holder = joined reading.return_value }

got-Reach : Reach false false got
unfolding join_start join_round created
got-Reach =
    later
      (later (later (later (later initial (Step.join refl)) (Step.exit 5 refl)) (Step.notify refl))
        (Step.join_again refl))
      (Step.read_value refl)

got_test : got.holder ≡ joined 5
unfolding join_start join_round created
got_test = refl

fiber_end_lem_example :
    (got.fault ≡ false)
    × (got.freed ≡ (own_refs got.target + handle_refs got.holder == 0))
    × (got.stack_freed ≡ stack_is_freed got.target got.user_stack)
    × (knows got.holder got ≡ true)
fiber_end_lem_example = fiber_end_lem got-Reach
