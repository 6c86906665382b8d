-- ===== src/FiberJoin/Safety.antt =====
-- The memory of a fiber lives as long as someone uses it, and a join gets the value of the exit.
use libfev.Base.{
  ℕ, ◌+◌, ◌==◌, ◌≡◌, inl, inr, refl, ap, ◌∙◌, arith, Bool, true, false, not, ◌&&◌, none, some,
  Bool-cases,
}
use libfev.FiberJoin.{
  Target, running, exited, releasing, gone, Holder, no_handle, holds, waiting, woken, reads, joined,
  detaching, returned, refused, System, release, join_round, join_start, detach_start, Step,
  created, Reach, initial, later,
}

-- How many references the fiber itself has, and how many the handle is.
abbrev pub own_refs : Target → ℕ
own_refs gone = 0
own_refs _ = 1

abbrev pub handle_refs : Holder → ℕ
handle_refs no_handle = 0
handle_refs (returned value) = 0
handle_refs _ = 1

abbrev is_over : Target → Bool
is_over running = false
is_over _ = true

-- The notification is still to come.
abbrev will_notify : Target → Bool
will_notify running = true
will_notify exited = true
will_notify _ = false

abbrev pub stack_is_freed : Target → (user_stack : Bool) → Bool
stack_is_freed releasing user_stack = not user_stack
stack_is_freed gone user_stack = not user_stack
stack_is_freed _ user_stack = false

-- What the flags are, by where the fiber with the handle stands.
abbrev pub knows : Holder → System → Bool
knows no_handle s = true
knows holds s = s.joinable && not s.joining
knows waiting s = s.joinable && will_notify s.target
knows woken s = s.joinable && s.dead
knows reads s = s.dead
knows (joined value) s = s.dead && value == s.return_value
knows detaching s = true
knows (returned none) s = true
knows (returned (some value)) s = s.dead && value == s.return_value
knows refused s = false

pub record Inv (s : System) : Type 0 where
  pub refs : s.ref_count ≡ own_refs s.target + handle_refs s.holder
  pub freed : s.freed ≡ (s.ref_count == 0)
  pub fault : s.fault ≡ false
  pub dead : s.dead ≡ is_over s.target
  pub stack : s.stack_freed ≡ stack_is_freed s.target s.user_stack
  pub known : knows s.holder s ≡ true

join-Inv : (s : System) → Inv s → s.holder ≡ holds → Inv (join_start s)
unfolding join_start join_round
join-Inv s v e =
    let fresh : s.joining ≡ false = ground arith in
    let live : s.joinable ≡ true = ground arith in
    elim (Bool-cases s.dead) [
      | inl d ↦
          rw (fresh, live, d)
            (record {
              refs = ground arith;
              freed = ground arith;
              fault = ground arith;
              dead = ground arith;
              stack = ground arith;
              known = ground arith;
            })
      | inr d ↦
          rw (fresh, live, d)
            (record {
              refs = ground arith;
              freed = ground arith;
              fault = ground arith;
              dead = ground arith;
              stack = ground arith;
              known = ground arith;
            })
    ]

join_again-Inv : (s : System) → Inv s → s.holder ≡ woken → Inv (join_round s)
unfolding join_round
join_again-Inv s v e =
    let live : s.joinable ≡ true = ground arith in
    let over : s.dead ≡ true = ground arith in
    rw (live, over)
      (record {
        refs = ground arith;
        freed = ground arith;
        fault = ground arith;
        dead = ground arith;
        stack = ground arith;
        known = ground arith;
      })

detach-Inv : (s : System) → Inv s → s.holder ≡ holds → Inv (detach_start s)
unfolding detach_start
detach-Inv s v e =
    let live : s.joinable ≡ true = ground arith in
    rw live (record {
      refs = ground arith;
      freed = ground arith;
      fault = ground arith;
      dead = ground arith;
      stack = ground arith;
      known = ground arith;
    })

pub Step-Inv : {s t : System} → Step s t → Inv s → Inv t
unfolding release
Step-Inv {s = s} (Step.exit value e) v = record {
  refs = ground arith;
  freed = ground arith;
  fault = ground arith;
  dead = ground arith;
  stack = ground arith;
  known = ground arith;
}
Step-Inv {s = s} (Step.notify e) v = record {
  refs = ground arith;
  freed = ground arith;
  fault = ground arith;
  dead = ground arith;
  stack = ground arith;
  known = ground arith;
}
Step-Inv {s = s} (Step.free_stack e) v = record {
  refs = ground arith;
  freed = ground arith;
  fault = ground arith;
  dead = ground arith;
  stack = ground arith;
  known = ground arith;
}
Step-Inv {s = s} (Step.exit_release e) v = record {
  refs = ground arith;
  freed = ground arith;
  fault = ground arith;
  dead = ground arith;
  stack = ground arith;
  known = ground arith;
}
Step-Inv {s = s} (Step.read_value e) v = record {
  refs = ground arith;
  freed = ground arith;
  fault = ground arith;
  dead = ground arith;
  stack = ground arith;
  known = ground arith;
}
Step-Inv {s = s} (Step.join_release value e) v = record {
  refs = ground arith;
  freed = ground arith;
  fault = ground arith;
  dead = ground arith;
  stack = ground arith;
  known = ground arith;
}
Step-Inv {s = s} (Step.detach_release e) v = record {
  refs = ground arith;
  freed = ground arith;
  fault = ground arith;
  dead = ground arith;
  stack = ground arith;
  known = ground arith;
}
Step-Inv {s = s} (Step.join e) v = join-Inv s v e
Step-Inv {s = s} (Step.join_again e) v = join_again-Inv s v e
Step-Inv {s = s} (Step.detach e) v = detach-Inv s v e

pub Reach-Inv : {detached user_stack : Bool} {s : System} → Reach detached user_stack s → Inv s
unfolding created
Reach-Inv {detached = true} initial = record {
  refs = refl;
  freed = refl;
  fault = refl;
  dead = refl;
  stack = refl;
  known = refl;
}
Reach-Inv {detached = false} initial = record {
  refs = refl;
  freed = refl;
  fault = refl;
  dead = refl;
  stack = refl;
  known = refl;
}
Reach-Inv (later r step) = Step-Inv step (Reach-Inv r)

-- However the end of a fiber and the join or the detach of its handle interleave, no freed memory is
-- used, and the assertion on the count holds; the memory is freed exactly when the fiber has ended and
-- the handle is given up; a stack that the caller gave is never freed, and an allocated one when the
-- fiber has left it; the flags are as `knows` has them: a join that still waits is going to be notified,
-- and a join that has returned has the value of the exit.
pub fiber_end_lem :
    {detached user_stack : Bool} {s : System}
    → Reach detached user_stack s
    → (s.fault ≡ false)
      × (s.freed ≡ (own_refs s.target + handle_refs s.holder == 0))
      × (s.stack_freed ≡ stack_is_freed s.target s.user_stack)
      × (knows s.holder s ≡ true)
fiber_end_lem r =
    let v = Reach-Inv r in (v.fault, v.freed ∙ ap (λ n. n == 0) v.refs, v.stack, v.known)
