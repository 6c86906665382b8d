-- ===== src/FiberJoin.antt =====
-- src/fev_fiber.c: the end of a fiber against the fiber that has its handle and joins or detaches it, with
-- their steps interleaved. The sections under `fiber->mutex` are one step each, and waiting on
-- `fiber->cond` ends only with its notification. `fault` tells that freed memory was used, or that the
-- assertion in `fev_fiber_release` failed.
pub mod Safety
mod Tests
use libfev.Base.{ℕ, ◌-◌, ◌==◌, ◌≡◌, if◌then◌else◌, Bool, true, false, not, ◌||◌, Option, none, some}

-- Where the fiber itself stands in `fev_fiber_exit` and `fev_fiber_exit_post`.
pub data Target : Type 0 where
  running : Target
  exited : Target
  notified : Target
  releasing : Target
  gone : Target

-- Where the fiber with the handle stands in `fev_fiber_join` or `fev_fiber_detach`.
pub data Holder : Type 0 where
  no_handle : Holder
  holds : Holder
  waiting : Holder
  woken : Holder
  reads : Holder
  joined : (value : ℕ) → Holder
  detaching : Holder
  returned : (value : Option ℕ) → Holder
  refused : Holder

pub record System : Type 0 where
  pub joinable : Bool
  pub joining : Bool
  pub dead : Bool
  pub ref_count : ℕ
  pub return_value : ℕ
  pub user_stack : Bool
  pub stack_freed : Bool
  pub freed : Bool
  pub fault : Bool
  pub target : Target
  pub holder : Holder

-- An access to the memory of the fiber.
abbrev pub touch : System → System
touch s = record s { fault = s.fault || s.freed }

unfoldable pub release : System → System
release s = record (touch s) {
  ref_count = s.ref_count - 1;
  freed = if s.ref_count == 1 then true else s.freed;
  fault = (s.fault || s.freed) || s.ref_count == 0;
}

-- One round of the loop of `fev_fiber_join`.
unfoldable pub join_round : System → System
join_round s =
    if not s.joinable
    then record (touch s) { holder = refused }
    else if s.dead
    then record (touch s) { holder = reads }
    else record (touch s) { holder = waiting }

-- `fev_fiber_join` up to its first wait.
unfoldable pub join_start : System → System
unfolding join_round
join_start s =
    if s.joining
    then record (touch s) { holder = refused }
    else join_round (record s { joining = true })

unfoldable pub detach_start : System → System
detach_start s =
    if not s.joinable
    then record (touch s) { holder = refused }
    else record (touch s) { joinable = false; holder = detaching }

-- The notification wakes up the fiber that waits.
abbrev pub wake : Holder → Holder
wake waiting = woken
wake h = h

pub data Step (s : System) : System → Type 0 where
  exit :
      (return_value : ℕ)
      → s.target ≡ running
      → Step s (record (touch s) { return_value = return_value; dead = true; target = exited })
  notify :
      s.target ≡ exited → Step s (record (touch s) { target = notified; holder = wake s.holder })
  free_stack :
      s.target ≡ notified
      → Step s (record (touch s) { stack_freed = not s.user_stack; target = releasing })
  exit_release : s.target ≡ releasing → Step s (record (release s) { target = gone })
  join : s.holder ≡ holds → Step s (join_start s)
  join_again : s.holder ≡ woken → Step s (join_round s)
  read_value : s.holder ≡ reads → Step s (record (touch s) { holder = joined s.return_value })
  join_release :
      (value : ℕ)
      → s.holder ≡ joined value
      → Step s (record (release s) { holder = returned (some value) })
  detach : s.holder ≡ holds → Step s (detach_start s)
  detach_release : s.holder ≡ detaching → Step s (record (release s) { holder = returned none })

-- A fiber after `fev_fiber_create`.
unfoldable pub created : (detached user_stack : Bool) → System
created detached user_stack = record {
  joinable = not detached;
  joining = false;
  dead = false;
  ref_count = if detached then 1 else 2;
  return_value = 0;
  user_stack = user_stack;
  stack_freed = false;
  freed = false;
  fault = false;
  target = running;
  holder = if detached then no_handle else holds;
}

pub data Reach (detached user_stack : Bool) : System → Type 0 where
  initial : Reach detached user_stack (created detached user_stack)
  later : {s t : System} → Reach detached user_stack s → Step s t → Reach detached user_stack t
