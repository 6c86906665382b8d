-- ===== src/Ilock.antt =====
-- src/fev_ilock.c and src/fev_ilock_impl.h: any number of fibers that lock and unlock one internal lock.
-- Each step makes at most one access to the state word, and the steps interleave in any order; the
-- list is touched only under the inner lock `lock`, and so taking the inner lock is one step with the
-- first access under it. The caller of fev_ilock_unlock wakes the fiber that it returns at some later
-- moment (`resume`).
pub mod Inv
mod Moves
mod Next
pub mod Safety
pub mod Inner
pub mod Served
mod Tests
use libfev.Base.{
  ℕ, ◌==◌, ◌≡◌, ◌≢◌, if◌then◌else◌, Bool, true, false, Option, none, some, List, [], ◌∷◌, ◌++◌,
  is_empty, update,
}

-- Where a fiber stands. `appended` is on the list and still runs; `waiting` has switched to the scheduler;
-- `handed` was returned by an unlock and does not run yet. `fault` is a failed assertion, or a read
-- through NULL.
pub data Phase : Type 0 where
  idle : Phase
  lock_slow : Phase
  entering : Phase
  appended : Phase
  waiting : Phase
  handed : Phase
  holding : Phase
  unlock_slow : Phase
  fault : Phase

-- `section` is the fiber that holds the inner lock.
pub record System : Type 0 where
  pub state : ℕ
  pub waiters : List ℕ
  pub section : Option ℕ
  pub phases : ℕ → Phase

-- The strong compare-exchange of `fev_ilock_unlock`: whether it succeeds, and the state that it leaves.
unfoldable pub unlock_fast : (state : ℕ) → Bool × ℕ
unlock_fast state = if state == 1 then (true, 0) else (false, state)

-- `fev_ilock_unlock_slow` after its assertion on the state, by the list's first fiber.
unfoldable pub remove_first : (i : ℕ) → List ℕ → System → System
remove_first i [] s = record s { phases = update s.phases i fault }
remove_first i (fiber ∷ rest) s = record s {
  state = if is_empty rest then 1 else s.state;
  waiters = rest;
  phases = update (update s.phases fiber handed) i idle;
}

-- `fev_ilock_unlock_slow`, from taking the inner lock to releasing it.
unfoldable pub unlock_waiters : (i : ℕ) → System → System
unfolding remove_first
unlock_waiters i s =
    let removed = remove_first i s.waiters s in
    if s.state == 2 then removed else record s { phases = update s.phases i fault }

-- The end of `fev_ilock_lock_slow`, with its assertion.
unfoldable pub resumed : (state : ℕ) → Phase
resumed state = if state == 0 then fault else holding

pub data Step (s : System) : System → Type 0 where
  lock :
      (i : ℕ)
      → s.phases i ≡ idle
      → s.state ≡ 0
      → Step s (record s { state = 1; phases = update s.phases i holding })
  -- The weak compare-exchange can fail on any state.
  lock_fails :
      (i : ℕ) → s.phases i ≡ idle → Step s (record s { phases = update s.phases i lock_slow })
  exchange_free :
      (i : ℕ)
      → s.phases i ≡ lock_slow
      → s.section ≡ none
      → s.state ≡ 0
      → Step s (record s { state = 2; section = some i; phases = update s.phases i entering })
  store_locked :
      (i : ℕ)
      → s.phases i ≡ entering
      → Step s (record s { state = 1; section = none; phases = update s.phases i holding })
  exchange_held :
      (i : ℕ)
      → s.phases i ≡ lock_slow
      → s.section ≡ none
      → s.state ≢ 0
      → Step s (record s {
        state = 2;
        waiters = s.waiters ++ i ∷ [];
        section = some i;
        phases = update s.phases i appended;
      })
  lock_post :
      (i : ℕ)
      → s.phases i ≡ appended
      → Step s (record s { section = none; phases = update s.phases i waiting })
  unlock :
      (i : ℕ)
      → s.phases i ≡ holding
      → Step s (record s {
        state = (unlock_fast s.state).1;
        phases = update s.phases i (if (unlock_fast s.state).0 then idle else unlock_slow);
      })
  unlock_next : (i : ℕ) → s.phases i ≡ unlock_slow → s.section ≡ none → Step s (unlock_waiters i s)
  resume :
      (i : ℕ)
      → s.phases i ≡ handed
      → Step s (record s { phases = update s.phases i (resumed s.state) })

-- A lock after `fev_ilock_init`, with no fiber at work on it.
abbrev pub init : System
init = record { state = 0; waiters = []; section = none; phases = λ i. idle }

pub data Reach : System → Type 0 where
  initial : Reach init
  later : {s t : System} → Reach s → Step s t → Reach t
