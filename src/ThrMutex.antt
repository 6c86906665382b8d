-- ===== src/ThrMutex.antt =====
-- src/fev_thr_mutex_linux.h, src/fev_thr_mutex_linux.c: the mutex of threads on a futex. Any number of
-- threads, whose steps interleave; each step makes one access to `state` or one system call. FUTEX_WAIT
-- sleeps only while the word has the value that it was given, and a sleep can end on its own;
-- FUTEX_WAKE of one wakes up a thread that sleeps, if there is one.
pub mod Inv
pub mod Safety
mod Tests
use libfev.Base.{ℕ, ◌≡◌, ◌≢◌, ◌==◌, if◌then◌else◌, update}

-- Where a thread stands. `holding` owns the mutex.
pub data Phase : Type 0 where
  idle : Phase
  lock_slow : Phase
  swaps : Phase
  waits : Phase
  sleeps : Phase
  holding : Phase
  unlock_slow : Phase

pub record System : Type 0 where
  pub state : ℕ
  pub phases : ℕ → Phase

-- `fev_thr_mutex_lock_slow` after its load, and after its exchange, of what they give.
unfoldable pub loaded : (state : ℕ) → Phase
loaded state = if state == 2 then waits else swaps

unfoldable pub swapped : (state : ℕ) → Phase
swapped state = if state == 0 then holding else waits

-- `fev_thr_mutex_unlock` after its exchange.
unfoldable pub unlocked : (state : ℕ) → Phase
unlocked state = if state == 2 then unlock_slow else idle

abbrev pub move : System → (i : ℕ) → Phase → System
move s i p = record s { phases = update s.phases i p }

pub data Step (s : System) : System → Type 0 where
  -- Also the step of `fev_thr_mutex_try_lock` that succeeds.
  lock :
      (i : ℕ)
      → s.phases i ≡ idle
      → s.state ≡ 0
      → Step s (record s { state = 1; phases = update s.phases i holding })
  -- The weak compare-exchange can fail on any word.
  lock_fails : (i : ℕ) → s.phases i ≡ idle → Step s (move s i lock_slow)
  load : (i : ℕ) → s.phases i ≡ lock_slow → Step s (move s i (loaded s.state))
  swap :
      (i : ℕ)
      → s.phases i ≡ swaps
      → Step s (record s { state = 2; phases = update s.phases i (swapped s.state) })
  futex_sleeps : (i : ℕ) → s.phases i ≡ waits → s.state ≡ 2 → Step s (move s i sleeps)
  futex_differs : (i : ℕ) → s.phases i ≡ waits → s.state ≢ 2 → Step s (move s i swaps)
  interrupted : (i : ℕ) → s.phases i ≡ sleeps → Step s (move s i swaps)
  unlock :
      (i : ℕ)
      → s.phases i ≡ holding
      → Step s (record s { state = 0; phases = update s.phases i (unlocked s.state) })
  wake_one :
      (i k : ℕ)
      → s.phases i ≡ unlock_slow
      → s.phases k ≡ sleeps
      → Step s (move (move s k swaps) i idle)
  wake_nobody :
      (i : ℕ) → s.phases i ≡ unlock_slow → ((k : ℕ) → s.phases k ≢ sleeps) → Step s (move s i idle)

abbrev pub init : System
init = record { state = 0; phases = λ i. idle }

pub data Reach : System → Type 0 where
  initial : Reach init
  later : {s t : System} → Reach s → Step s t → Reach t
