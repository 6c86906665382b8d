-- ===== src/Cond.antt =====
-- src/fev_cond.c on src/fev_waiters_queue_impl.h: any number of fibers that wait on one condition variable,
-- with or without a deadline, and notify it, interleaved with the users of its mutex. The mutex is taken
-- here by its contract, which Mutex shows: at most one fiber owns it. A deadline can pass, and the timer's
-- allocation can fail, at any moment of a wait.
pub mod Inv
pub mod Safety
mod Tests
use libfev.Base.{ℕ, ◌≡◌, Bool, true, false, Option, none, some, List, [], ◌∷◌, ◌++◌, select, update}
use libfev.Waiter.{WakeResult}
use libfev.WaitersQueue.{Woken, wake_loop, is_set, wait_leave}

-- Where a fiber stands. `holding` owns the mutex; `unlocked` is inside `recheck`, past the unlock; `relocks`
-- has been woken up. `failed` is a wait that has returned an error.
pub data Phase : Type 0 where
  idle : Phase
  holding : Phase
  wants : Phase
  unlocked : Phase
  waiting : Phase
  expired : Phase
  no_timer : Phase
  lost : Phase
  relocks : Phase
  failed : Phase

-- `owner` is the fiber that owns the mutex, `section` the one in the critical section of the queue.
pub record System : Type 0 where
  pub owner : Option ℕ
  pub nodes : List ℕ
  pub section : Option ℕ
  pub phases : ℕ → Phase

-- A fiber whose waiter was told that it is ready.
abbrev pub ready : Phase → Phase
ready waiting = relocks
ready no_timer = lost
ready p = p

-- `fev_waiter_wake` sets the reason of a waiter in this phase.
abbrev pub accepts : Phase → Bool
accepts waiting = true
accepts no_timer = true
accepts _ = false

-- Where a fiber leaves the wait with an error.
abbrev pub leaves : Phase → Bool
leaves expired = true
leaves no_timer = true
leaves lost = true
leaves _ = false

unfoldable pub tell : List ℕ → (ℕ → Phase) → ℕ → Phase
tell [] phases = phases
tell (k ∷ ks) phases = update (tell ks phases) k (ready (phases k))

-- The nodes whose reason a wake-up sets.
abbrev pub takers : (outcome : ℕ → WakeResult) → Woken → List ℕ
takers outcome r = select (λ k. is_set (outcome k)) r.deleted

-- `fev_waiters_queue_wake`, called by `fev_cond_notify_one` with 1 and by `fev_cond_notify_all` with the
-- greatest number.
unfoldable pub notify : (outcome : ℕ → WakeResult) → (max_waiters : ℕ) → System → System
unfolding tell wake_loop
notify outcome max_waiters s =
    let r = wake_loop outcome max_waiters s.nodes 0 in
    record s { nodes = r.left; phases = tell (takers outcome r) s.phases }

pub data Step (s : System) : System → Type 0 where
  lock :
      (i : ℕ)
      → s.phases i ≡ idle
      → s.owner ≡ none
      → Step s (record s { owner = some i; phases = update s.phases i holding })
  unlock :
      (i : ℕ)
      → s.phases i ≡ holding
      → Step s (record s { owner = none; phases = update s.phases i idle })
  wait : (i : ℕ) → s.phases i ≡ holding → Step s (record s { phases = update s.phases i wants })
  recheck :
      (i : ℕ)
      → s.phases i ≡ wants
      → s.section ≡ none
      → Step s (record s { owner = none; section = some i; phases = update s.phases i unlocked })
  append :
      (i : ℕ)
      → s.phases i ≡ unlocked
      → Step s (record s {
        nodes = s.nodes ++ i ∷ [];
        section = none;
        phases = update s.phases i waiting;
      })
  expire : (i : ℕ) → s.phases i ≡ waiting → Step s (record s { phases = update s.phases i expired })
  timer_fails :
      (i : ℕ) → s.phases i ≡ waiting → Step s (record s { phases = update s.phases i no_timer })
  -- With ENOMEM or ETIMEDOUT: the mutex is not locked again.
  leave :
      (i : ℕ)
      → leaves (s.phases i) ≡ true
      → s.section ≡ none
      → Step s (record s { nodes = wait_leave i s.nodes; phases = update s.phases i failed })
  -- With EAGAIN.
  spurious :
      (i : ℕ)
      → s.phases i ≡ expired
      → s.section ≡ none
      → Step s (record s { nodes = wait_leave i s.nodes; phases = update s.phases i relocks })
  relock :
      (i : ℕ)
      → s.phases i ≡ relocks
      → s.owner ≡ none
      → Step s (record s { owner = some i; phases = update s.phases i holding })
  relock_fails :
      (i : ℕ) → s.phases i ≡ relocks → Step s (record s { phases = update s.phases i failed })
  notify_waiters :
      (outcome : ℕ → WakeResult) (max_waiters : ℕ)
      → s.section ≡ none
      → ((k : ℕ) → is_set (outcome k) ≡ accepts (s.phases k))
      → Step s (notify outcome max_waiters s)

-- A condition variable after `fev_cond_init`, and a free mutex.
abbrev pub init : System
init = record { owner = none; nodes = []; section = none; phases = λ i. idle }

pub data Reach : System → Type 0 where
  initial : Reach init
  later : {s t : System} → Reach s → Step s t → Reach t
