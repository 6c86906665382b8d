-- ===== src/Mutex.antt =====
-- src/fev_mutex.c on src/fev_waiters_queue_impl.h: any number of fibers that lock and unlock one mutex.
-- Each step makes at most one access to the state word, and the steps interleave in any order; the
-- nodes are touched only inside the critical section of the waiters queue. A deadline can pass, and the
-- timer's allocation can fail, at any moment of a wait.
pub mod Inv
mod Moves
mod Wakes
pub mod Safety
mod Tests
use libfev.Base.{
  ℕ, ◌==◌, ◌≡◌, ◌≢◌, if◌then◌else◌, Bool, true, false, Option, none, some, List, [], ◌∷◌, ◌++◌,
  is_empty, select, update,
}
use libfev.Waiter.{WakeResult}
use libfev.WaitersQueue.{wake_loop, is_set, wait_leave}

-- Where a fiber stands.
pub data Phase : Type 0 where
  idle : Phase
  wants : Phase
  entering : Phase
  waiting : Phase
  expired : Phase
  no_timer : Phase
  lost : Phase
  holding : Phase
  unlocking : Phase
  in_callback : (num_woken : ℕ) → (is_empty : Bool) → Phase

-- `section` is the fiber inside the critical section of the waiters queue.
pub record System : Type 0 where
  pub state : ℕ
  pub nodes : List ℕ
  pub section : Option ℕ
  pub phases : ℕ → Phase

-- A strong compare-exchange: whether it succeeds, and the state that it leaves.
abbrev pub exchange_if : (expected desired state : ℕ) → Bool × ℕ
exchange_if expected desired state = if state == expected then (true, desired) else (false, state)

unfoldable pub try_lock : ℕ → Bool × ℕ
try_lock state = exchange_if 0 1 state

-- The fast path of `fev_mutex_unlock`.
unfoldable pub unlock_fast : ℕ → Bool × ℕ
unlock_fast state = exchange_if 1 0 state

unfoldable pub unlock_callback : (state : ℕ) → (num_woken : ℕ) → (is_empty : Bool) → ℕ
unlock_callback state num_woken is_empty =
    if num_woken == 0 then 0 else if is_empty then 1 else state

-- A fiber whose waiter was told that it is ready. One whose timer could not be allocated returns ENOMEM
-- all the same.
abbrev pub ready : Phase → Phase
ready waiting = holding
ready no_timer = lost
ready p = p

-- `fev_waiter_wake` sets the reason of a waiter in this phase.
abbrev pub accepts : Phase → Bool
accepts waiting = true
accepts no_timer = true
accepts _ = false

-- The waiter's part of the wake-up, for the fibers whose reason was set.
unfoldable pub hand_over : List ℕ → (ℕ → Phase) → ℕ → Phase
hand_over [] phases = phases
hand_over (k ∷ ks) phases = update (hand_over ks phases) k (ready (phases k))

-- After the loop of `fev_waiters_queue_wake`, called by fiber `i`.
unfoldable pub after_wake : (i : ℕ) → (outcome : ℕ → WakeResult) → System → System
unfolding hand_over wake_loop
after_wake i outcome s =
    let r = wake_loop outcome 1 s.nodes 0 in
    record {
      state = s.state;
      nodes = r.left;
      section = some i;
      phases =
          update (hand_over (select (λ k. is_set (outcome k)) r.deleted) s.phases) i
            (in_callback r.num_woken (is_empty r.left));
    }

-- Where a fiber leaves the wait with an error.
abbrev pub leaves : Phase → Bool
leaves expired = true
leaves no_timer = true
leaves lost = true
leaves _ = false

pub data Step (s : System) : System → Type 0 where
  lock :
      (i : ℕ)
      → s.phases i ≡ idle
      → Step s (record s {
        state = (try_lock s.state).1;
        phases = update s.phases i (if (try_lock s.state).0 then holding else wants);
      })
  try :
      (i : ℕ)
      → s.phases i ≡ idle
      → Step s (record s {
        state = (try_lock s.state).1;
        phases = update s.phases i (if (try_lock s.state).0 then holding else idle);
      })
  recheck_free :
      (i : ℕ)
      → s.phases i ≡ wants
      → s.section ≡ none
      → s.state ≡ 0
      → Step s (record s { state = 2; section = some i; phases = update s.phases i entering })
  recheck_held :
      (i : ℕ)
      → s.phases i ≡ wants
      → s.section ≡ none
      → s.state ≢ 0
      → Step s
          (record s { state = 2; nodes = s.nodes ++ i ∷ []; phases = update s.phases i waiting })
  store_locked :
      (i : ℕ)
      → s.phases i ≡ entering
      → Step s (record s { state = 1; section = none; phases = update s.phases i holding })
  expire : (i : ℕ) → s.phases i ≡ waiting → Step s (record s { phases = update s.phases i expired })
  timer_fails :
      (i : ℕ) → s.phases i ≡ waiting → Step s (record s { phases = update s.phases i no_timer })
  leave :
      (i : ℕ)
      → leaves (s.phases i) ≡ true
      → s.section ≡ none
      → Step s (record s { nodes = wait_leave i s.nodes; phases = update s.phases i idle })
  retry :
      (i : ℕ)
      → s.phases i ≡ expired
      → s.section ≡ none
      → Step s (record s { nodes = wait_leave i s.nodes; phases = update s.phases i wants })
  unlock :
      (i : ℕ)
      → s.phases i ≡ holding
      → Step s (record s {
        state = (unlock_fast s.state).1;
        phases = update s.phases i (if (unlock_fast s.state).0 then idle else unlocking);
      })
  wake :
      (i : ℕ)
      → (outcome : ℕ → WakeResult) → s.phases i ≡ unlocking
      → s.section ≡ none
      → ((k : ℕ) → is_set (outcome k) ≡ accepts (s.phases k))
      → Step s (after_wake i outcome s)
  callback :
      (i num : ℕ) (empty : Bool)
      → s.phases i ≡ in_callback num empty
      → Step s (record s {
        state = unlock_callback s.state num empty;
        section = none;
        phases = update s.phases i idle;
      })

-- A mutex after `fev_mutex_init`, with no fiber at work on it.
abbrev pub init : System
init = record { state = 0; nodes = []; section = none; phases = λ i. idle }

pub data Reach : System → Type 0 where
  initial : Reach init
  later : {s t : System} → Reach s → Step s t → Reach t
