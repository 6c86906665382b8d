-- ===== src/Waiter.antt =====
-- src/fev_waiter_intf.h, src/fev_waiter_impl.h: one wait on a `struct fev_waiter`. The fiber has
-- switched to the scheduler, which runs `fev_waiter_enable_wake_ups` (the post operation) once, while
-- any number of handlers run `fev_waiter_wake`. Each access to the waiter is one step, and the steps
-- of the threads interleave in any order; the accesses are taken to be sequentially consistent.
pub mod Inv
pub mod Safety
mod Tests
use libfev.Base.{
  ℕ, ◌<◌, ◌≡◌, ◌≢◌, Bool, true, false, update, ◌||◌, if◌then◌else◌, Option, none, some,
}

-- `enum fev_waiter_wake_result`
pub data WakeResult : Type 0 where
  failed set_only set_and_wake_up : WakeResult

-- Where the post operation stands. `release` and `finished` remember whether it wakes up the fiber.
pub data Post : Type 0 where
  enable : Post
  check : Post
  claim : (reason : ℕ) → Post
  note : (reason : ℕ) → Post
  release : (wakes : Bool) → Post
  finished : (wakes : Bool) → Post

-- Where a call of `fev_waiter_wake` stands.
pub data Wake : Type 0 where
  start : (reason : ℕ) → Wake
  won : (reason : ℕ) → Wake
  got : (reason : ℕ) → Wake
  leaving : (reason : ℕ) → (wakes : Bool) → Wake
  ended : (reason : ℕ) → WakeResult → Wake

-- The result of a call that has set the reason.
abbrev pub result_of : (wakes : Bool) → WakeResult
result_of true = set_and_wake_up
result_of false = set_only

-- The waiter, and the threads that work on it. The reasons are the numbers of
-- `enum fev_waiter_wake_reason`: 0 is FEV_WAITER_NONE.
pub record Waiter : Type 0 where
  pub reason : ℕ
  pub do_wake : Bool
  pub wake_reason : ℕ
  pub wait_for_post : Bool
  pub wait_for_wake : Bool

pub record System : Type 0 where
  pub waiter : Waiter
  pub post : Post
  pub wakers : ℕ → Wake

-- One step of the post operation.
pub data PostStep (w : Waiter) : Post → Waiter → Post → Type 0 where
  store_do_wake : PostStep w enable (record w { do_wake = true }) check
  load_none : w.reason ≡ 0 → PostStep w check w (release false)
  load_some : w.reason ≢ 0 → PostStep w check w (claim w.reason)
  take : {r : ℕ} → w.do_wake ≡ true → PostStep w (claim r) (record w { do_wake = false }) (note r)
  miss :
      {r : ℕ}
      → w.do_wake ≡ false
      → PostStep w (claim r) (record w { do_wake = false }) (release false)
  store_reason : {r : ℕ} → PostStep w (note r) (record w { wake_reason = r }) (release true)
  store_post : {b : Bool} → PostStep w (release b) (record w { wait_for_post = false }) (finished b)

-- One step of a call of `fev_waiter_wake`.
pub data WakeStep (w : Waiter) : Wake → Waiter → Wake → Type 0 where
  cas_win : {r : ℕ} → 0 < r → w.reason ≡ 0 → WakeStep w (start r) (record w { reason = r }) (won r)
  cas_lose : {r : ℕ} → 0 < r → w.reason ≢ 0 → WakeStep w (start r) w (ended r failed)
  take : {r : ℕ} → w.do_wake ≡ true → WakeStep w (won r) (record w { do_wake = false }) (got r)
  miss :
      {r : ℕ}
      → w.do_wake ≡ false
      → WakeStep w (won r) (record w { do_wake = false }) (leaving r false)
  store_reason : {r : ℕ} → WakeStep w (got r) (record w { wake_reason = r }) (leaving r true)
  store_wake :
      {r : ℕ} {b : Bool}
      → WakeStep w (leaving r b) (record w { wait_for_wake = false }) (ended r (result_of b))

pub data Step (s : System) : System → Type 0 where
  post_step :
      {w : Waiter} {p : Post}
      → PostStep s.waiter s.post w p
      → Step s (record s { waiter = w; post = p })
  wake_step :
      (i : ℕ) {w : Waiter} {p : Wake}
      → WakeStep s.waiter (s.wakers i) w p
      → Step s (record s { waiter = w; wakers = update s.wakers i p })

-- The end of `fev_waiter_wait`: `none` while the fiber spins (both bytes of `wait` must be 0), then the
-- reason that it returns.
unfoldable pub wait_result : Waiter → Option ℕ
wait_result w = if w.wait_for_post || w.wait_for_wake then none else some w.wake_reason

-- What the caller of `fev_waiter_wait` and `fev_waiter_wait` itself have stored before the switch;
-- `wait_for_wake` is set by `fev_waiters_queue_wait`, and is 0 in the waiter of a socket. `old` is what
-- `wake_reason` held, and `reasons` what the handlers will pass.
abbrev pub init : (wait_for_wake : Bool) (old : ℕ) (reasons : ℕ → ℕ) → System
init wait_for_wake old reasons = record {
  waiter = record {
    reason = 0;
    do_wake = false;
    wake_reason = old;
    wait_for_post = true;
    wait_for_wake = wait_for_wake;
  };
  post = enable;
  wakers = λ i. start (reasons i);
}

pub data Reach (wait_for_wake : Bool) (old : ℕ) (reasons : ℕ → ℕ) : System → Type 0 where
  initial : Reach wait_for_wake old reasons (init wait_for_wake old reasons)
  later :
      {s t : System}
      → Reach wait_for_wake old reasons s
      → Step s t
      → Reach wait_for_wake old reasons t
