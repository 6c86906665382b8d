-- ===== src/Waiter/Safety.antt =====
-- What holds in every reachable state of one wait.
use libfev.Base.{
  ℕ, ◌≡◌, ◌≢◌, ◌⊎◌, inl, inr, refl, sym, arith, Bool, true, false, none, some, ◌||◌, if◌then◌else◌,
  ◌∙◌,
}
use libfev.Waiter.{
  WakeResult, failed, set_only, set_and_wake_up, Post, finished, Wake, start, won, got, leaving,
  ended, Waiter, System, Reach, wait_result,
}
use libfev.Waiter.Inv.{wins, reason_of, is_ended, is_finished, Settled, quiet, settled, Reach-Inv}

-- At most one call of `fev_waiter_wake` sets the reason: all others fail.
pub one_setter :
    {marked : Bool} {old : ℕ} {reasons : ℕ → ℕ} {s : System}
    → Reach marked old reasons s
    → (i j : ℕ) → wins (s.wakers i) ≡ true
    → wins (s.wakers j) ≡ true
    → i ≡ j
one_setter r i j p q = elim (Reach-Inv r) [
  | quiet none_wins v ↦ absurd (ground (arith, none_wins i))
  | settled k only v ↦ omega (arith, only i p, only j q)
]

Settled-once :
    {marked : Bool} {w : Waiter} {b : Bool} {reason : ℕ} {res : WakeResult}
    → Settled marked w (finished b) (ended reason res)
    → (w.wake_reason ≡ reason)
      × ((b ≡ true) × (res ≡ set_only) ⊎ (b ≡ false) × (res ≡ set_and_wake_up))
Settled-once {b = true} {res = failed} v = absurd (ground (arith, v.wins_reason))
Settled-once {b = true} {res = set_only} v = (ground (arith, v.noted, v.reason), inl (refl, refl))
Settled-once {b = true} {res = set_and_wake_up} v = absurd (ground (arith, v.right))
Settled-once {b = false} {res = failed} v = absurd (ground (arith, v.wins_reason))
Settled-once {b = false} {res = set_only} v = absurd (ground (arith, v.seen))
Settled-once {b = false} {res = set_and_wake_up} v =
    (ground (arith, v.noted, v.reason), inr (refl, refl))

Settled-at :
    {marked : Bool} (s : System) {i k : ℕ} {p : Post} {q : Wake}
    → Settled marked s.waiter s.post (s.wakers k)
    → i ≡ k
    → s.post ≡ p
    → s.wakers i ≡ q
    → Settled marked s.waiter p q
Settled-at s v e f g = rw (← f, ← g, e) v

wins-ended : (reason : ℕ) (res : WakeResult) → res ≢ failed → wins (ended reason res) ≡ true
wins-ended reason failed ne = absurd (ne refl)
wins-ended reason set_only ne = refl
wins-ended reason set_and_wake_up ne = refl

Settled-done :
    {marked : Bool} {w : Waiter} (p : Post) (q : Wake)
    → Settled marked w p q
    → is_finished p ≡ true
    → is_ended q ≡ true
    → w.wake_reason ≡ reason_of q
Settled-done (finished b) (ended r res) v e f = (Settled-once v).0
Settled-done (finished b) (start _) v e f = cc
Settled-done (finished b) (won _) v e f = cc
Settled-done (finished b) (got _) v e f = cc
Settled-done (finished b) (leaving _ _) v e f = cc
Settled-done p q v e f = cc

-- When the post operation has finished and a call of `fev_waiter_wake` has set the reason and
-- returned, the fiber is woken up exactly once: by the post operation and the call reports that it
-- only set the reason, or not by the post operation and the call reports that its caller must do it.
-- The reason stored for the fiber is the one that the call was given.
pub woken_once :
    {marked : Bool} {old : ℕ} {reasons : ℕ → ℕ} {s : System}
    → Reach marked old reasons s
    → {b : Bool} {i reason : ℕ} {res : WakeResult} → s.post ≡ finished b
    → s.wakers i ≡ ended reason res
    → res ≢ failed
    → (s.waiter.wake_reason ≡ reason)
      × ((b ≡ true) × (res ≡ set_only) ⊎ (b ≡ false) × (res ≡ set_and_wake_up))
woken_once {s} r {b} {i} {reason} {res} e f ne = elim (Reach-Inv r) [
  | quiet none_wins v ↦ absurd (ne (ground (arith, none_wins i)))
  | settled k only v ↦ Settled-once (Settled-at s v (only i (rw f (wins-ended reason res ne))) e f)
]

no_spin :
    {n reason : ℕ} (a b : Bool)
    → (if a || b then none else some n) ≡ some reason
    → (a ≡ false) × (b ≡ false) × (n ≡ reason)
no_spin a b e = ground arith

-- When `fev_waiter_wait` stops spinning on a waiter whose `wait_for_wake` was set before the wait, as
-- `fev_waiters_queue_wait` does, the post operation and the call of `fev_waiter_wake` that set
-- the reason have both made their last access to the waiter, and the fiber gets the reason of that
-- call.
pub wait_returns :
    {old : ℕ} {reasons : ℕ → ℕ} {s : System}
    → Reach true old reasons s
    → {reason : ℕ} → wait_result s.waiter ≡ some reason
    → (is_finished s.post ≡ true)
      × ((i : ℕ)
          → wins (s.wakers i) ≡ true
          → (is_ended (s.wakers i) ≡ true) × (reason_of (s.wakers i) ≡ reason))
      × ((k : ℕ) × (wins (s.wakers k) ≡ true))
unfolding wait_result
wait_returns {s} r {reason} e = elim (Reach-Inv r) [
  | quiet none_wins v ↦ absurd (ground (arith, e, v.for_wake))
  | settled k only v ↦
      let over = no_spin s.waiter.wait_for_post s.waiter.wait_for_wake e in
      let post_done : is_finished s.post ≡ true = ground (arith, over.0, v.for_post) in
      let wake_done : is_ended (s.wakers k) ≡ true = ground (arith, over.1, v.for_wake) in
      let value = Settled-done s.post (s.wakers k) v post_done wake_done in
      (post_done, λ i p. rw (only i p) (wake_done, sym value ∙ over.2), (k, v.wins_reason))
]
