-- ===== src/Waiter/Inv.antt =====
-- The wake-up right: once the post operation has set `do_wake`, exactly one of the flag, the post
-- operation and the handler that set the reason has it.
use libfev.Base.{
  ℕ, ◌+◌, ◌<◌, ◌≡◌, ◌≢◌, refl, sym, subst, update_self, update_ne, arith, Bool, true, false, not,
  ◌&&◌,
}
use native.Mathlib.Decide.{ℕ_discrete}
use libfev.Waiter.{
  failed, set_only, set_and_wake_up, Post, enable, claim, note, release, finished, Wake, start, won,
  got, leaving, ended, Waiter, System, PostStep, WakeStep, Step, post_step, wake_step, Reach,
  initial, later,
}

-- The call has set the reason.
abbrev pub wins : Wake → Bool
wins (start _) = false
wins (won _) = true
wins (got _) = true
wins (leaving _ _) = true
wins (ended _ failed) = false
wins (ended _ _) = true

abbrev pub reason_of : Wake → ℕ
reason_of (start r) = r
reason_of (won r) = r
reason_of (got r) = r
reason_of (leaving r _) = r
reason_of (ended r _) = r

abbrev pub is_ended : Wake → Bool
is_ended (ended _ _) = true
is_ended _ = false

abbrev pub is_finished : Post → Bool
is_finished (finished _) = true
is_finished _ = false

-- who has the wake-up right
abbrev flag : Bool → ℕ
flag true = 1
flag false = 0

abbrev wake_right : Wake → ℕ
wake_right (got _) = 1
wake_right (leaving _ true) = 1
wake_right (ended _ set_and_wake_up) = 1
wake_right _ = 0

abbrev post_right : Post → ℕ
post_right (note _) = 1
post_right (release b) = flag b
post_right (finished b) = flag b
post_right _ = 0

abbrev rights : Post → ℕ
rights enable = 0
rights _ = 1

-- The post operation leaves without the right.
abbrev gave_up : Post → Bool
gave_up (release b) = not b
gave_up (finished b) = not b
gave_up _ = false

-- The handler found `do_wake` not set.
abbrev skipped : Wake → Bool
skipped (leaving _ false) = true
skipped (ended _ set_only) = true
skipped _ = false

abbrev PostReason : Post → ℕ → Type 0
PostReason (claim r) reason = r ≡ reason
PostReason (note r) reason = r ≡ reason
PostReason _ _ = Unit

abbrev Noted : Wake → Post → ℕ → ℕ → Type 0
Noted (leaving _ true) _ r w = w ≡ r
Noted (ended _ set_and_wake_up) _ r w = w ≡ r
Noted _ (release true) r w = w ≡ r
Noted _ (finished true) r w = w ≡ r
Noted _ _ _ _ = Unit

-- `marked` is whether the caller has stored 1 in `wait_for_wake` before the wait.
module _ (marked : Bool) where
  -- While no handler has set the reason.
  pub record Quiet (w : Waiter) (p : Post) : Type 0 where
    pub reason : w.reason ≡ 0
    pub right : flag w.do_wake ≡ rights p
    pub none_post : post_right p ≡ 0
    pub posting : PostReason p 0
    pub no_claim : (r : ℕ) → p ≢ claim r
    pub for_wake : w.wait_for_wake ≡ marked
    pub for_post : w.wait_for_post ≡ not (is_finished p)

  -- After a handler, which stands at `q`, has set the reason.
  pub record Settled (w : Waiter) (p : Post) (q : Wake) : Type 0 where
    pub wins_reason : wins q ≡ true
    pub positive : 0 < w.reason
    pub reason : w.reason ≡ reason_of q
    pub right : flag w.do_wake + wake_right q + post_right p ≡ rights p
    pub posting : PostReason p w.reason
    pub seen : gave_up p && skipped q ≡ false
    pub noted : Noted q p w.reason w.wake_reason
    pub for_wake : w.wait_for_wake ≡ not (is_ended q) && marked
    pub for_post : w.wait_for_post ≡ not (is_finished p)

  pub data Inv (s : System) : Type 0 where
    quiet : ((i : ℕ) → wins (s.wakers i) ≡ false) → Quiet s.waiter s.post → Inv s
    settled :
        (k : ℕ)
        → ((i : ℕ) → wins (s.wakers i) ≡ true → i ≡ k)
        → Settled s.waiter s.post (s.wakers k)
        → Inv s

  Quiet-post : {w w' : Waiter} {p p' : Post} → PostStep w p w' p' → Quiet w p → Quiet w' p'
  Quiet-post PostStep.store_do_wake v = ground arith
  Quiet-post (PostStep.load_none e) v = ground arith
  Quiet-post (PostStep.load_some e) v = ground arith
  Quiet-post (PostStep.take {r} e) v = absurd (v.no_claim r refl)
  Quiet-post (PostStep.miss {r} e) v = absurd (v.no_claim r refl)
  Quiet-post PostStep.store_reason v = ground arith
  Quiet-post PostStep.store_post v = ground arith

  Settled-post :
      {w w' : Waiter} {p p' : Post} (q : Wake)
      → PostStep w p w' p'
      → Settled w p q
      → Settled w' p' q
  Settled-post q PostStep.store_do_wake v = ground arith
  Settled-post q (PostStep.load_none e) v = ground arith
  Settled-post q (PostStep.load_some e) v = ground arith
  Settled-post q (PostStep.take e) v = ground arith
  Settled-post q (PostStep.miss e) v = ground arith
  Settled-post q PostStep.store_reason v = ground arith
  Settled-post q PostStep.store_post v = ground arith

  -- A step of the handler that has set the reason.
  Settled-wake :
      {w w' : Waiter} (p : Post) {q q' : Wake}
      → WakeStep w q w' q'
      → Settled w p q
      → Settled w' p q'
  Settled-wake p (WakeStep.cas_win pos e) v = ground arith
  Settled-wake p (WakeStep.cas_lose pos e) v = ground arith
  Settled-wake p (WakeStep.take e) v = ground arith
  Settled-wake p (WakeStep.miss e) v = ground arith
  Settled-wake p WakeStep.store_reason v = ground arith
  Settled-wake p WakeStep.store_wake v = ground arith

  -- A step of a handler that has not set the reason: it leaves the waiter alone, unless it sets it now.
  pub data Outside (w w' : Waiter) (p : Post) (q' : Wake) : Type 0 where
    same : w' ≡ w → wins q' ≡ false → Outside w w' p q'
    winner : w.reason ≡ 0 → (Quiet w p → Settled w' p q') → Outside w w' p q'

  Quiet-reason : {w : Waiter} (p : Post) (r : ℕ) → Quiet w p → PostReason p r
  Quiet-reason (claim r') r v = absurd (v.no_claim r' refl)
  Quiet-reason (note r') r v = absurd (omega (arith, v.none_post))
  Quiet-reason p r v = tt

  Outside-step :
      {w w' : Waiter} (p : Post) {q q' : Wake}
      → WakeStep w q w' q'
      → wins q ≡ false
      → Outside w w' p q'
  Outside-step p (WakeStep.cas_win {r} pos e) v = winner e (λ u. ground (arith, Quiet-reason p r u))
  Outside-step p (WakeStep.cas_lose pos e) v = same refl refl
  Outside-step p (WakeStep.take e) v = cc
  Outside-step p (WakeStep.miss e) v = cc
  Outside-step p WakeStep.store_reason v = cc
  Outside-step p WakeStep.store_wake v = cc

  -- Every step keeps the invariant.
  pub Step-Inv : {s t : System} → Step s t → Inv s → Inv t
  Step-Inv (post_step st) (quiet none_wins v) = quiet none_wins (Quiet-post st v)
  Step-Inv (post_step st) (settled k only v) = settled k only (Settled-post _ st v)
  Step-Inv {s} (wake_step i {w} {p} st) (quiet none_wins v) =
      elim (Outside-step s.post st (none_wins i)) [
        | same e f ↦ quiet (λ j. ground (arith, none_wins j)) (rw e v)
        | winner e f ↦ settled i (λ j. ground (arith, none_wins j)) (rw update_self (f v))
      ]
  Step-Inv {s} (wake_step i {w} {p} st) (settled k only v) = elim (ℕ_discrete i k) [
    | yes e ↦
        settled i (λ j. ground (arith, only j))
          (rw update_self
            (Settled-wake s.post st (subst (λ j. Settled s.waiter s.post (s.wakers j)) (sym e) v)))
    | no ne ↦
        let out : wins (s.wakers i) ≡ false = ground (arith, only i) in
        elim (Outside-step s.post st out) [
          | same e f ↦
              settled k (λ j. ground (arith, only j)) (rw (update_ne s.wakers i k p ne, e) v)
          | winner e f ↦ absurd (omega (arith, v.positive))
        ]
  ]

pub Reach-Inv :
    {marked : Bool} {old : ℕ} {reasons : ℕ → ℕ} {s : System}
    → Reach marked old reasons s
    → Inv marked s
Reach-Inv {marked} initial = quiet (λ i. refl) (ground arith)
Reach-Inv {marked} (later r st) = Step-Inv marked st (Reach-Inv r)
