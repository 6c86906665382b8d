-- ===== src/Mutex/Safety.antt =====
-- The mutex excludes, and no fiber sleeps on a free mutex.
use libfev.Base.{
  ℕ, ◌==◌, ◌≡◌, ◌⊎◌, inl, inr, refl, arith, true, false, elem, if◌then◌else◌, Bool-cases, update,
}
use libfev.Mutex.{
  Phase, idle, wants, waiting, expired, no_timer, holding, unlocking, System, Step, Reach, initial,
  later, try_lock, unlock_fast,
}
use libfev.Mutex.Inv.{owns, Inv, Change-Inv}
use libfev.Mutex.Moves.{
  same-Change, swap-Change, recheck_free-Change, recheck_held-Change, store_locked-Change,
  leave-Change, callback-Change,
}
use libfev.Mutex.Wakes.{wake-Inv}

try_lock-Inv :
    (s : System) (i : ℕ) (p : Phase)
    → Inv s
    → s.phases i ≡ idle
    → (p ≡ idle) ⊎ (p ≡ wants)
    → Inv (record s {
      state = (try_lock s.state).1;
      phases = update s.phases i (if (try_lock s.state).0 then holding else p);
    })
unfolding try_lock
try_lock-Inv s i p v e to = elim (Bool-cases (s.state == 0)) [
  | inl t ↦ rw t (
      Change-Inv s i (record s { state = 1 }) holding v
        (swap-Change s i v holding 1 (ground arith) (inr (ground arith)) (λ z. absurd (omega arith))
          refl refl refl))
  | inr f ↦ rw f (
      Change-Inv s i s p v (
        same-Change s i v p (λ o. absurd (ground arith)) (λ o. absurd (ground arith))
          (λ o. absurd (ground arith)) (ground arith) (ground arith)))
]

unlock_fast-Inv :
    (s : System) (i : ℕ)
    → Inv s
    → s.phases i ≡ holding
    → Inv (record s {
      state = (unlock_fast s.state).1;
      phases = update s.phases i (if (unlock_fast s.state).0 then idle else unlocking);
    })
unfolding unlock_fast
unlock_fast-Inv s i v e = elim (Bool-cases (s.state == 1)) [
  | inl t ↦ rw t (
      Change-Inv s i (record s { state = 0 }) idle v
        (swap-Change s i v idle 0 (ground arith) (inl (ground arith)) (λ z. refl) refl refl refl))
  | inr f ↦ rw f (
      Change-Inv s i s unlocking v (
        same-Change s i v unlocking (λ o. ground arith) (λ o. refl) (λ o. absurd (ground arith))
          refl refl))
]

pub Step-Inv : {s t : System} → Step s t → Inv s → Inv t
Step-Inv {s = s} (Step.lock i e) v = try_lock-Inv s i wants v e (inr refl)
Step-Inv {s = s} (Step.try i e) v = try_lock-Inv s i idle v e (inl refl)
Step-Inv {s = s} (Step.recheck_free i e out z) v =
    Change-Inv s i _ _ v (recheck_free-Change s i v out z)
Step-Inv {s = s} (Step.recheck_held i e out nz) v =
    Change-Inv s i _ _ v (recheck_held-Change s i v out)
Step-Inv {s = s} (Step.store_locked i e) v = Change-Inv s i _ _ v (store_locked-Change s i v e)
Step-Inv {s = s} (Step.expire i e) v = Change-Inv s i s expired v (
    same-Change s i v expired (λ o. absurd (ground arith)) (λ o. absurd (ground arith))
      (λ o. absurd (ground arith)) refl refl)
Step-Inv {s = s} (Step.timer_fails i e) v = Change-Inv s i s no_timer v (
    same-Change s i v no_timer (λ o. absurd (ground arith)) (λ o. absurd (ground arith))
      (λ o. absurd (ground arith)) refl refl)
Step-Inv {s = s} (Step.leave i l out) v =
    Change-Inv s i _ idle v (leave-Change s i v idle l out (inl refl))
Step-Inv {s = s} (Step.retry i e out) v =
    Change-Inv s i _ wants v (leave-Change s i v wants (ground arith) out (inr refl))
Step-Inv {s = s} (Step.unlock i e) v = unlock_fast-Inv s i v e
Step-Inv {s = s} (Step.wake i outcome e out agree) v = wake-Inv s i outcome v e out agree
Step-Inv {s = s} (Step.callback i num empty e) v =
    Change-Inv s i _ idle v (callback-Change s i v num empty e)

pub Reach-Inv : {s : System} → Reach s → Inv s
Reach-Inv initial = record {
  one = λ i j p q. absurd (ground arith);
  free = λ z i. refl;
  queued = inl refl;
  listed = λ i p. absurd (ground arith);
  inside = λ i p. absurd (ground arith);
  bare = λ i p. absurd (ground arith);
}
Reach-Inv (later r step) = Step-Inv step (Reach-Inv r)

-- Mutual exclusion: in every reachable state, two fibers that own the mutex are the same fiber, and
-- while one owns it, `try_lock` fails.
pub mutual_exclusion :
    {s : System}
    → Reach s
    → (i j : ℕ) → owns (s.phases i) ≡ true
    → owns (s.phases j) ≡ true
    → (i ≡ j) × ((try_lock s.state).0 ≡ false)
unfolding try_lock
mutual_exclusion {s = s} r i j p q =
    let v = Reach-Inv r in
    (
      v.one i j p q,
      elim (Bool-cases (s.state == 0)) [
        | inl t ↦ absurd (ground (arith, p, v.free (ground arith) i))
        | inr f ↦ rw f refl
      ],
    )

-- In every reachable state in which a fiber sleeps on the list, the state word is 2: the fast path of
-- unlock fails, and so the owner goes through the list.
pub sleepers_seen :
    {s : System}
    → Reach s
    → (i : ℕ) → s.phases i ≡ waiting
    → (s.state ≡ 2) × (elem i s.nodes ≡ true) × ((unlock_fast s.state).0 ≡ false)
unfolding unlock_fast
sleepers_seen {s = s} r i e =
    let v = Reach-Inv r in
    let m = v.listed i (ground arith) in
    let two : s.state ≡ 2 = elim v.queued [ inl q ↦ absurd (ground (arith, m, q)) | inr q ↦ q ] in
    (two, m, ground arith)
