-- ===== src/Ilock/Safety.antt =====
-- An internal lock excludes, its assertions hold, and it goes to the fibers in the order of the list.
use libfev.Base.{ℕ, ◌≡◌, ◌≢◌, inl, refl, arith, true, none}
use libfev.Ilock.{
  lock_slow, unlock_slow, fault, System, Step, Reach, initial, later, unlock_waiters,
}
use libfev.Ilock.Inv.{owns, One, Inv, not_fault, nobody_if_free}
use libfev.Ilock.Moves.{
  lock-Inv, quiet-Inv, exchange_free-Inv, store_locked-Inv, exchange_held-Inv, lock_post-Inv,
  unlock-Inv, resume-Inv,
}
use libfev.Ilock.Next.{HandedOver, unlock_waiters-Inv, unlock_waiters-HandedOver}

pub Step-Inv : {s t : System} → Step s t → Inv s → Inv t
Step-Inv {s = s} (Step.lock i e z) v = lock-Inv s i v e z
Step-Inv {s = s} (Step.lock_fails i e) v =
    quiet-Inv s i v lock_slow (ground (arith, e)) refl (ground (arith, e)) refl
Step-Inv {s = s} (Step.exchange_free i e out z) v = exchange_free-Inv s i v e out z
Step-Inv {s = s} (Step.store_locked i e) v = store_locked-Inv s i v e
Step-Inv {s = s} (Step.exchange_held i e out nz) v = exchange_held-Inv s i v e out nz
Step-Inv {s = s} (Step.lock_post i e) v = lock_post-Inv s i v e
Step-Inv {s = s} (Step.unlock i e) v = unlock-Inv s i v e
Step-Inv {s = s} (Step.unlock_next i e out) v = unlock_waiters-Inv s i v e out
Step-Inv {s = s} (Step.resume i e) v = resume-Inv s i v e

pub Reach-Inv : {s : System} → Reach s → Inv s
Reach-Inv initial = record {
  one = λ i j p q. absurd (ground arith);
  fit = λ i. refl;
  held = inl (refl, refl);
  inside = λ i p. absurd (ground arith);
  counted = λ i. refl;
}
Reach-Inv (later r step) = Step-Inv step (Reach-Inv r)

-- At most one fiber owns the lock, the state word of an owned lock is not 0, and no assertion has failed.
pub record Exclusion (s : System) : Type 0 where
  pub one : One s.phases
  pub busy : (i : ℕ) → owns (s.phases i) ≡ true → s.state ≢ 0
  pub no_fault : (i : ℕ) → s.phases i ≢ fault

-- In every reachable state, two fibers that own the internal lock are the same fiber, and while one owns
-- it, the state word is not 0. No assertion of the lock has failed, and no fiber has read through NULL,
-- whether the lock is owned or not.
pub ilock_excludes : {s : System} → Reach s → Exclusion s
ilock_excludes {s = s} r =
    let v = Reach-Inv r in
    record {
      one = v.one;
      busy = λ i p z. ground (arith, p, nobody_if_free s i v z i);
      no_fault = λ i. not_fault s i v i;
    }

-- When a fiber that unlocks has the inner lock, the list of waiters is not empty. It hands the lock over
-- to the list's first fiber, which had switched to the scheduler; the others stay in order, no other fiber moves,
-- and the state word tells whether there are any waiters.
pub ilock_hands_over :
    {s : System}
    → Reach s
    → (i : ℕ) → s.phases i ≡ unlock_slow
    → s.section ≡ none
    → HandedOver s i (unlock_waiters i s)
ilock_hands_over r i unlocks out = unlock_waiters-HandedOver _ i (Reach-Inv r) unlocks out
