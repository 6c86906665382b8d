-- ===== src/ThrMutex/Safety.antt =====
-- The mutex of threads: one owner, and no thread that sleeps is forgotten.
use libfev.Base.{ℕ, ◌≡◌, ◌≢◌, refl, sym, ap, ◌∙◌, arith, true}
use native.Mathlib.Decide.{ℕ_discrete}
use libfev.ThrMutex.{
  Phase, idle, lock_slow, swaps, waits, sleeps, holding, unlock_slow, System, unlocked, Reach,
}
use libfev.ThrMutex.Inv.{owns, is_asleep, rouses, Held, free, owned, Roused, marked, by, Reach-Inv}

Inv-excludes :
    (s : System) (i j : ℕ)
    → Held s
    → owns (s.phases i) ≡ true
    → owns (s.phases j) ≡ true
    → (i ≡ j) × (s.state ≢ 0)
Inv-excludes s i j (free z f) a b = absurd (cc (sym a ∙ f i))
Inv-excludes s i j (owned w) a b = (sym (this i a) ∙ this j b, w.busy)
  where
    this : (k : ℕ) → owns (s.phases k) ≡ true → w.owner ≡ k
    this k o = elim (ℕ_discrete w.owner k) [
      | yes same ↦ same
      | no ne ↦ absurd (cc (sym o ∙ w.others k ne))
    ]

-- With any number of threads that lock, try to lock and unlock the mutex, at most one holds it, and while
-- one does, the word is not 0, so that the compare-exchange of another lock fails.
pub threads_exclude :
    {s : System} (i j : ℕ)
    → Reach s
    → s.phases i ≡ holding
    → s.phases j ≡ holding
    → (i ≡ j) × (s.state ≢ 0)
threads_exclude {s = s} i j r a b = Inv-excludes s i j (Reach-Inv r).held (ap owns a) (ap owns b)

owner_at : (p : Phase) → owns p ≡ true → p ≡ holding
owner_at holding e = refl
owner_at idle e = absurd (cc e)
owner_at lock_slow e = absurd (cc e)
owner_at swaps e = absurd (cc e)
owner_at waits e = absurd (cc e)
owner_at sleeps e = absurd (cc e)
owner_at unlock_slow e = absurd (cc e)

unlocked_two : (s : System) → s.state ≡ 2 → unlocked s.state ≡ unlock_slow
unfolding unlocked
unlocked_two s two = rw (two) refl

-- A thread from which a sleeper can expect to be woken up.
pub data Wakeable (s : System) : Type 0 where
  unlocking : (k : ℕ) → s.phases k ≡ holding → unlocked s.state ≡ unlock_slow → Wakeable s
  rousing : (k : ℕ) → rouses (s.phases k) ≡ true → Wakeable s

-- While a thread sleeps in the kernel, either a thread holds the mutex whose unlock will wake one up, or
-- a thread is about to wake one up, or a thread is about to store 2 in the word and not asleep.
pub sleepers_served : {s : System} (i : ℕ) → Reach s → s.phases i ≡ sleeps → Wakeable s
sleepers_served {s = s} i r at = served ((Reach-Inv r).awake i (ap is_asleep at)) (Reach-Inv r).held
  where
    served : Roused s → Held s → Wakeable s
    served (by k e) h = rousing k e
    served (marked two) (free z f) = absurd (omega arith)
    served (marked two) (owned w) =
        unlocking w.owner (owner_at (s.phases w.owner) w.owner_owns) (unlocked_two s two)
