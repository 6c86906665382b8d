-- ===== src/Ilock/Inner.antt =====
-- Runs of the internal lock, and the inner lock: the fiber that has it can go on until it is free.
use libfev.Base.{
  ℕ, ◌≡◌, ◌⊎◌, inl, inr, refl, sym, ap, ◌∙◌, arith, Bool, true, false, Option, none, some, List, [],
  ◌∷◌, is_empty, update, update_ne, subst,
}
use libfev.Ilock.{
  Phase, lock_slow, entering, appended, waiting, holding, System, Step, Reach, initial, later,
  remove_first, unlock_waiters,
}
use libfev.Ilock.Inv.{is_inside}
use libfev.Ilock.Safety.{Reach-Inv}

-- The fiber that has the inner lock is inside.
abbrev Occupied : System → Type 0
Occupied s = (k : ℕ) → s.section ≡ some k → is_inside (s.phases k) ≡ true

same-Occupied :
    (s : System) (i : ℕ) (p : Phase)
    → Occupied s
    → is_inside (s.phases i) ≡ false
    → (k : ℕ) → s.section ≡ some k
    → is_inside (update s.phases i p k) ≡ true
same-Occupied s i p o out k e =
    subst (λ q. is_inside q ≡ true)
      (sym (update_ne s.phases i k p (λ q. ground (arith, q, out, o k e)))) (o k e)

own-Occupied :
    (s : System) (i : ℕ) (p : Phase)
    → is_inside p ≡ true
    → (k : ℕ) → some i ≡ some k
    → is_inside (update s.phases i p k) ≡ true
own-Occupied s i p e k q = ground arith

section-kept : (s : System) (i : ℕ) (xs : List ℕ) → (remove_first i xs s).section ≡ s.section
unfolding remove_first
section-kept s i [] = refl
section-kept s i (x ∷ xs) = refl

Step-Occupied : {s t : System} → Step s t → Occupied s → Occupied t
unfolding unlock_waiters
Step-Occupied {s = s} (Step.lock i e z) o = same-Occupied s i holding o (ap is_inside e)
Step-Occupied {s = s} (Step.lock_fails i e) o = same-Occupied s i lock_slow o (ap is_inside e)
Step-Occupied {s = s} (Step.exchange_free i e out z) o = own-Occupied s i entering refl
Step-Occupied {s = s} (Step.store_locked i e) o = λ k q. absurd (ground arith)
Step-Occupied {s = s} (Step.exchange_held i e out nz) o = own-Occupied s i appended refl
Step-Occupied {s = s} (Step.lock_post i e) o = λ k q. absurd (ground arith)
Step-Occupied {s = s} (Step.unlock i e) o = same-Occupied s i _ o (ap is_inside e)
Step-Occupied {s = s} (Step.unlock_next i e out) o =
    λ k q. absurd (ground (arith, q, out, section-kept s i s.waiters))
Step-Occupied {s = s} (Step.resume i e) o = same-Occupied s i _ o (ap is_inside e)

Reach-Occupied : {s : System} → Reach s → Occupied s
Reach-Occupied initial = λ k q. absurd (ground arith)
Reach-Occupied (later r step) = Step-Occupied step (Reach-Occupied r)

-- A step by which a fiber comes for the lock, and does not have it yet or gets it past the list.
abbrev pub arrives : {s t : System} → Step s t → Bool
arrives (Step.lock i e z) = true
arrives (Step.lock_fails i e) = true
arrives (Step.exchange_free i e out z) = true
arrives (Step.exchange_held i e out nz) = true
arrives (Step.store_locked i e) = false
arrives (Step.lock_post i e) = false
arrives (Step.unlock i e) = false
arrives (Step.unlock_next i e out) = false
arrives (Step.resume i e) = false

-- Steps of the fibers that are at work on the lock; no fiber comes for it.
pub data Run (s : System) : System → Type 0 where
  done : Run s s
  more : {t u : System} → Run s t → (step : Step t u) → arrives step ≡ false → Run s u

pub join : {s t u : System} → Run s t → Run t u → Run s u
join r done = r
join r (more q step e) = more (join r q) step e

pub Run-Reach : {s t : System} → Reach s → Run s t → Reach t
Run-Reach r done = r
Run-Reach r (more q step e) = later (Run-Reach r q) step

-- Steps after which fiber `j` still waits, the list is the same, and nobody has the inner lock.
pub record Calm (j : ℕ) (s t : System) : Type 0 where
  pub run : Run s t
  pub out : t.section ≡ none
  pub list : t.waiters ≡ s.waiters
  pub waits : t.phases j ≡ waiting

module _ (j : ℕ) where
  inside-cases : (p : Phase) → is_inside p ≡ true → (p ≡ entering) ⊎ (p ≡ appended)
  inside-cases p e = ground arith

  leave_section :
      (s : System) (k : ℕ)
      → Reach s
      → s.phases j ≡ waiting
      → is_empty s.waiters ≡ false
      → s.section ≡ some k
      → (t : System) × Calm j s t
  leave_section s k r w some_wait e = elim (inside-cases (s.phases k) (Reach-Occupied r k e)) [
    | inl a ↦ absurd (ground (arith, a, some_wait, (Reach-Inv r).fit k))
    | inr a ↦ (
      record s { section = none; phases = update s.phases k waiting },
      record {
        run = more done (Step.lock_post k a) refl;
        out = refl;
        list = refl;
        waits = update_ne s.phases k j waiting (λ q. ground (arith, q, a, w)) ∙ w;
      },
    )
  ]

  pub calm :
      (s : System) (at : Option ℕ)
      → s.section ≡ at
      → Reach s
      → s.phases j ≡ waiting
      → is_empty s.waiters ≡ false
      → (t : System) × Calm j s t
  calm s none e r w some_wait = (s, record { run = done; out = e; list = refl; waits = w })
  calm s (some k) e r w some_wait = leave_section s k r w some_wait e
