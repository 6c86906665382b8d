-- ===== src/ThrMutex/Inv.antt =====
-- The invariant of the mutex of threads: who holds it, and what wakes up those that sleep.
use libfev.Base.{
  ℕ, ◌≡◌, ◌≢◌, inl, inr, refl, sym, ap, ◌∙◌, arith, ◌==◌, Bool, true, false, update, update-all,
  update_self, update_ne, Bool-cases,
}
use native.Mathlib.Decide.{ℕ_discrete}
use libfev.ThrMutex.{
  Phase, idle, lock_slow, swaps, waits, sleeps, holding, unlock_slow, System, loaded, swapped,
  unlocked, move, Step, Reach, initial, later,
}

abbrev pub owns : Phase → Bool
owns holding = true
owns _ = false

abbrev pub is_asleep : Phase → Bool
is_asleep sleeps = true
is_asleep _ = false

-- A thread that is about to wake up another one, or to store 2, so that the next unlock wakes one up.
abbrev pub rouses : Phase → Bool
rouses swaps = true
rouses unlock_slow = true
rouses _ = false

pub record Owned (s : System) : Type 0 where
  pub owner : ℕ
  pub busy : s.state ≢ 0
  pub owner_owns : owns (s.phases owner) ≡ true
  pub others : (j : ℕ) → owner ≢ j → owns (s.phases j) ≡ false

pub data Held (s : System) : Type 0 where
  free : s.state ≡ 0 → ((j : ℕ) → owns (s.phases j) ≡ false) → Held s
  owned : Owned s → Held s

pub data Roused (s : System) : Type 0 where
  marked : s.state ≡ 2 → Roused s
  by : (k : ℕ) → rouses (s.phases k) ≡ true → Roused s

pub record Inv (s : System) : Type 0 where
  pub held : Held s
  pub awake : (j : ℕ) → is_asleep (s.phases j) ≡ true → Roused s

module _ (s : System) (i state : ℕ) (p : Phase) where
  next : System
  next = record { state = state; phases = update s.phases i p }

  -- `i` neither gets the mutex nor gives it back.
  still :
      (s.state ≡ 0 → state ≡ 0)
      → (s.state ≢ 0 → state ≢ 0)
      → owns p ≡ owns (s.phases i)
      → Held s
      → Held next
  unfolding next
  still zero_kept busy_kept same (free z f) =
      free (zero_kept z)
        (update-all (λ j q. owns q ≡ false) s.phases i p (λ j ne. f j) (same ∙ f i))
  still zero_kept busy_kept same (owned o) = owned (record {
    owner = o.owner;
    busy = busy_kept o.busy;
    owner_owns =
        update-all (λ j q. owns (s.phases j) ≡ true → owns q ≡ true) s.phases i p (λ j ne w. w)
          (λ w. same ∙ w) o.owner o.owner_owns;
    others =
        update-all (λ j q. o.owner ≢ j → owns q ≡ false) s.phases i p (λ j ne. o.others j)
          (λ ne. same ∙ o.others i ne);
  })

  gets : s.state ≡ 0 → state ≢ 0 → owns p ≡ true → Held s → Held next
  unfolding next
  gets z busy o (free _ f) = owned (record {
    owner = i;
    busy = busy;
    owner_owns = rw (update_self s.phases i p) o;
    others =
        update-all (λ j q. i ≢ j → owns q ≡ false) s.phases i p (λ j ne _. f j)
          (λ ne. absurd (ne refl));
  })
  gets z busy o (owned w) = absurd (w.busy z)

  drops : state ≡ 0 → owns (s.phases i) ≡ true → owns p ≡ false → Held s → Held next
  unfolding next
  drops z o n (free _ f) = absurd (grind (arith, f i))
  drops z o n (owned w) =
      free z
        (update-all (λ j q. owns q ≡ false) s.phases i p (λ j ne. w.others j (λ e. ne (this e))) n)
    where
      this : {j : ℕ} → w.owner ≡ j → i ≡ j
      this e = elim (ℕ_discrete w.owner i) [
        | yes same ↦ sym same ∙ e
        | no ne ↦ absurd (cc (sym o ∙ w.others i ne))
      ]

  -- No thread falls asleep, and what woke up the others is still there.
  keeps_awake :
      (s.state ≡ 2 → state ≡ 2)
      → rouses (s.phases i) ≡ false
      → is_asleep p ≡ false
      → ((j : ℕ) → is_asleep (s.phases j) ≡ true → Roused s)
      → (j : ℕ) → is_asleep (next.phases j) ≡ true
      → Roused next
  unfolding next
  keeps_awake kept calm here a =
      update-all (λ j q. is_asleep q ≡ true → Roused next) s.phases i p (λ j ne w. again (a j w))
        (λ w. absurd (grind arith))
    where
      again : Roused s → Roused next
      again (marked two) = marked (kept two)
      again (by k r) = by k (
          update-all (λ j q. rouses (s.phases j) ≡ true → rouses q ≡ true) s.phases i p
            (λ j ne w. w) (λ w. absurd (grind arith)) k r)

  roused : rouses p ≡ true → Roused next
  unfolding next
  roused r = by i (rw (update_self s.phases i p) r)

-- A step of `i` that leaves the word as it is.
module _ (s : System) (i : ℕ) (v : Inv s) where
  moves :
      (q p : Phase)
      → s.phases i ≡ q
      → owns p ≡ owns q
      → ((j : ℕ) → is_asleep ((move s i p).phases j) ≡ true → Roused (move s i p))
      → Inv (move s i p)
  unfolding next
  moves q p at same awake = record {
    held = still s i s.state p (λ z. z) (λ ne. ne) (same ∙ ap owns (sym at)) v.held;
    awake = awake;
  }

  load-Inv : s.phases i ≡ lock_slow → Inv (move s i (loaded s.state))
  unfolding loaded next
  load-Inv at = elim (Bool-cases (s.state == 2)) [
    | inl two ↦ rw (two) (
        moves lock_slow waits at refl
          (keeps_awake s i s.state waits (λ z. z) (rw at refl) refl v.awake))
    | inr other ↦ rw (other) (moves lock_slow swaps at refl (λ j w. roused s i s.state swaps refl))
  ]

  swap-Inv :
      s.phases i ≡ swaps
      → Inv (record s { state = 2; phases = update s.phases i (swapped s.state) })
  unfolding swapped next
  swap-Inv at = elim (Bool-cases (s.state == 0)) [
    | inl zero ↦ rw (zero) (record {
      held = gets s i 2 holding (ground arith) (omega arith) refl v.held;
      awake = λ j w. marked refl;
    })
    | inr busy ↦ rw (busy) (record {
      held = still s i 2 waits (λ z. absurd (ground arith)) (λ ne. omega arith) (rw at refl) v.held;
      awake = λ j w. marked refl;
    })
  ]

  unlock-Inv :
      s.phases i ≡ holding
      → Inv (record s { state = 0; phases = update s.phases i (unlocked s.state) })
  unfolding unlocked next
  unlock-Inv at = elim (Bool-cases (s.state == 2)) [
    | inl two ↦ rw (two) (record {
      held = drops s i 0 unlock_slow refl (rw at refl) refl v.held;
      awake = λ j w. roused s i 0 unlock_slow refl;
    })
    | inr other ↦ rw (other) (record {
      held = drops s i 0 idle refl (rw at refl) refl v.held;
      awake = keeps_awake s i 0 idle (λ z. absurd (ground arith)) (rw at refl) refl v.awake;
    })
  ]

  lock-Inv :
      s.phases i ≡ idle
      → s.state ≡ 0
      → Inv (record s { state = 1; phases = update s.phases i holding })
  unfolding next
  lock-Inv at z = record {
    held = gets s i 1 holding z (omega arith) refl v.held;
    awake = keeps_awake s i 1 holding (λ two. absurd (omega arith)) (rw at refl) refl v.awake;
  }

asleep_only : (p : Phase) → is_asleep p ≡ true → p ≡ sleeps
asleep_only sleeps e = refl
asleep_only idle e = absurd (cc e)
asleep_only lock_slow e = absurd (cc e)
asleep_only swaps e = absurd (cc e)
asleep_only waits e = absurd (cc e)
asleep_only holding e = absurd (cc e)
asleep_only unlock_slow e = absurd (cc e)

Step-Inv : {s t : System} → Inv s → Step s t → Inv t
unfolding next
Step-Inv {s = s} v (Step.lock i at z) = lock-Inv s i v at z
Step-Inv {s = s} v (Step.lock_fails i at) =
    moves s i v idle lock_slow at refl
      (keeps_awake s i s.state lock_slow (λ z. z) (rw at refl) refl v.awake)
Step-Inv {s = s} v (Step.load i at) = load-Inv s i v at
Step-Inv {s = s} v (Step.swap i at) = swap-Inv s i v at
Step-Inv {s = s} v (Step.futex_sleeps i at two) =
    moves s i v waits sleeps at refl (λ j w. marked two)
Step-Inv {s = s} v (Step.futex_differs i at ne) =
    moves s i v waits swaps at refl (λ j w. roused s i s.state swaps refl)
Step-Inv {s = s} v (Step.interrupted i at) =
    moves s i v sleeps swaps at refl (λ j w. roused s i s.state swaps refl)
Step-Inv {s = s} v (Step.unlock i at) = unlock-Inv s i v at
Step-Inv {s = s} v (Step.wake_one i k at asleep) =
    let r = moves s k v sleeps swaps asleep refl (λ j w. roused s k s.state swaps refl) in
    let t = move s k swaps in
    let ne : k ≢ i = λ e. cc in
    moves t i r unlock_slow idle (update_ne s.phases k i swaps ne ∙ at) refl (λ j w.
      by k
        (ap rouses (update_ne t.phases i k idle (λ e. ne (sym e)) ∙ update_self s.phases k swaps)))
Step-Inv {s = s} v (Step.wake_nobody i at nobody) = moves s i v unlock_slow idle at refl (
    update-all (λ j q. is_asleep q ≡ true → Roused (move s i idle)) s.phases i idle
      (λ j ne w. absurd (nobody j (asleep_only (s.phases j) w))) (λ w. absurd (cc w)))

pub Reach-Inv : {s : System} → Reach s → Inv s
Reach-Inv initial = record { held = free refl (λ j. refl); awake = λ j w. absurd (cc w) }
Reach-Inv (later r step) = Step-Inv (Reach-Inv r) step
