-- ===== src/Cond/Safety.antt =====
-- Which fibers a notification reaches, and that the mutex excludes.
use libfev.Base.{
  ℕ, ◌≡◌, ◌⊎◌, inl, inr, refl, ap, arith, Bool, true, false, Option, none, some, List, [], ◌∷◌,
  ◌++◌, elem, length, update, elem-append_left, elem-append_last,
}
use libfev.WaitersQueue.Picked.{Picked, wake_loop_lem}
use libfev.Cond.{
  Phase, idle, holding, wants, unlocked, waiting, expired, no_timer, lost, relocks, failed, System,
  takers, notify, Step, Reach, initial, later,
}
use libfev.Cond.Inv.{owns, is_inside, Inv, Change-Inv, quiet-Inv, leave-Inv, told-Inv}

append-Inv :
    (s : System) (i : ℕ)
    → Inv s
    → s.phases i ≡ unlocked
    → Inv
        (record s { nodes = s.nodes ++ i ∷ []; section = none; phases = update s.phases i waiting })
append-Inv s i v e =
    Change-Inv s i (record s { nodes = s.nodes ++ i ∷ []; section = none }) waiting v
      (record {
        owner = λ w. absurd (ground arith);
        others_own = inl refl;
        joins = λ w. elem-append_last i s.nodes;
        keeps = λ j ne m. elem-append_left j s.nodes (i ∷ []) m;
        enters = λ w. absurd (ground arith);
        alone = inr (inr (v.inside i (ap is_inside e)));
      })

recheck-Inv :
    (s : System) (i : ℕ)
    → Inv s
    → s.phases i ≡ wants
    → s.section ≡ none
    → Inv (record s { owner = none; section = some i; phases = update s.phases i unlocked })
recheck-Inv s i v e out =
    Change-Inv s i (record s { owner = none; section = some i }) unlocked v
      (record {
        owner = λ w. absurd (ground arith);
        others_own = inr (inr (v.owned i (ap owns e)));
        joins = λ w. absurd (ground arith);
        keeps = λ j ne m. m;
        enters = λ w. refl;
        alone = inr (inl out);
      })

no_owner : (p : Phase) {owner : Option ℕ} {i : ℕ} → owns p ≡ false → owns p ≡ true → owner ≡ some i
no_owner p f t = absurd (ground (arith, f, t))

pub Step-Inv : {s t : System} → Step s t → Inv s → Inv t
unfolding notify
Step-Inv {s = s} (Step.lock i e free) v =
    quiet-Inv s i (some i) holding v (λ o. refl) (inr (inl free)) refl refl
Step-Inv {s = s} (Step.unlock i e) v =
    quiet-Inv s i none idle v (no_owner idle refl) (inr (inr (v.owned i (ap owns e)))) refl refl
Step-Inv {s = s} (Step.wait i e) v =
    quiet-Inv s i s.owner wants v (λ o. v.owned i (ap owns e)) (inl refl) refl refl
Step-Inv {s = s} (Step.recheck i e out) v = recheck-Inv s i v e out
Step-Inv {s = s} (Step.append i e) v = append-Inv s i v e
Step-Inv {s = s} (Step.expire i e) v =
    quiet-Inv s i s.owner expired v (no_owner expired refl) (inl refl) refl refl
Step-Inv {s = s} (Step.timer_fails i e) v =
    quiet-Inv s i s.owner no_timer v (no_owner no_timer refl) (inl refl) refl refl
Step-Inv {s = s} (Step.leave i l out) v = leave-Inv s i failed v refl refl refl
Step-Inv {s = s} (Step.spurious i e out) v = leave-Inv s i relocks v refl refl refl
Step-Inv {s = s} (Step.relock i e free) v =
    quiet-Inv s i (some i) holding v (λ o. refl) (inr (inl free)) refl refl
Step-Inv {s = s} (Step.relock_fails i e) v =
    quiet-Inv s i s.owner failed v (no_owner failed refl) (inl refl) refl refl
Step-Inv {s = s} (Step.notify_waiters outcome max_waiters out agree) v =
    told-Inv s v outcome max_waiters agree _ (wake_loop_lem outcome max_waiters s.nodes 0)

pub Reach-Inv : {s : System} → Reach s → Inv s
Reach-Inv initial = record {
  owned = λ i p. absurd (ground arith);
  listed = λ i p. absurd (ground arith);
  inside = λ i p. absurd (ground arith);
}
Reach-Inv (later r step) = Step-Inv step (Reach-Inv r)

-- The fiber has unlocked the mutex in a wait, and nothing has ended the wait.
abbrev pub is_waiting : Phase → Bool
is_waiting unlocked = true
is_waiting waiting = true
is_waiting _ = false

-- What a notification of at most `max_waiters` waiters does to a waiting fiber. Fibers that were woken up
-- lock the mutex again, but for those whose timer could not be allocated.
pub data Notified (i max_waiters : ℕ) (takers : List ℕ) (t : System) : Type 0 where
  reached : t.phases i ≡ relocks → Notified i max_waiters takers t
  used_up :
      length takers ≡ max_waiters
      → ((k : ℕ) → elem k takers ≡ true → (t.phases k ≡ relocks) ⊎ (t.phases k ≡ lost))
      → elem i t.nodes ≡ true
      → t.phases i ≡ waiting
      → Notified i max_waiters takers t
