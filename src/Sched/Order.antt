-- ===== src/Sched/Order.antt =====
-- src/fev_sched_common.c: the order of the calls of fev_sched_run.
use libfev.Base.{
  ℕ, zero, suc, ◌+◌, ◌-◌, ◌≤◌, ◌≡◌, refl, ap, arith, leb, ◌&&◌, Bool, true, List, [], ◌∷◌, ◌++◌,
}
use libfev.Sched.{
  Event, sem_init, sem_fini, alloc, free, post, work, create, join, cancel, each, out_thrs,
}

-- The place of each kind of call in a run.
abbrev pub rank : Event → ℕ
rank sem_init = 0
rank alloc = 1
rank (create i) = 2
rank (cancel i) = 3
rank post = 3
rank work = 4
rank (join i) = 5
rank free = 6
rank sem_fini = 7

-- The kinds of calls, from `low` on, come in their order.
abbrev pub ascends : (low : ℕ) → List Event → Bool
ascends low [] = true
ascends low (event ∷ events) = leb low (rank event) && ascends (rank event) events

pub ascends-below :
    (low k : ℕ) (events : List Event)
    → low ≤ k
    → ascends k events ≡ true
    → ascends low events ≡ true
ascends-below low k [] le h = refl
ascends-below low k (event ∷ events) le h = ground arith

pub ascends-each :
    (event : ℕ → Event) (k : ℕ)
    → ((i : ℕ) → rank (event i) ≡ k)
    → (first n : ℕ) (events : List Event) → ascends k events ≡ true
    → ascends k (each event first n ++ events) ≡ true
unfolding each
ascends-each event k h first zero events e = e
ascends-each event k h first (suc n) events e =
    let rest = ascends-each event k h (first + 1) n events e in
    ground
      (arith, h first, ap (λ r. ascends r (each event (first + 1) n ++ events)) (h first), rest)

pub ascends-out : (n : ℕ) → ascends 5 (out_thrs n) ≡ true
unfolding out_thrs
ascends-out n = ascends-each join 5 (λ i. refl) 1 (n - 1) (free ∷ sem_fini ∷ []) refl

-- After the creations, with the work or with the cancellations.
pub ascends-work : (num n : ℕ) → ascends 2 (each (λ i. post) 1 num ++ work ∷ out_thrs n) ≡ true
ascends-work num n =
    let out = ascends-below 4 5 (out_thrs n) (ground arith) (ascends-out n) in
    let working : ascends 3 (work ∷ out_thrs n) ≡ true = ground (arith, out) in
    ascends-below 2 3 (each (λ i. post) 1 num ++ work ∷ out_thrs n) (ground arith)
      (ascends-each (λ i. post) 3 (λ i. refl) 1 num (work ∷ out_thrs n) working)

pub ascends-cancel : (n : ℕ) → ascends 2 (each cancel 1 (n - 1) ++ out_thrs n) ≡ true
ascends-cancel n =
    let out = ascends-below 3 5 (out_thrs n) (ground arith) (ascends-out n) in
    ascends-below 2 3 (each cancel 1 (n - 1) ++ out_thrs n) (ground arith)
      (ascends-each cancel 3 (λ i. refl) 1 (n - 1) (out_thrs n) out)
