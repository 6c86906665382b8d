-- ===== src/Sched/Start.antt =====
-- src/fev_sched_common.c: the threads and the resources of a run.
use libfev.Base.{
  ℕ, zero, suc, ◌+◌, ◌-◌, ◌≤◌, ◌<◌, ◌≡◌, inl, inr, refl, ap, ◌∙◌, if◌then◌else◌, Bool, true, false,
  List, ◌∷◌, ◌++◌, Ret, ok, err, arith, Bool-cases,
}
use libfev.Sched.{
  Event, sem_init, sem_fini, alloc, free, post, work, create, join, cancel, Answers, each,
  create_one, create_thrs, out_thrs, work_or_cancel, run_thrs, run_with_sem, run,
}
use libfev.Sched.Order.{ascends, ascends-below, ascends-work, ascends-cancel}
use libfev.Sched.Counts.{
  count, creates, joins, posts, works, cancels, sem_inits, sem_finis, allocs, frees,
  count-each_none, count-each_all, among, count-cancels, count-joins_out, count-out_other,
  count-run,
}

-- What the loop of creations does.
record Created (answers : Answers) (n m : ℕ) (r : List Event × ℕ × Ret (Unit {0})) : Type 0 where
  pub more : m ≤ r.1
  pub each_once : (i : ℕ) → count (creates i) r.0 ≡ among i m (r.1 - m)
  pub pure : (test : Event → Bool) → ((i : ℕ) → test (create i) ≡ false) → count test r.0 ≡ 0
  pub all : r.2 ≡ ok tt → r.1 ≡ m + n
  pub before : (events : List Event) → ascends 2 events ≡ true → ascends 2 (r.0 ++ events) ≡ true

Created-cons :
    (answers : Answers) (n m : ℕ) (a : Ret (Unit {0})) (r : List Event × ℕ × Ret (Unit {0}))
    → Created answers n (m + 1) r
    → Created answers (suc n) m (create_one a m r)
unfolding create_one
Created-cons answers n m (ok _) r rest = record {
  more = omega (arith, rest.more);
  each_once = λ i. ground (arith, rest.each_once i, rest.more);
  pure = λ test h. ground (arith, h m, rest.pure test h);
  all = λ d. omega (arith, rest.all d);
  before = λ events e. ground (arith, rest.before events e);
}
Created-cons answers n m (err x) r rest = record {
  more = omega arith;
  each_once = λ i. ground arith;
  pure = λ test h. refl;
  all = λ d. absurd (ground arith);
  before = λ events e. e;
}

create_thrs_lem : (answers : Answers) (n m : ℕ) → Created answers n m (create_thrs answers n m)
unfolding create_thrs
create_thrs_lem answers zero m = record {
  more = omega arith;
  each_once = λ i. ground arith;
  pure = λ test h. refl;
  all = λ e. omega arith;
  before = λ events e. e;
}
create_thrs_lem answers (suc n) m =
    Created-cons answers n m (answers.thr_create m) _ (create_thrs_lem answers n (m + 1))

abbrev pub is_ok : Ret (Unit {0}) → Bool
is_ok (ok _) = true
is_ok (err _) = false

-- What a run of `num_workers` workers has done at its end.
pub record Ran (num_workers : ℕ) (ret : Ret (Unit {0})) (events : List Event) : Type 0 where
  pub in_order : ascends 0 events ≡ true
  pub joined : (i : ℕ) → count (creates i) events ≡ count (joins i) events
  pub finished : count sem_finis events ≡ count sem_inits events
  pub freed : count frees events ≡ count allocs events
  pub cancelled :
      (i : ℕ) → count (cancels i) events ≡ (if is_ok ret then 0 else count (creates i) events)
  pub worked : count works events ≡ (if is_ok ret then 1 else 0)
  pub posted : count posts events ≡ (if is_ok ret then num_workers - 1 else 0)
  pub created : ret ≡ ok tt → (i : ℕ) → count (creates i) events ≡ among i 1 (num_workers - 1)

-- The creations and the joins, when the calls between are of other kinds.
module _ (events middle last : List Event) (n : ℕ) (answers : Answers) {k : ℕ}
    {ret : Ret (Unit {0})} (c : Created answers k 1 (events, n, ret)) (i : ℕ)
    (none_created : count (creates i) middle + count (creates i) last ≡ 0)
    (joined : count (joins i) middle + count (joins i) last ≡ among i 1 (n - 1)) where
  run-creates :
      count (creates i) (sem_init ∷ alloc ∷ events ++ (middle ++ last)) ≡ among i 1 (n - 1)
  run-creates = omega (arith, count-run (creates i) events middle last, c.each_once i, none_created)

  run-joins :
      count (creates i) (sem_init ∷ alloc ∷ events ++ (middle ++ last))
      ≡ count (joins i) (sem_init ∷ alloc ∷ events ++ (middle ++ last))
  run-joins = omega (
    arith,
    run-creates,
    count-run (joins i) events middle last,
    c.pure (joins i) (λ j. refl),
    joined,
  )

from_start :
    (events : List Event) → ascends 2 events ≡ true → ascends 0 (sem_init ∷ alloc ∷ events) ≡ true
from_start events e = ascends-below 1 2 events (ground arith) e

run_thrs-Ran :
    (num_workers : ℕ) (events : List Event) (n : ℕ) (answers : Answers) (ret : Ret (Unit {0}))
    → Created answers (num_workers - 1) 1 (events, n, ret)
    → Ran num_workers
        (run_thrs num_workers (events, n, ret)).0
        (run_thrs num_workers (events, n, ret)).1
unfolding run_thrs work_or_cancel
run_thrs-Ran num_workers events n answers (ok _) c =
    let middle = each (λ i. post) 1 (num_workers - 1) in
    let last = work ∷ out_thrs n in
    let none_of : (test : Event → Bool) → test post ≡ false → count test middle ≡ 0 =
      λ test h. count-each_none test (λ i. post) (λ i. h) 1 (num_workers - 1) in
    let none_created : (i : ℕ) → count (creates i) middle + count (creates i) last ≡ 0 =
      λ i. omega (arith, none_of (creates i) refl, count-out_other (creates i) n (λ j. refl)) in
    let joined : (i : ℕ) → count (joins i) middle + count (joins i) last ≡ among i 1 (n - 1) =
      λ i. omega (arith, none_of (joins i) refl, count-joins_out i n) in
    record {
      in_order =
          from_start (events ++ (middle ++ last))
            (c.before (middle ++ last) (ascends-work (num_workers - 1) n));
      joined = λ i. run-joins events middle last n answers c i (none_created i) (joined i);
      finished = omega (
        arith,
        count-run sem_finis events middle last,
        count-run sem_inits events middle last,
        c.pure sem_finis (λ j. refl),
        c.pure sem_inits (λ j. refl),
        none_of sem_finis refl,
        none_of sem_inits refl,
        count-out_other sem_finis n (λ j. refl),
        count-out_other sem_inits n (λ j. refl),
      );
      freed = omega (
        arith,
        count-run frees events middle last,
        count-run allocs events middle last,
        c.pure frees (λ j. refl),
        c.pure allocs (λ j. refl),
        none_of frees refl,
        none_of allocs refl,
        count-out_other frees n (λ j. refl),
        count-out_other allocs n (λ j. refl),
      );
      cancelled = λ i. omega (
        arith,
        count-run (cancels i) events middle last,
        c.pure (cancels i) (λ j. refl),
        none_of (cancels i) refl,
        count-out_other (cancels i) n (λ j. refl),
      );
      worked = omega (
        arith,
        count-run works events middle last,
        c.pure works (λ j. refl),
        none_of works refl,
        count-out_other works n (λ j. refl),
      );
      posted = omega (
        arith,
        count-run posts events middle last,
        c.pure posts (λ j. refl),
        count-each_all posts (λ i. post) (λ i. refl) 1 (num_workers - 1),
        count-out_other posts n (λ j. refl),
      );
      created = λ e i.
          let reached : n - 1 ≡ num_workers - 1 = omega (arith, c.all e) in
          run-creates events middle last n answers c i (none_created i) (joined i)
          ∙ ap (among i 1) reached;
    }
run_thrs-Ran num_workers events n answers (err e) c =
    let middle = each cancel 1 (n - 1) in
    let last = out_thrs n in
    let none_of : (test : Event → Bool)
        → ((i : ℕ) → test (cancel i) ≡ false)
        → count test middle ≡ 0 =
      λ test h. count-each_none test cancel h 1 (n - 1) in
    let none_created : (i : ℕ) → count (creates i) middle + count (creates i) last ≡ 0 = λ i.
      omega (arith, none_of (creates i) (λ j. refl), count-out_other (creates i) n (λ j. refl)) in
    let joined : (i : ℕ) → count (joins i) middle + count (joins i) last ≡ among i 1 (n - 1) =
      λ i. omega (arith, none_of (joins i) (λ j. refl), count-joins_out i n) in
    let still : (test : Event → Bool)
        → ((i : ℕ) → test (create i) ≡ false)
        → ((i : ℕ) → test (cancel i) ≡ false)
        → ((i : ℕ) → test (join i) ≡ false)
        → count test (sem_init ∷ alloc ∷ events ++ (middle ++ last))
          ≡ ((if test sem_init then 1 else 0) + (if test alloc then 1 else 0))
            + ((if test free then 1 else 0) + (if test sem_fini then 1 else 0)) =
      λ test h h' h''. omega (
        arith,
        count-run test events middle last,
        c.pure test h,
        none_of test h',
        count-out_other test n h'',
      ) in
    record {
      in_order =
          from_start (events ++ (middle ++ last)) (c.before (middle ++ last) (ascends-cancel n));
      joined = λ i. run-joins events middle last n answers c i (none_created i) (joined i);
      finished = omega (
        arith,
        still sem_finis (λ j. refl) (λ j. refl) (λ j. refl),
        still sem_inits (λ j. refl) (λ j. refl) (λ j. refl),
      );
      freed = omega (
        arith,
        still frees (λ j. refl) (λ j. refl) (λ j. refl),
        still allocs (λ j. refl) (λ j. refl) (λ j. refl),
      );
      cancelled = λ i. omega (
        arith,
        run-creates events middle last n answers c i (none_created i) (joined i),
        count-run (cancels i) events middle last,
        c.pure (cancels i) (λ j. refl),
        count-cancels i 1 (n - 1),
        count-out_other (cancels i) n (λ j. refl),
      );
      worked = still works (λ j. refl) (λ j. refl) (λ j. refl);
      posted = still posts (λ j. refl) (λ j. refl) (λ j. refl);
      created = λ d i. absurd (ground arith);
    }

run_with_sem-Ran :
    (answers : Answers) (num_workers : ℕ) (a : Ret (Unit {0}))
    → Ran num_workers (run_with_sem answers num_workers a).0 (run_with_sem answers num_workers a).1
unfolding run_with_sem
run_with_sem-Ran answers num_workers (err e) = record {
  in_order = refl;
  joined = λ i. refl;
  finished = refl;
  freed = refl;
  cancelled = λ i. refl;
  worked = refl;
  posted = refl;
  created = λ d i. absurd (ground arith);
}
run_with_sem-Ran answers num_workers (ok _) = elim (Bool-cases answers.malloc) [
  | inl t ↦
      rw t (run_thrs-Ran num_workers _ _ answers _ (create_thrs_lem answers (num_workers - 1) 1))
  | inr f ↦ rw f (record {
    in_order = refl;
    joined = λ i. refl;
    finished = refl;
    freed = refl;
    cancelled = λ i. refl;
    worked = refl;
    posted = refl;
    created = λ d i. absurd (ground arith);
  })
]

-- Running a scheduler, whatever the system answers: the calls come in the order of `rank`, from the
-- initialisation of the semaphore over the creations, the cancellations or posts, the work and the joins
-- to the end of the semaphore. Each thread that was created is joined, as often as
-- it was created; the semaphore is finished as often as it was initialised, and the array is freed as
-- often as it was allocated. If it succeeds, the threads 1 up to the number of workers were created once
-- each, there was a post for each, none was cancelled, and the caller worked too; if it fails, there was no
-- post, the caller did not work, and each thread was cancelled as often as it was created.
pub run_lem :
    (answers : Answers) (num_workers : ℕ)
    → 0 < num_workers
    → Ran num_workers (run answers num_workers).0 (run answers num_workers).1
unfolding run
run_lem answers num_workers pos = run_with_sem-Ran answers num_workers answers.sem_init
