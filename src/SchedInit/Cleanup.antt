-- ===== src/SchedInit/Cleanup.antt =====
-- What an initialisation leaves behind.
use libfev.Base.{
  ℕ, zero, suc, ◌+◌, ◌-◌, ◌≤◌, ◌<◌, ◌≡◌, refl, sym, ap, ◌∙◌, Bool, true, false, List, [], ◌∷◌,
  Option, none, some, Ret, ok, err, Errno, arith, subst,
}
use libfev.SchedInit.{
  Answers, State, free, init_lock, init_locks, fini_locks, keep_workers, init_workers, fini_workers,
  fail_workers, fail_poller, fail_timers, after_sem, after_timers, after_poller, after_workers,
  init, fini,
}

-- A scheduler whose memory holds anything: `old` is what the field `workers` holds.
abbrev pub fresh : (old num : ℕ) → State
fresh old num = record {
  workers = old;
  num_workers = num;
  allocated = [];
  freed = [];
  locks = 0;
  poller = false;
  timers = false;
  sem = false;
}

-- What the loop over the workers does.
record Locked (answers : Answers) (count n : ℕ) (s : State) (r : Ret (Unit {0}) × ℕ × State)
    : Type 0 where
  pub more : n ≤ r.1
  pub state : r.2 ≡ record s { locks = s.locks + (r.1 - n) }
  pub all : r.0 ≡ ok tt → r.1 ≡ n + count
  pub bad : {e : Errno} → r.0 ≡ err e → answers.lock_init r.1 ≡ err e

Locked-cons :
    (answers : Answers) (count n : ℕ) (s : State) (a : Ret (Unit {0}))
    (r : Ret (Unit {0}) × ℕ × State)
    → answers.lock_init n ≡ a
    → Locked answers count (n + 1) (record s { locks = s.locks + 1 }) r
    → Locked answers (suc count) n s (init_lock a n s r)
Locked-cons answers count n s (ok _) r e rest = record {
  more = omega (arith, rest.more);
  state =
      let k : s.locks + 1 + (r.1 - (n + 1)) ≡ s.locks + (r.1 - n) = omega (arith, rest.more) in
      rest.state ∙ ap (λ m. record s { locks = m }) k;
  all = λ d. omega (arith, rest.all d);
  bad = λ d. rest.bad d;
}
Locked-cons answers count n s (err x) r e rest = record {
  more = omega arith;
  state = let k : s.locks ≡ s.locks + (n - n) = omega arith in ap (λ m. record s { locks = m }) k;
  all = λ d. absurd (ground arith);
  bad = λ d. e ∙ d;
}

init_locks_lem :
    (answers : Answers) (count n : ℕ) (s : State)
    → Locked answers count n s (init_locks answers count n s)
unfolding init_locks
init_locks_lem answers zero n s = record {
  more = omega arith;
  state = let k : s.locks ≡ s.locks + (n - n) = omega arith in ap (λ m. record s { locks = m }) k;
  all = λ d. omega arith;
  bad = λ d. absurd (ground arith);
}
init_locks_lem answers (suc count) n s =
    Locked-cons answers count n s (answers.lock_init n) _ refl
      (init_locks_lem answers count (n + 1) (record s { locks = s.locks + 1 }))

fini_locks-eq : (n : ℕ) (s : State) → fini_locks n s ≡ record s { locks = s.locks - n }
unfolding fini_locks
fini_locks-eq zero s =
    let k : s.locks ≡ s.locks - 0 = omega arith in ap (λ m. record s { locks = m }) k
fini_locks-eq (suc n) s =
    let k : s.locks - 1 - n ≡ s.locks - suc n = omega arith in
    fini_locks-eq n (record s { locks = s.locks - 1 }) ∙ ap (λ m. record s { locks = m }) k

-- With the array `a` and the locks of `n` workers, and some of the other parts.
abbrev pub partly : (a n locks : ℕ) → (freed : List ℕ) → (poller timers sem : Bool) → State
partly a n locks freed poller timers sem = record {
  workers = a;
  num_workers = n;
  allocated = a ∷ [];
  freed = freed;
  locks = locks;
  poller = poller;
  timers = timers;
  sem = sem;
}

-- How `fev_sched_init` ends.
pub data Inited (answers : Answers) (old num n : ℕ) : Ret (Unit {0}) × State → Type 0 where
  ready :
      {a : ℕ}
      → answers.alloc ≡ some a
      → Inited answers old num n (ok tt, partly a n n [] true true true)
  no_array : answers.alloc ≡ none → Inited answers old num n (err Errno.nomem, fresh old num)
  bad_lock :
      {a i : ℕ} {e : Errno}
      → answers.alloc ≡ some a
      → answers.lock_init i ≡ err e
      → Inited answers old num n
          (err e, record (fresh old num) { allocated = a ∷ []; freed = old ∷ [] })
  undone :
      {a : ℕ} {e : Errno}
      → answers.alloc ≡ some a
      → Inited answers old num n (err e, partly a n 0 (a ∷ []) false false false)

module _ (answers : Answers) (old num n a : ℕ) (got : answers.alloc ≡ some a) where
  fini_all :
      fini_workers (partly a n n [] false false false) ≡ partly a n 0 (a ∷ []) false false false
  unfolding fini_workers
  fini_all =
      let k : n - n ≡ 0 = omega arith in
      ap (free a) (fini_locks-eq n (partly a n n [] false false false))
      ∙ ap (λ m. partly a n m (a ∷ []) false false false) k

  undone_all :
      (e : Errno)
      → Inited answers old num n (err e, fini_workers (partly a n n [] false false false))
  undone_all e = rw fini_all (undone got)

  sem-Inited :
      (r : Ret (Unit {0}))
      → Inited answers old num n (after_sem r (partly a n n [] true true false))
  unfolding after_sem fail_timers fail_poller fail_workers
  sem-Inited (ok _) = ready got
  sem-Inited (err e) = undone_all e

  timers-Inited :
      (r : Ret (Unit {0}))
      → Inited answers old num n (after_timers answers r (partly a n n [] true false false))
  unfolding after_timers fail_poller fail_workers
  timers-Inited (ok _) = sem-Inited answers.sem_init
  timers-Inited (err e) = undone_all e

  poller-Inited :
      (r : Ret (Unit {0}))
      → Inited answers old num n (after_poller answers r (partly a n n [] false false false))
  unfolding after_poller fail_workers
  poller-Inited (ok _) = timers-Inited answers.timers_init
  poller-Inited (err e) = undone_all e

  workers-Inited :
      (r : Ret (Unit {0}) × ℕ × State)
      → Locked answers n 0 (record (fresh old num) { allocated = a ∷ [] }) r
      → Inited answers old num n (after_workers answers (keep_workers a n r))
  unfolding after_workers keep_workers
  workers-Inited (ok _, m, s) p =
      let reached : 0 + (m - 0) ≡ n = omega (arith, p.all refl) in
      rw (p.state, reached) (poller-Inited answers.poller_init)
  workers-Inited (err e, m, s) p =
      let none_left : 0 + (m - 0) - m ≡ 0 = omega arith in
      rw (p.state, fini_locks-eq m, none_left) (bad_lock got (p.bad refl))

init_with :
    (answers : Answers) (old num n : ℕ) (a : Option ℕ)
    → answers.alloc ≡ a
    → Inited answers old num n (after_workers answers (init_workers answers a n (fresh old num)))
unfolding init_workers after_workers
init_with answers old num n none e = no_array e
init_with answers old num n (some a) e =
    workers-Inited answers old num n a e _
      (init_locks_lem answers n 0 (record (fresh old num) { allocated = a ∷ [] }))

-- Initialising a scheduler, whatever the allocator and the initialisations answer. It succeeds with all
-- its parts; or there was no memory, and nothing has changed; or the poller, the timers or the
-- semaphore failed, and everything is released again. If the lock of a worker cannot be initialised,
-- the other locks are released, but the array stays allocated, and the pointer that is freed is the
-- one that the field `workers` held before.
pub init_lem :
    (answers : Answers) (old num n : ℕ)
    → 0 < n
    → Inited answers old num n (init answers n (fresh old num))
unfolding init
init_lem answers old num n pos = init_with answers old num n answers.alloc refl

abbrev Released : State → List ℕ → Type 0
Released t arrays =
    (t.freed ≡ arrays) × (t.locks ≡ 0) × (t.poller ≡ false) × (t.timers ≡ false) × (t.sem ≡ false)

finish :
    (answers : Answers) (old num n : ℕ) {r : Ret (Unit {0}) × State}
    → Inited answers old num n r
    → r.0 ≡ ok tt
    → Released (fini r.1) r.1.allocated
unfolding fini
finish answers old num n (ready {a} got) e =
    subst (λ t. Released t (a ∷ [])) (sym (fini_all answers old num n a got))
      (refl, refl, refl, refl, refl)
finish answers old num n (no_array x) e = absurd (ground arith)
finish answers old num n (bad_lock x y) e = absurd (ground arith)
finish answers old num n (undone x) e = absurd (ground arith)

-- Finalising what a successful initialisation made leaves no lock and no other part, and frees what was
-- allocated.
pub fini-init :
    (answers : Answers) (old num n : ℕ) (s : State)
    → init answers n (fresh old num) ≡ (ok tt, s)
    → ((fini s).freed ≡ s.allocated)
      × ((fini s).locks ≡ 0)
      × ((fini s).poller ≡ false)
      × ((fini s).timers ≡ false)
      × ((fini s).sem ≡ false)
unfolding init
fini-init answers old num n s e =
    subst (λ t. Released (fini t) t.allocated) (ap (λ r. r.1) e)
      (finish answers old num n (init_with answers old num n answers.alloc refl) (ap (λ r. r.0) e))
