-- ===== src/Sched/Counts.antt =====
-- src/fev_sched_common.c: how often a run makes the calls of each kind.
use libfev.Base.{
  ℕ, zero, suc, ◌+◌, ◌-◌, ◌≡◌, ◌==◌, refl, if◌then◌else◌, Bool, true, false, ◌&&◌, leb, ltb, List,
  [], ◌∷◌, ◌++◌, arith,
}
use libfev.Sched.{
  Event, sem_init, sem_fini, alloc, free, post, work, create, join, cancel, each, out_thrs,
}

-- How often the calls that pass the test were made.
abbrev pub count : (Event → Bool) → List Event → ℕ
count test [] = 0
count test (e ∷ es) = (if test e then 1 else 0) + count test es

abbrev pub creates : ℕ → Event → Bool
creates i (create j) = i == j
creates i _ = false

abbrev pub joins : ℕ → Event → Bool
joins i (join j) = i == j
joins i _ = false

abbrev pub posts : Event → Bool
posts post = true
posts _ = false

abbrev pub works : Event → Bool
works work = true
works _ = false

abbrev pub cancels : ℕ → Event → Bool
cancels i (cancel j) = i == j
cancels i _ = false

abbrev pub sem_inits : Event → Bool
sem_inits sem_init = true
sem_inits _ = false

abbrev pub sem_finis : Event → Bool
sem_finis sem_fini = true
sem_finis _ = false

abbrev pub allocs : Event → Bool
allocs alloc = true
allocs _ = false

abbrev pub frees : Event → Bool
frees free = true
frees _ = false

pub count-append :
    (test : Event → Bool) (xs ys : List Event)
    → count test (xs ++ ys) ≡ count test xs + count test ys
count-append test [] ys = omega arith
count-append test (x ∷ xs) ys = omega (arith, count-append test xs ys)

-- Calls of another kind.
pub count-each_none :
    (test : Event → Bool) (event : ℕ → Event)
    → ((i : ℕ) → test (event i) ≡ false)
    → (first n : ℕ) → count test (each event first n) ≡ 0
unfolding each
count-each_none test event h first zero = refl
count-each_none test event h first (suc n) =
    ground (arith, h first, count-each_none test event h (first + 1) n)

pub count-each_all :
    (test : Event → Bool) (event : ℕ → Event)
    → ((i : ℕ) → test (event i) ≡ true)
    → (first n : ℕ) → count test (each event first n) ≡ n
unfolding each
count-each_all test event h first zero = refl
count-each_all test event h first (suc n) =
    ground (arith, h first, count-each_all test event h (first + 1) n)

-- The thread `i` is one of `n` from `first` on.
abbrev pub among : (i first n : ℕ) → ℕ
among i first n = if leb first i && ltb i (first + n) then 1 else 0

pub count-joins : (i first n : ℕ) → count (joins i) (each join first n) ≡ among i first n
unfolding each
count-joins i first zero = ground arith
count-joins i first (suc n) = ground (arith, count-joins i (first + 1) n)

pub count-cancels : (i first n : ℕ) → count (cancels i) (each cancel first n) ≡ among i first n
unfolding each
count-cancels i first zero = ground arith
count-cancels i first (suc n) = ground (arith, count-cancels i (first + 1) n)

-- The calls after the creations, with `n` from the loop.
pub count-out :
    (test : Event → Bool) (n : ℕ)
    → count test (out_thrs n)
      ≡ count test (each join 1 (n - 1))
        + ((if test free then 1 else 0) + (if test sem_fini then 1 else 0))
unfolding out_thrs
count-out test n = omega (arith, count-append test (each join 1 (n - 1)) (free ∷ sem_fini ∷ []))

pub count-joins_out : (i n : ℕ) → count (joins i) (out_thrs n) ≡ among i 1 (n - 1)
count-joins_out i n = ground (arith, count-out (joins i) n, count-joins i 1 (n - 1))

-- The other kinds of calls after the creations.
pub count-out_other :
    (test : Event → Bool) (n : ℕ)
    → ((i : ℕ) → test (join i) ≡ false)
    → count test (out_thrs n) ≡ (if test free then 1 else 0) + (if test sem_fini then 1 else 0)
count-out_other test n h = omega (arith, count-out test n, count-each_none test join h 1 (n - 1))

pub count-run :
    (test : Event → Bool) (events middle last : List Event)
    → count test (sem_init ∷ alloc ∷ events ++ (middle ++ last))
      ≡ ((if test sem_init then 1 else 0) + (if test alloc then 1 else 0))
        + (count test events + (count test middle + count test last))
count-run test events middle last =
    omega (arith, count-append test events (middle ++ last), count-append test middle last)
