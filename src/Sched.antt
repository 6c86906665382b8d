-- ===== src/Sched.antt =====
-- src/fev_sched_common.c and the wake-up of workers in src/fev_sched_impl.h. A run of the scheduler is
-- modelled by the calls that it makes, in order; what the operating system answers is an argument.
pub mod Wake
pub mod Counts
pub mod Order
pub mod Start
mod Tests
use libfev.Base.{
  ℕ, zero, suc, ◌+◌, ◌-◌, ◌%◌, ◌^◌, ◌==◌, ltb, if◌then◌else◌, Bool, true, false, List, [], ◌∷◌,
  ◌++◌, Option, none, some, Ret, ok, err, Errno,
}

-- `fev_wake_workers_slow` without io_uring: how often it interrupts the poller, and how many posts of
-- the semaphore it makes. `n--` wraps at 32 bits.
unfoldable pub wake_workers_slow : (poller_waiting : Bool) → (num_waiting num_fibers : ℕ) → ℕ × ℕ
wake_workers_slow poller_waiting num_waiting num_fibers =
    let n = if ltb num_waiting num_fibers then num_waiting else num_fibers in
    if poller_waiting then (1, (n + (2 ^ 32 - 1)) % 2 ^ 32) else (0, n)

-- The same with io_uring, which only interrupts.
unfoldable pub wake_workers_slow_io_uring : (num_waiting num_fibers : ℕ) → ℕ × ℕ
wake_workers_slow_io_uring num_waiting num_fibers =
    let n = if ltb num_waiting num_fibers then num_waiting else num_fibers in (n, 0)

-- `fev_wake_up_waiting_workers`: the new number of runnable fibers, the interrupts and the posts.
unfoldable pub wake_up_waiting_workers :
    (poller_waiting : Bool) → (num_run_fibers num_waiting num_fibers : ℕ) → ℕ × ℕ × ℕ
unfolding wake_workers_slow
wake_up_waiting_workers poller_waiting num_run_fibers num_waiting num_fibers =
    let run = (num_run_fibers + num_fibers) % 2 ^ 32 in
    if num_waiting == 0
    then (run, 0, 0)
    else (let (interrupts, posts) = wake_workers_slow poller_waiting num_waiting num_fibers in
        (run, interrupts, posts))

-- The calls that `fev_sched_run` makes. Workers and threads have the same numbers.
pub data Event : Type 0 where
  sem_init sem_fini alloc free post work : Event
  create join cancel : ℕ → Event

pub record Answers : Type 0 where
  pub sem_init : Ret (Unit {0})
  pub malloc : Bool
  pub thr_create : ℕ → Ret (Unit {0})

-- for (i = first; i < first + count; i++) event(i)
unfoldable pub each : (ℕ → Event) → (first count : ℕ) → List Event
each event first zero = []
each event first (suc count) = event first ∷ each event (first + 1) count

-- One round of the loop that creates threads, given what the rounds after it do.
create_one :
    Ret (Unit {0})
    → (n : ℕ) → (rest : List Event × ℕ × Ret (Unit {0})) → List Event × ℕ × Ret (Unit {0})
create_one (ok _) n (events, last, ret) = (create n ∷ events, last, ret)
create_one (err e) n rest = ([], n, err e)

-- The threads that the loop creates, the `n` at its end, and `ret`.
unfoldable pub create_thrs : Answers → (count n : ℕ) → List Event × ℕ × Ret (Unit {0})
unfolding create_one
create_thrs answers zero n = ([], n, ok tt)
create_thrs answers (suc count) n =
    create_one (answers.thr_create n) n (create_thrs answers count (n + 1))

-- From label `out_thrs` on.
unfoldable pub out_thrs : (n : ℕ) → List Event
unfolding each
out_thrs n = each join 1 (n - 1) ++ free ∷ sem_fini ∷ []

-- After the creation of the threads.
unfoldable pub work_or_cancel : (num_workers n : ℕ) → Ret (Unit {0}) → List Event
unfolding out_thrs each
work_or_cancel num_workers n (ok _) = each (λ i. post) 1 (num_workers - 1) ++ work ∷ out_thrs n
work_or_cancel num_workers n (err e) = each cancel 1 (n - 1) ++ out_thrs n

-- With the array for the threads.
unfoldable pub run_thrs :
    (num_workers : ℕ) → List Event × ℕ × Ret (Unit {0}) → Ret (Unit {0}) × List Event
unfolding work_or_cancel
run_thrs num_workers (events, n, ret) =
    (ret, sem_init ∷ alloc ∷ events ++ work_or_cancel num_workers n ret)

unfoldable pub run_with_sem :
    Answers → (num_workers : ℕ) → Ret (Unit {0}) → Ret (Unit {0}) × List Event
unfolding run_thrs create_thrs
run_with_sem answers num_workers (err e) = (err e, [])
run_with_sem answers num_workers (ok _) =
    if answers.malloc
    then run_thrs num_workers (create_thrs answers (num_workers - 1) 1)
    else (err Errno.nomem, sem_init ∷ sem_fini ∷ [])

-- The result and the calls of `fev_sched_run`. `start_sem` is set between `sem_init` and `sem_fini`.
unfoldable pub run : Answers → (num_workers : ℕ) → Ret (Unit {0}) × List Event
unfolding run_with_sem
run answers num_workers = run_with_sem answers num_workers answers.sem_init

abbrev pub attr_workers : Option ℕ → ℕ
attr_workers none = 0
attr_workers (some n) = n

abbrev pub keep_or_free : (num_workers : ℕ) → Ret (Unit {0}) → Ret ℕ × Bool
keep_or_free num_workers (ok _) = (ok num_workers, true)
keep_or_free num_workers (err e) = (err e, false)

-- `fev_sched_create`: the number of workers that `fev_sched_init` gets, and what is still allocated.
unfoldable pub create_sched :
    (allocated : Bool)
    → (num_processors : ℕ) → (init : ℕ → Ret (Unit {0})) → (attr : Option ℕ) → Ret ℕ × Bool
create_sched allocated num_processors init attr =
    let num_workers = attr_workers attr in
    let n = if num_workers == 0 then num_processors else num_workers in
    if allocated then keep_or_free n (init n) else (err Errno.nomem, false)
