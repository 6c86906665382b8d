-- ===== src/Sched/Tests.antt =====
-- src/fev_sched_common.c with three workers, of which the last cannot be created.
use libfev.Base.{
  ◌+◌, ◌≡◌, ◌≤◌, ◌==◌, refl, arith, if◌then◌else◌, true, [], ◌∷◌, ok, err, Errno, min,
}
use libfev.Sched.{
  sem_init, sem_fini, alloc, free, create, join, cancel, Answers, run, wake_up_waiting_workers,
}
use libfev.Sched.Start.{Ran, run_lem}
use libfev.Sched.Wake.{wake_up_lem}

abbrev answers : Answers
answers = record {
  sem_init = ok tt;
  malloc = true;
  thr_create = λ n. if n == 2 then err Errno.again else ok tt;
}

run_test :
    run answers 3
    ≡ (err Errno.again, sem_init ∷ alloc ∷ create 1 ∷ cancel 1 ∷ join 1 ∷ free ∷ sem_fini ∷ [])
unfolding run
run_test = refl

run_lem_example : Ran 3 (run answers 3).0 (run answers 3).1
run_lem_example = run_lem answers 3 (omega arith)

wake_up_lem_example :
    let (run, interrupts, posts) = wake_up_waiting_workers true 5 3 2 in
    (run ≡ 7) × (interrupts + posts ≡ min 3 2) × (interrupts ≤ 1)
wake_up_lem_example = wake_up_lem true 5 3 2 (omega arith) (omega arith) (omega arith)
