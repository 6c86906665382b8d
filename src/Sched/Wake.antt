-- ===== src/Sched/Wake.antt =====
-- How many sleeping workers are woken up.
use libfev.Base.{ℕ, ◌+◌, ◌^◌, ◌≤◌, ◌<◌, ◌≡◌, Bool, min, arith}
use libfev.Sched.{wake_workers_slow, wake_up_waiting_workers}

-- Making fibers runnable adds their number, and sends one wake-up, to the poller or by the semaphore,
-- for each of them that finds a waiting worker: as many as there are fibers and waiting workers. With
-- no worker waiting there is none, and the poller gets at most one.
pub wake_up_lem :
    (poller_waiting : Bool) (num_run_fibers num_waiting num_fibers : ℕ)
    → 0 < num_fibers
    → num_run_fibers + num_fibers < 2 ^ 32
    → num_waiting < 2 ^ 32
    → let (run, interrupts, posts) =
        wake_up_waiting_workers poller_waiting num_run_fibers num_waiting num_fibers in
      (run ≡ num_run_fibers + num_fibers)
      × (interrupts + posts ≡ min num_waiting num_fibers)
      × (interrupts ≤ 1)
unfolding wake_up_waiting_workers wake_workers_slow
wake_up_lem poller_waiting num_run_fibers num_waiting num_fibers pos fits small = ground arith
