-- ===== src/StealLocking.antt =====
-- src/fev_sched_steal_locking.c and src/fev_sched_steal_locking_impl.h: the run queues of the workers,
-- each behind its lock, and stealing from them. A critical section is one call here. The random number
-- and the number of fibers to steal (a constant of the build) are arguments.
mod Moves
mod Tests
use libfev.Base.{
  ℕ, zero, suc, ◌+◌, ◌-◌, ◌%◌, ◌^◌, ◌==◌, if◌then◌else◌, Option, none, some, List, [], ◌∷◌, ◌++◌,
  take, drop, update,
}

-- `struct fev_sched_run_queue`
pub record RunQueue : Type 0 where
  pub head : List ℕ
  pub size : ℕ

unfoldable pub push_one : RunQueue → (fiber : ℕ) → RunQueue
push_one q fiber = record { head = q.head ++ fiber ∷ []; size = (q.size + 1) % 2 ^ 32 }

unfoldable pub push_stq : RunQueue → (fibers : List ℕ) → (num_fibers : ℕ) → RunQueue
push_stq q fibers num_fibers = record {
  head = q.head ++ fibers;
  size = (q.size + num_fibers) % 2 ^ 32;
}

-- Label `get_local` of `fev_sched_work`.
unfoldable pub get_local : RunQueue → Option ℕ × RunQueue
get_local q = elim q.head [
  | [] ↦ (none, q)
  | cur_fiber ∷ head ↦
      (some cur_fiber, record { head = head; size = (q.size + (2 ^ 32 - 1)) % 2 ^ 32 })
]

-- The walk over the victim's fibers: how many are stolen.
unfoldable pub walk : (steal_count : ℕ) → (head : List ℕ) → ℕ
walk zero head = 0
walk (suc steal_count) [] = 0
walk (suc steal_count) (cur ∷ head) = suc (walk steal_count head)

-- The victim without its first `n` fibers.
unfoldable pub robbed : RunQueue → (n : ℕ) → RunQueue
robbed victim n = record { head = drop n victim.head; size = (victim.size + (2 ^ 32 - n)) % 2 ^ 32 }

-- The worker's own queue, which was empty.
unfoldable pub filled : RunQueue → (n : ℕ) → RunQueue
filled victim n = record { head = take n victim.head; size = n }

abbrev pub victim : (rnd i num_workers : ℕ) → ℕ
victim rnd i num_workers = (rnd + i) % 2 ^ 32 % num_workers

-- The loop of `fev_sched_steal` for the worker `w`, with `count` rounds left: the queues and the number
-- of stolen fibers.
unfoldable pub steal_loop :
    (steal_count rnd num_workers w : ℕ) → (count i : ℕ) → (ℕ → RunQueue) → (ℕ → RunQueue) × ℕ
unfolding walk robbed filled
steal_loop steal_count rnd num_workers w zero i queues = (queues, 0)
steal_loop steal_count rnd num_workers w (suc count) i queues =
    let rest = steal_loop steal_count rnd num_workers w count (i + 1) queues in
    let v = victim rnd i num_workers in
    let n = walk steal_count (queues v).head in
    if v == w
    then rest
    else if n == 0
    then rest
    else (update (update queues v (robbed (queues v) n)) w (filled (queues v) n), n)

unfoldable pub steal : (steal_count rnd num_workers w : ℕ) → (ℕ → RunQueue) → (ℕ → RunQueue) × ℕ
unfolding steal_loop
steal steal_count rnd num_workers w queues =
    steal_loop steal_count rnd num_workers w num_workers 0 queues
