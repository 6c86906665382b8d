-- ===== src/StealBounded.antt =====
-- src/fev_sched_steal_bounded_mpmc.c and src/fev_sched_steal_bounded_spmc.c, with their headers
-- src/fev_sched_steal_bounded_*_impl.h: run queues of a fixed size, a fallback queue that they share, and
-- stealing. The two differ in the kind of queue, which is the parameter `Ops`, and in where a thief puts
-- what it stole, the parameter `store`. Each call of the queue runs on its own.
pub mod Laws
pub mod Thief
pub mod Instances
mod Tests
use libfev.Base.{
  ℕ, zero, suc, ◌+◌, ◌-◌, ◌%◌, ◌^◌, ◌==◌, ltb, if◌then◌else◌, Bool, Option, none, some, ◌>>=◌, List,
  [], ◌∷◌, ◌++◌, length, is_empty, update,
}
use libfev.StealLocking.{victim}

-- The calls of a bounded queue; `none` is a call that runs on.
pub record Ops (Q : Type 0) : Type 0 where
  pub pop : Q → Option (Option ℕ × Q)
  pub push : Q → (fiber : ℕ) → Option (Bool × Q)
  pub push_stq : Q → (stqh : List ℕ) → Option (Q × List ℕ × ℕ)

-- `fallback_queue` and `fallback_queue_len`, behind their lock.
pub record Fallback : Type 0 where
  pub queue : List ℕ
  pub len : ℕ

unfoldable pub push_one_fallback : Fallback → (fiber : ℕ) → Fallback
push_one_fallback fb fiber = record { queue = fb.queue ++ fiber ∷ []; len = (fb.len + 1) % 2 ^ 32 }

unfoldable pub push_stq_fallback : Fallback → (fibers : List ℕ) → (num_fibers : ℕ) → Fallback
push_stq_fallback fb fibers num_fibers = record {
  queue = fb.queue ++ fibers;
  len = (fb.len + num_fibers) % 2 ^ 32;
}

module _ {Q : Type 0} (ops : Ops Q) where
  abbrev pub or_fallback : Fallback → (fiber : ℕ) → Bool × Q → Q × Fallback
  or_fallback fb fiber (pushed, q) = (q, if pushed then fb else push_one_fallback fb fiber)

  unfoldable pub push_one : Q → Fallback → (fiber : ℕ) → Option (Q × Fallback)
  push_one q fb fiber = ops.push q fiber >>= λ r. some (or_fallback fb fiber r)

  -- After the queue took `n` of `num_fibers` and left `rest`.
  abbrev pub rest_to_fallback : Fallback → (num_fibers : ℕ) → Q × List ℕ × ℕ → Q × Fallback
  rest_to_fallback fb num_fibers (q, rest, n) =
      (q, if n == num_fibers then fb else push_stq_fallback fb rest (num_fibers - n))

  unfoldable pub push_stq :
      Q → Fallback → (fibers : List ℕ) → (num_fibers : ℕ) → Option (Q × Fallback)
  push_stq q fb fibers num_fibers =
      ops.push_stq q fibers >>= λ r. some (rest_to_fallback fb num_fibers r)

  abbrev pub less_fallback : (len : ℕ) → Q × List ℕ × ℕ → Q × Fallback
  less_fallback len (q, rest, n) = (q, record { queue = rest; len = len - n })

  unfoldable pub move_from_fallback : Q → Fallback → Option (Q × Fallback)
  move_from_fallback q fb =
      let moved = ops.push_stq q fb.queue >>= λ r. some (less_fallback fb.len r) in
      if ltb 0 fb.len then moved else some (q, fb)

  abbrev pub pop_more : (Q → Option (List ℕ × Q)) → Option ℕ × Q → Option (List ℕ × Q)
  pop_more next (none, q) = some ([], q)
  pop_more next (some fiber, q) = next q >>= λ r. some (fiber ∷ r.0, r.1)

  -- The inner loop of `fev_sched_steal`: at most `count` fibers of a victim.
  unfoldable pub pop_some : (count : ℕ) → Q → Option (List ℕ × Q)
  pop_some zero q = some ([], q)
  pop_some (suc count) q = ops.pop q >>= pop_more (pop_some count)

  module _ (store : Q → Fallback → List ℕ → Option (Q × Fallback))
      (steal_count rnd num_workers w : ℕ) where
    -- The loop of `fev_sched_steal`: the queues, the fallback queue and the number of stolen fibers.
    unfoldable pub steal_loop : (count i : ℕ) → (ℕ → Q) → Fallback → Option ((ℕ → Q) × Fallback × ℕ)
    unfolding pop_some
    steal_loop zero i queues fb = some (queues, fb, 0)
    steal_loop (suc count) i queues fb =
        let v = victim rnd i num_workers in
        let skipped = steal_loop count (i + 1) queues fb in
        let tried = pop_some steal_count (queues v) >>= λ p.
        (let queues' = update queues v p.1 in
          let next = steal_loop count (i + 1) queues' fb in
          let done =
            store (queues w) fb p.0 >>= λ s. some (update queues' w s.0, s.1, length p.0) in
          if is_empty p.0 then next else done) in
        if v == w then skipped else tried

    unfoldable pub steal : (ℕ → Q) → Fallback → Option ((ℕ → Q) × Fallback × ℕ)
    unfolding steal_loop
    steal queues fb = steal_loop num_workers 0 queues fb

  -- Where a thief puts its fibers with the SPMC queue: all into its own queue.
  unfoldable pub store_own : Q → Fallback → (fibers : List ℕ) → Option (Q × Fallback)
  store_own q fb fibers = ops.push_stq q fibers >>= λ r. some (r.0, fb)

  -- With the MPMC queue: by `fev_push_stq`.
  unfoldable pub store_or_fallback : Q → Fallback → (fibers : List ℕ) → Option (Q × Fallback)
  unfolding push_stq
  store_or_fallback q fb fibers = push_stq q fb fibers (length fibers)
