-- ===== src/Queues/Spmc.antt =====
-- src/fev_bounded_spmc_queue.h: the single-producer queue of a worker. The functions are modelled as
-- calls that run one at a time; `memory_order`s play no part. A fiber is its address. `x & buffer_mask`
-- is `x % (buffer_mask + 1)`, since `fev_bounded_spmc_queue_init` asserts that the size is a power of
-- two.
pub mod Steps
pub mod Known
pub mod Owned
pub mod Linear
mod Race
pub mod View
pub mod Pop
pub mod Push
pub mod Tests
use libfev.Base.{
  ℕ, zero, suc, ◌+◌, ◌-◌, ◌%◌, Bool, true, false, Option, none, some, List, [], ◌∷◌, ltb, leb, ◌==◌,
  if◌then◌else◌, update, Ret, ok, err, Errno,
}
use libfev.Queues.Window.{u32, sub_u32}

pub record Queue : Type 0 where
  pub buffer : ℕ → ℕ
  pub buffer_mask : ℕ
  pub head : ℕ
  pub tail : ℕ

-- `allocated` is what `fev_aligned_alloc` answers: `none` for NULL, else what the cells hold.
unfoldable pub init : (allocated : Option (ℕ → ℕ)) → (size : ℕ) → Ret Queue
init none size = err Errno.nomem
init (some cells) size = ok (record { buffer = cells; buffer_mask = size - 1; head = 0; tail = 0 })

unfoldable pub queue_size : Queue → ℕ
queue_size q = sub_u32 q.tail q.head

abbrev pub slot : Queue → (position : ℕ) → ℕ
slot q position = position % (q.buffer_mask + 1)

-- The weak compare-exchange fails `spurious` times before it succeeds; a failure loads `head` again.
unfoldable pub pop : (spurious : ℕ) → Queue → Option ℕ × Queue
pop zero q =
    if q.head == q.tail
    then (none, q)
    else (some (q.buffer (slot q q.head)), record q { head = u32 (q.head + 1) })
pop (suc spurious) q = let again = pop spurious q in if q.head == q.tail then (none, q) else again

unfoldable pub push : Queue → (fiber : ℕ) → Bool × Queue
push q fiber =
    if leb (sub_u32 q.tail q.head) q.buffer_mask
    then (
      true,
      record q { buffer = update q.buffer (slot q q.tail) fiber; tail = u32 (q.tail + 1) },
    )
    else (false, q)

-- The loop of `fev_bounded_spmc_queue_push_stq`: it writes `n` fibers, and returns the queue, and the
-- fibers that are left.
unfoldable pub push_loop : (n : ℕ) → Queue → List ℕ → Queue × List ℕ
push_loop zero q fibers = (q, fibers)
push_loop (suc n) q [] = (q, [])
push_loop (suc n) q (cur ∷ fibers) =
    push_loop n (record q { buffer = update q.buffer (slot q q.tail) cur; tail = u32 (q.tail + 1) })
      fibers

-- The result is the queue, the fibers that are left in `stqh`, and `*num_fibers`.
unfoldable pub push_stq : Queue → (stqh : List ℕ) → (num_fibers : ℕ) → Queue × List ℕ × ℕ
unfolding push_loop
push_stq q stqh num_fibers =
    let size = u32 (q.buffer_mask + 1) in
    let free = sub_u32 size (sub_u32 q.tail q.head) in
    let n = if ltb free num_fibers then free else num_fibers in
    let (q', rest) = push_loop n q stqh in (q', rest, n)
