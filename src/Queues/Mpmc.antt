-- ===== src/Queues/Mpmc.antt =====
-- src/fev_bounded_mpmc_queue.h: the queue with a sequence number in each cell. The functions are
-- modelled as calls that run one at a time. `x & buffer_mask` is `x % (buffer_mask + 1)`, since
-- `fev_bounded_mpmc_queue_init` asserts that the capacity is a power of two.
pub mod Steps
pub mod Entries
pub mod Known
pub mod Kept
pub mod Looks
pub mod Popping
pub mod Freeing
pub mod Pushing
pub mod Publishing
pub mod Moves
pub mod Linear
pub mod Race
pub mod Seqs
pub mod View
pub mod Pop
pub mod Push
pub mod Tests
use libfev.Base.{
  ℕ, zero, suc, ◌+◌, ◌-◌, ◌%◌, ◌^◌, Bool, true, false, Option, none, some, List, [], ◌∷◌, leb, ◌==◌,
  if◌then◌else◌, update, Ret, ok, err, Errno,
}
use libfev.Queues.Window.{u32, sub_u32}

pub record Cell : Type 0 where
  pub sequence : ℕ
  pub value : ℕ

pub record Queue : Type 0 where
  pub buffer : ℕ → Cell
  pub buffer_mask : ℕ
  pub head : ℕ
  pub tail : ℕ

-- The loop of `fev_bounded_mpmc_queue_init` that numbers the cells.
unfoldable pub number_cells : (n : ℕ) → (ℕ → Cell) → ℕ → Cell
number_cells zero cells = cells
number_cells (suc n) cells =
    let before = number_cells n cells in update before n (record (before n) { sequence = n })

-- `allocated` is what `fev_aligned_alloc` answers: `none` for NULL, else what the cells hold.
unfoldable pub init : (allocated : Option (ℕ → Cell)) → (capacity : ℕ) → Ret Queue
unfolding number_cells
init none capacity = err Errno.nomem
init (some cells) capacity = ok (record {
  buffer = number_cells capacity cells;
  buffer_mask = capacity - 1;
  head = 0;
  tail = 0;
})

unfoldable pub queue_size : Queue → ℕ
queue_size q = sub_u32 q.tail q.head

abbrev pub slot : Queue → (position : ℕ) → ℕ
slot q position = position % (q.buffer_mask + 1)

-- `(int32_t)x < 0`
abbrev pub is_neg_i32 : ℕ → Bool
is_neg_i32 x = leb (2 ^ 31) x

-- After the compare-exchange has moved `head` on.
unfoldable pub take_cell : Queue → Option ℕ × Queue
take_cell q =
    let i = slot q q.head in
    let cell = q.buffer i in
    (
      some cell.value,
      record q {
        buffer = update q.buffer i (record cell { sequence = u32 (q.head + q.buffer_mask + 1) });
        head = u32 (q.head + 1);
      },
    )

-- The weak compare-exchange fails `spurious` times before it succeeds. The outer `none` is the loop
-- that runs on: it loads `head` again and again until another thread changes it.
unfoldable pub pop : (spurious : ℕ) → Queue → Option (Option ℕ × Queue)
unfolding take_cell
pop zero q =
    let diff = sub_u32 (q.buffer (slot q q.head)).sequence (u32 (q.head + 1)) in
    if diff == 0 then some (take_cell q) else if is_neg_i32 diff then some (none, q) else none
pop (suc spurious) q =
    let again = pop spurious q in
    let diff = sub_u32 (q.buffer (slot q q.head)).sequence (u32 (q.head + 1)) in
    if diff == 0 then again else if is_neg_i32 diff then some (none, q) else none

-- After the compare-exchange has moved `tail` on.
unfoldable pub fill_cell : Queue → (fiber : ℕ) → Queue
fill_cell q fiber = record q {
  buffer = update q.buffer (slot q q.tail) (record { sequence = u32 (q.tail + 1); value = fiber });
  tail = u32 (q.tail + 1);
}

unfoldable pub push : (spurious : ℕ) → Queue → (fiber : ℕ) → Option (Bool × Queue)
unfolding fill_cell
push zero q fiber =
    let diff = sub_u32 (q.buffer (slot q q.tail)).sequence q.tail in
    if diff == 0
    then some (true, fill_cell q fiber)
    else if is_neg_i32 diff
    then some (false, q)
    else none
push (suc spurious) q fiber =
    let again = push spurious q fiber in
    let diff = sub_u32 (q.buffer (slot q q.tail)).sequence q.tail in
    if diff == 0 then again else if is_neg_i32 diff then some (false, q) else none

-- One round of `fev_bounded_mpmc_queue_push_stq` on the outcome of a push: go on, or stop with the
-- fibers that are left and the number pushed.
stq_round :
    (Queue → ℕ → Option (Queue × List ℕ × ℕ))
    → (stqh : List ℕ) (n : ℕ) → Option (Bool × Queue)
    → Option (Queue × List ℕ × ℕ)
stq_round next stqh n none = none
stq_round next stqh n (some (true, q)) = next q (n + 1)
stq_round next stqh n (some (false, q)) = some (q, stqh, n)

-- The result is the queue, the fibers that are left in `stqh`, and `*num_fibers`; `n` have been pushed.
-- `spurious` is how often the weak compare-exchange fails in the push to each queue.
unfoldable pub push_stq_loop :
    (spurious : Queue → ℕ) → (stqh : List ℕ) → Queue → (n : ℕ) → Option (Queue × List ℕ × ℕ)
unfolding stq_round push
push_stq_loop spurious [] q n = some (q, [], n)
push_stq_loop spurious (cur ∷ next) q n =
    stq_round (push_stq_loop spurious next) (cur ∷ next) n (push (spurious q) q cur)

unfoldable pub push_stq :
    (spurious : Queue → ℕ) → Queue → (stqh : List ℕ) → Option (Queue × List ℕ × ℕ)
unfolding push_stq_loop
push_stq spurious q stqh = push_stq_loop spurious stqh q 0
