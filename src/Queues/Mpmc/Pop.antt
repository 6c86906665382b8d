-- ===== src/Queues/Mpmc/Pop.antt =====
-- `fev_bounded_mpmc_queue_pop` against the abstract queue.
use libfev.Base.{
  ℕ, zero, suc, ◌+◌, ◌-◌, ◌^◌, ◌<◌, ◌≡◌, sym, ap, ◌∙◌, arith, none, some, inl, inr, subst,
}
use libfev.Queues.Window.{u32, window, window-u32, window-ext, window_of_pos, fifo_pop}
use libfev.Queues.Mpmc.{Queue, queue_size, slot, take_cell, pop}
use libfev.Queues.Mpmc.Seqs.{Seqs, Seqs-u32, Seqs-pop}
use libfev.Queues.Mpmc.View.{IsValid, capacity, values, contents, head-sequence}
use libfev.Base.{Gives, gives}

pop-full :
    (n : ℕ) (q : Queue)
    → (q.buffer (slot q q.head)).sequence ≡ u32 (q.head + 1)
    → pop n q ≡ some (take_cell q)
unfolding pop
pop-full zero q e = ground arith
pop-full (suc n) q e = ground (arith, pop-full n q)

pop-empty :
    (n : ℕ) (q : Queue)
    → q.head < 2 ^ 32
    → (q.buffer (slot q q.head)).sequence ≡ u32 q.head
    → pop n q ≡ some (none, q)
unfolding pop
pop-empty zero q lt e = ground arith
pop-empty (suc n) q lt e = ground arith

size-taken :
    (q : Queue) → IsValid q → 0 < queue_size q → suc (queue_size (take_cell q).1) ≡ queue_size q
unfolding take_cell queue_size
size-taken q v pos = omega arith

values-taken : (q : Queue) (i : ℕ) → values (take_cell q).1 i ≡ values q i
unfolding take_cell
values-taken q i = ground arith

take_cell-IsValid : (q : Queue) → IsValid q → 0 < queue_size q → IsValid (take_cell q).1
unfolding take_cell
take_cell-IsValid q v pos =
    let size = size-taken q v pos in
    record {
      power = v.power;
      pair = v.pair;
      proper = v.proper;
      head = omega arith;
      tail = v.tail;
      room = omega (arith, size, v.room);
      seqs = Seqs-u32 _ (capacity q) (q.head + 1) _ v.power (
          Seqs-pop q.buffer (capacity q) q.head (queue_size (take_cell q).1) _
            (omega (arith, size, v.room)) (ap u32 (omega arith))
            (subst (Seqs q.buffer (capacity q) q.head) (sym size) v.seqs));
    }

contents-taken :
    (q : Queue)
    → IsValid q
    → 0 < queue_size q
    → ((take_cell q).0, contents (take_cell q).1) ≡ fifo_pop (contents q)
unfolding take_cell fifo_pop
contents-taken q v pos =
    let size : queue_size (take_cell q).1 ≡ queue_size q - 1 = omega (arith, size-taken q v pos) in
    rw (window_of_pos (values q) (capacity q) q.head (queue_size q) pos) (
      ap (λ c. (some (values q (slot q q.head)), c))
        (ap (window (values (take_cell q).1) (capacity q) (u32 (q.head + 1))) size
          ∙ window-ext (values (take_cell q).1) (values q) (capacity q) _ _ (values-taken q)
          ∙ window-u32 (values q) (capacity q) (q.head + 1) (queue_size q - 1) v.power))

-- Popping from a valid queue ends, however often the weak compare-exchange fails. It returns the oldest
-- fiber and leaves the others in order, or finds the queue empty; the queue stays valid.
pub mpmc_pop_refines :
    (spurious : ℕ) (q : Queue)
    → IsValid q
    → Gives (λ r. ((r.0, contents r.1) ≡ fifo_pop (contents q)) × IsValid r.1) (pop spurious q)
unfolding fifo_pop
mpmc_pop_refines n q v = elim (head-sequence q v) [
  | inl (pos, e) ↦ rw (pop-full n q e) (gives (contents-taken q v pos, take_cell-IsValid q v pos))
  | inr (none_left, e) ↦
      rw (pop-empty n q v.head e)
        (gives (rw (ap (window (values q) (capacity q) q.head) none_left), v))
]
