-- ===== src/Queues/Spmc/Pop.antt =====
-- `fev_bounded_spmc_queue_pop` against the abstract queue.
use libfev.Base.{ℕ, zero, suc, ◌+◌, ◌-◌, ◌<◌, ◌≡◌, ◌≢◌, ap, arith, none, some}
use native.Mathlib.Decide.{ℕ_discrete}
use libfev.Queues.Window.{u32, window, window-u32}
use libfev.Queues.Spmc.{Queue, queue_size, slot, pop}
use libfev.Queues.Window.{fifo_pop, window_of_pos}
use libfev.Queues.Spmc.View.{IsValid, capacity, contents}

pop-empty : (n : ℕ) (q : Queue) → q.head ≡ q.tail → pop n q ≡ (none, q)
unfolding pop
pop-empty zero q e = ground arith
pop-empty (suc n) q e = ground arith

abbrev popped : Queue → Queue
popped q = record q { head = u32 (q.head + 1) }

pop-some :
    (n : ℕ) (q : Queue) → q.head ≢ q.tail → pop n q ≡ (some (q.buffer (slot q q.head)), popped q)
unfolding pop
pop-some zero q e = ground arith
pop-some (suc n) q e = ground (arith, pop-some n q e)

popped-size :
    (q : Queue)
    → IsValid q
    → q.head ≢ q.tail
    → (0 < queue_size q) × (queue_size (popped q) ≡ queue_size q - 1)
unfolding queue_size
popped-size q v ne = omega arith

size-empty : (q : Queue) → IsValid q → q.head ≡ q.tail → queue_size q ≡ 0
unfolding queue_size
size-empty q v e = omega arith

-- Popping from a valid queue, however often the weak compare-exchange fails, returns the oldest fiber
-- and leaves the others in order, or finds the queue empty; the queue stays valid.
pub pop_refines :
    (spurious : ℕ) (q : Queue)
    → IsValid q
    → (((pop spurious q).0, contents (pop spurious q).1) ≡ fifo_pop (contents q))
      × IsValid (pop spurious q).1
unfolding fifo_pop
pop_refines n q v = elim (ℕ_discrete q.head q.tail) [
  | yes e ↦
      rw (pop-empty n q e) (rw (ap (window q.buffer (capacity q) q.head) (size-empty q v e)), v)
  | no ne ↦
      let (pos, less) = popped-size q v ne in
      rw (pop-some n q ne) (
        rw (
          window_of_pos q.buffer (capacity q) q.head (queue_size q) pos,
          less,
          window-u32 q.buffer (capacity q) (q.head + 1) (queue_size q - 1) v.power,
        ),
        record {
          power = v.power;
          proper = v.proper;
          head = omega arith;
          tail = v.tail;
          room = omega (arith, v.room);
        },
      )
]
