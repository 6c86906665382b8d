-- ===== src/Queues/Spmc/Push.antt =====
-- `fev_bounded_spmc_queue_push` and `fev_bounded_spmc_queue_push_stq` against the abstract queue.
use libfev.Base.{
  ℕ, zero, suc, ◌+◌, ◌-◌, ◌%◌, ◌≤◌, ◌<◌, ◌≡◌, refl, sym, ap, ◌∙◌, arith, min, List, [], ◌∷◌, ◌++◌,
  true, false, ltb, update, length, take, drop, if◌then◌else◌, Bool-cases, inl, inr,
}
use mathlib.Core.List.{append-nil, append_assoc}
use native.Mathlib.Nat.{mod-mod_of_dvd}
use libfev.Queues.Window.{u32, sub_u32, window, window-push}
use libfev.Queues.Spmc.{Queue, queue_size, slot, push, push_loop, push_stq}
use libfev.Queues.Window.{fifo_push}
use libfev.Queues.Spmc.View.{IsValid, capacity, contents, length-contents}

pushed : Queue → ℕ → Queue
pushed q x = record q { buffer = update q.buffer (slot q q.tail) x; tail = u32 (q.tail + 1) }

size-pushed :
    (q : Queue) (x : ℕ)
    → IsValid q
    → queue_size q < capacity q
    → queue_size (pushed q x) ≡ suc (queue_size q)
unfolding pushed queue_size
size-pushed q x v lt = omega arith

tail-size : (q : Queue) → IsValid q → q.tail ≡ u32 (q.head + queue_size q)
unfolding queue_size
tail-size q v = omega arith

slot-tail : (q : Queue) → IsValid q → slot q q.tail ≡ (q.head + queue_size q) % capacity q
slot-tail q v =
    ap (λ t. t % capacity q) (tail-size q v)
    ∙ mod-mod_of_dvd (capacity q) (q.head + queue_size q) v.power

pushed_lem :
    (q : Queue) (x : ℕ)
    → IsValid q
    → queue_size q < capacity q
    → IsValid (pushed q x) × (contents (pushed q x) ≡ contents q ++ x ∷ [])
unfolding pushed
pushed_lem q x v lt =
    let size = size-pushed q x v lt in
    (
      record {
        power = v.power;
        proper = v.proper;
        head = v.head;
        tail = omega arith;
        room = omega (arith, size);
      },
      ap (window (update q.buffer (slot q q.tail) x) (capacity q) q.head) size
          ∙ ap (λ i. window (update q.buffer i x) (capacity q) q.head (suc (queue_size q)))
              (slot-tail q v)
          ∙ window-push q.buffer (capacity q) x q.head (queue_size q) lt,
    )

push-eq :
    (q : Queue) (x : ℕ)
    → push q x ≡ (if ltb (queue_size q) (capacity q) then (true, pushed q x) else (false, q))
unfolding push pushed queue_size
push-eq q x = ground arith

-- Pushing to a valid queue appends the fiber if there is room, and else changes nothing; the queue
-- stays valid.
pub push_refines :
    (q : Queue) (x : ℕ)
    → IsValid q
    → (((push q x).0, contents (push q x).1) ≡ fifo_push (capacity q) (contents q) x)
      × IsValid (push q x).1
unfolding fifo_push
push_refines q x v =
    rw (push-eq q x, length-contents q)
      (elim (Bool-cases (ltb (queue_size q) (capacity q))) [
        | inl lt ↦ let (w, e) = pushed_lem q x v (ground arith) in rw lt (ap (λ c. (true, c)) e, w)
        | inr ge ↦ rw ge (refl, v)
      ])

abbrev push_size : Queue → ℕ → ℕ
push_size q n = min n (capacity q - queue_size q)

-- The loop writes `n` fibers that fit.
push_loop_lem :
    (n : ℕ) (q : Queue) (fibers : List ℕ)
    → IsValid q
    → n ≤ length fibers
    → queue_size q + n ≤ capacity q
    → IsValid (push_loop n q fibers).0
      × (contents (push_loop n q fibers).0 ≡ contents q ++ take n fibers)
      × ((push_loop n q fibers).1 ≡ drop n fibers)
unfolding push_loop pushed
push_loop_lem zero q fibers v le fits = (v, sym (append-nil (contents q)), refl)
push_loop_lem (suc n) q [] v le fits = absurd (omega arith)
push_loop_lem (suc n) q (x ∷ fibers) v le fits =
    let (w, e) = pushed_lem q x v (omega arith) in
    let (w', e', r) =
      push_loop_lem n (pushed q x) fibers w (omega arith)
        (omega (arith, size-pushed q x v (omega arith))) in
    (
      w',
      e' ∙ ap (λ c. c ++ take n fibers) e ∙ append_assoc (contents q) (x ∷ []) (take n fibers),
      r,
    )

count-eq :
    (q : Queue) (n : ℕ)
    → IsValid q
    → (let free = sub_u32 (u32 (q.buffer_mask + 1)) (sub_u32 q.tail q.head) in
        if ltb free n then free else n)
      ≡ push_size q n
unfolding queue_size
count-eq q n v = ground arith

stq-eq :
    (q : Queue) (stqh : List ℕ)
    → IsValid q
    → push_stq q stqh (length stqh) ≡ (
      (push_loop (push_size q (length stqh)) q stqh).0,
      (push_loop (push_size q (length stqh)) q stqh).1,
      push_size q (length stqh),
    )
unfolding push_stq
stq-eq q stqh v =
    ap (λ k. ((push_loop k q stqh).0, (push_loop k q stqh).1, k)) (count-eq q (length stqh) v)

-- Pushing a list of fibers, whose length is passed along, to a valid queue appends as many of its first
-- fibers as there is room for, in order, hands back the others and reports how many it took; the queue
-- stays valid.
pub push_stq_lem :
    (q : Queue) (stqh : List ℕ)
    → IsValid q
    → let (q', rest, n) = push_stq q stqh (length stqh) in
      (n ≡ min (length stqh) (capacity q - length (contents q)))
      × (contents q' ≡ contents q ++ take n stqh)
      × (rest ≡ drop n stqh)
      × IsValid q'
push_stq_lem q stqh v =
    let n = push_size q (length stqh) in
    let (w, e, r) = push_loop_lem n q stqh v (omega arith) (omega (arith, v.room)) in
    rw (stq-eq q stqh v, length-contents q) (refl, e, r, w)
