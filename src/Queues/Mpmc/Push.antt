-- ===== src/Queues/Mpmc/Push.antt =====
-- `fev_bounded_mpmc_queue_push` and `fev_bounded_mpmc_queue_push_stq` against the abstract queue.
use libfev.Base.{
  ℕ, zero, suc, ◌+◌, ◌^◌, ◌<◌, ◌≡◌, refl, sym, ap, ◌∙◌, arith, List, [], ◌∷◌, ◌++◌, Bool, true,
  false, some, ltb, update, length, ◌⊎◌, inl, inr, subst,
}
use mathlib.Core.List.{append-nil, append_assoc}
use native.Mathlib.Nat.{add-zero}
use libfev.Queues.Window.{u32, window, window-ext, window-push, fifo_push}
use libfev.Queues.Mpmc.{
  Cell, Queue, queue_size, slot, fill_cell, push, push_stq_loop, push_stq, stq_round,
}
use libfev.Queues.Mpmc.Seqs.{Seqs, Seqs-push}
use libfev.Queues.Mpmc.View.{
  IsValid, capacity, values, contents, length-contents, tail-sequence, slot-tail,
}
use libfev.Base.{Gives, gives, Gives-weaken}

push-free :
    (n : ℕ) (q : Queue) (x : ℕ)
    → q.tail < 2 ^ 32
    → (q.buffer (slot q q.tail)).sequence ≡ q.tail
    → push n q x ≡ some (true, fill_cell q x)
unfolding push
push-free zero q x lt e = ground arith
push-free (suc n) q x lt e = ground (arith, push-free n q x lt)

push-full :
    (n : ℕ) (q : Queue) (x : ℕ)
    → IsValid q
    → queue_size q ≡ capacity q
    → (q.buffer (slot q q.tail)).sequence ≡ u32 (q.head + 1)
    → push n q x ≡ some (false, q)
unfolding push queue_size
push-full zero q x v full e = ground arith
push-full (suc n) q x v full e = ground arith

size-filled :
    (q : Queue) (x : ℕ)
    → IsValid q
    → queue_size q < capacity q
    → queue_size (fill_cell q x) ≡ suc (queue_size q)
unfolding fill_cell queue_size
size-filled q x v lt = omega arith

tail-eq : (q : Queue) → IsValid q → u32 (q.tail + 1) ≡ u32 (q.head + queue_size q + 1)
unfolding queue_size
tail-eq q v = omega arith

fill_cell-IsValid :
    (q : Queue) (x : ℕ) → IsValid q → queue_size q < capacity q → IsValid (fill_cell q x)
unfolding fill_cell
fill_cell-IsValid q x v lt =
    let size = size-filled q x v lt in
    let c : Cell = record { sequence = u32 (q.tail + 1); value = x } in
    record {
      power = v.power;
      pair = v.pair;
      proper = v.proper;
      head = v.head;
      tail = omega arith;
      room = omega (arith, size);
      seqs = subst (Seqs (update q.buffer (slot q q.tail) c) (capacity q) q.head) (sym size) (
          subst (λ i. Seqs (update q.buffer i c) (capacity q) q.head (suc (queue_size q)))
            (sym (slot-tail q v))
            (Seqs-push q.buffer (capacity q) q.head (queue_size q) c lt (tail-eq q v) v.seqs));
    }

values-filled :
    (q : Queue) (x i : ℕ) → values (fill_cell q x) i ≡ update (values q) (slot q q.tail) x i
unfolding fill_cell
values-filled q x i = ground arith

contents-filled :
    (q : Queue) (x : ℕ)
    → IsValid q
    → queue_size q < capacity q
    → contents (fill_cell q x) ≡ contents q ++ x ∷ []
unfolding fill_cell
contents-filled q x v lt =
    window-ext (values (fill_cell q x)) (update (values q) (slot q q.tail) x) (capacity q) q.head _
      (values-filled q x)
    ∙ ap (window (update (values q) (slot q q.tail) x) (capacity q) q.head) (size-filled q x v lt)
    ∙ ap (λ i. window (update (values q) i x) (capacity q) q.head (suc (queue_size q)))
        (slot-tail q v)
    ∙ window-push (values q) (capacity q) x q.head (queue_size q) lt

fits : (q : Queue) → queue_size q < capacity q → ltb (length (contents q)) (capacity q) ≡ true
fits q lt = rw (length-contents q) (ground arith)

fills : (q : Queue) → queue_size q ≡ capacity q → ltb (length (contents q)) (capacity q) ≡ false
fills q full = rw (length-contents q) (ground arith)

abbrev Pushed : Queue → ℕ → Bool × Queue → Type 0
Pushed q x r =
    ((r.0, contents r.1) ≡ fifo_push (capacity q) (contents q) x)
    × IsValid r.1
    × (capacity r.1 ≡ capacity q)

filled_lem :
    (q : Queue) (x : ℕ) → IsValid q → queue_size q < capacity q → Pushed q x (true, fill_cell q x)
unfolding fifo_push fill_cell
filled_lem q x v lt =
    rw (fits q lt)
      (ap (λ c. (true, c)) (contents-filled q x v lt), fill_cell-IsValid q x v lt, refl)

refused_lem : (q : Queue) (x : ℕ) → IsValid q → queue_size q ≡ capacity q → Pushed q x (false, q)
unfolding fifo_push
refused_lem q x v full = rw (fills q full) (refl, v, refl)

-- Pushing to a valid queue ends, however often the weak compare-exchange fails. It appends the fiber if
-- there is room, and else changes nothing; the queue stays valid and keeps its capacity.
pub mpmc_push_refines :
    (spurious : ℕ) (q : Queue) (x : ℕ)
    → IsValid q
    → Gives
        (λ r.
          ((r.0, contents r.1) ≡ fifo_push (capacity q) (contents q) x)
          × IsValid r.1
          × (capacity r.1 ≡ capacity q))
        (push spurious q x)
mpmc_push_refines n q x v = elim (tail-sequence q v) [
  | inl (lt, e) ↦ rw (push-free n q x v.tail e) (gives (filled_lem q x v lt))
  | inr (full, e) ↦ rw (push-full n q x v full e) (gives (refused_lem q x v full))
]

-- What pushing the list `stqh` leads to, after `n` fibers: the queue took the fibers `taken`.
pub record Bulk (q : Queue) (stqh : List ℕ) (n : ℕ) (r : Queue × List ℕ × ℕ) : Type 0 where
  pub taken : List ℕ
  pub split : stqh ≡ taken ++ r.1
  pub appended : contents r.0 ≡ contents q ++ taken
  pub counted : r.2 ≡ n + length taken
  pub greedy : (r.1 ≡ []) ⊎ (length (contents r.0) ≡ capacity q)
  pub valid : IsValid r.0
  pub kept : capacity r.0 ≡ capacity q

Bulk-none :
    (q : Queue) (stqh : List ℕ) (n : ℕ)
    → IsValid q
    → (stqh ≡ []) ⊎ (length (contents q) ≡ capacity q)
    → Bulk q stqh n (q, stqh, n)
Bulk-none q stqh n v stop = record {
  taken = [];
  split = refl;
  appended = sym (append-nil (contents q));
  counted = sym (add-zero n);
  greedy = stop;
  valid = v;
  kept = refl;
}

Bulk-push :
    (x : ℕ) (stqh : List ℕ) (q : Queue) (n : ℕ)
    → IsValid q
    → queue_size q < capacity q
    → (r : Queue × List ℕ × ℕ) → Bulk (fill_cell q x) stqh (n + 1) r
    → Bulk q (x ∷ stqh) n r
unfolding fill_cell
Bulk-push x stqh q n v lt r b = record {
  taken = x ∷ b.taken;
  split = ap (λ l. x ∷ l) b.split;
  appended =
      b.appended
      ∙ ap (λ c. c ++ b.taken) (contents-filled q x v lt)
      ∙ append_assoc (contents q) (x ∷ []) b.taken;
  counted = omega (arith, b.counted);
  greedy = b.greedy;
  valid = b.valid;
  kept = b.kept;
}

push_stq_loop_lem :
    (spurious : Queue → ℕ) (stqh : List ℕ) (q : Queue) (n : ℕ)
    → IsValid q
    → Gives (Bulk q stqh n) (push_stq_loop spurious stqh q n)
unfolding push_stq_loop stq_round
push_stq_loop_lem spurious [] q n v = gives (Bulk-none q [] n v (inl refl))
push_stq_loop_lem spurious (x ∷ stqh) q n v = elim (tail-sequence q v) [
  | inl (lt, e) ↦
      let rest =
        push_stq_loop_lem spurious stqh (fill_cell q x) (n + 1) (fill_cell-IsValid q x v lt) in
      rw (push-free (spurious q) q x v.tail e) (Gives-weaken rest (Bulk-push x stqh q n v lt))
  | inr (full, e) ↦
      rw (push-full (spurious q) q x v full e)
        (gives (Bulk-none q (x ∷ stqh) n v (inr (length-contents q ∙ full))))
]

-- Pushing a list of fibers to a valid queue ends. The queue takes some first fibers of the list, in
-- order after those it held, hands back the others and reports how many it took; it stops only when the
-- list is empty or the queue is full, and stays valid.
pub mpmc_push_stq_lem :
    (spurious : Queue → ℕ) (q : Queue) (stqh : List ℕ)
    → IsValid q
    → Gives (Bulk q stqh 0) (push_stq spurious q stqh)
unfolding push_stq
mpmc_push_stq_lem spurious q stqh v = push_stq_loop_lem spurious stqh q 0 v
