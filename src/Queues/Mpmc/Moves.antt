-- ===== src/Queues/Mpmc/Moves.antt =====
-- The threads of a queue, interleaved, keep to the abstract queue.
use libfev.Base.{
  ℕ, ◌+◌, ◌^◌, ◌≤◌, ◌<◌, ◌≡◌, refl, sym, ap, ◌∙◌, arith, Option, none, some, update, subst,
}
use libfev.Queues.Window.{u32}
use libfev.Queues.Mpmc.Steps.{
  Phase, idle, pop_loaded, pop_reloads, pop_swaps, pop_took, pop_read, push_loaded, push_reloads,
  push_swaps, push_took, push_wrote, System, capacity, slot, move, Label, silent, reserved,
  published, taken, returned, look, pop_next, pop_label, push_next, push_label, pop_diff, push_diff,
  Step,
}
use libfev.Queues.Mpmc.Entries.{Entry, Abstract, Allowed, hidden}
use libfev.Queues.Mpmc.Known.{
  cell, Pushes, Pops, Knows, pop_old, pop_seen, pop_has, pop_got, push_old, push_seen, push_has,
  push_put, Inv, slot-mod,
}
use libfev.Queues.Mpmc.Kept.{move-Inv}
use libfev.Queues.Mpmc.Looks.{
  bare, unready, there, at_head, view, pop_next-Knows, push_next-Knows, pop_label-Allowed,
  push_label-Allowed,
}
use libfev.Queues.Mpmc.Popping.{
  u32-eq, no_push, no_pop, after_take, entries_take, take-Inv, take-Allowed,
}
use libfev.Queues.Mpmc.Freeing.{after_free, freed, free-Inv, free-Allowed}
use libfev.Queues.Mpmc.Pushing.{
  after_reserve, entries_reserve, reserve-Inv, reserve-Allowed, after_write, filled, write-Inv,
  write-Allowed,
}
use libfev.Queues.Mpmc.Publishing.{
  after_publish, shown, entries_publish, publish-Inv, publish-Allowed,
}

-- The cells, the positions and the threads of the queue are as the abstract queue has them.
pub data Shows (s : System) : Abstract → Type 0 where
  shows : (e : ℕ → Entry) (hands : ℕ → Option ℕ) (v : Inv s e hands) → Shows s (view s e hands v)

-- The abstract queue may go with the step, to what the queue then shows.
pub record Simulated (size : ℕ) (before : Abstract) (l : Label) (t : System) : Type 0 where
  pub after : Abstract
  pub shown_after : Shows t after
  pub allowed : Allowed size before after l

-- The count that a thread has for its next test.
abbrev pub count_of : Phase → Option ℕ
count_of (pop_loaded head) = some head
count_of (pop_swaps head) = some head
count_of (push_loaded item tail) = some tail
count_of (push_swaps item tail) = some tail
count_of _ = none

-- No thread has slept while the positions went half round the 32 bits.
abbrev pub IsTimely : System → Type 0
IsTimely s = (i p : ℕ) → count_of (s.phases i) ≡ some p → s.tail + capacity s < p + 2 ^ 31

module _ (s : System) (e : ℕ → Entry) (hands : ℕ → Option ℕ) (v : Inv s e hands) where
  -- A step that moves its thread only.
  by_move :
      (i : ℕ) (q p : Phase) (l : Label)
      → s.phases i ≡ q
      → ((x t : ℕ) → Pushes q x t → Pushes p x t)
      → ((h : ℕ) → Pops q h → Pops p h)
      → Knows s e hands i p
      → Allowed (capacity s) (view s e hands v) (view s e hands v) l
      → Simulated (capacity s) (view s e hands v) l (move s i p)
  by_move i q p l at a b k allowed = record {
    after = view s e hands v;
    shown_after = shows e hands (move-Inv s e hands i p v (no_push at a) (no_pop at b) k);
    allowed = allowed;
  }

  by_inv :
      (t : System) (e' : ℕ → Entry) (hands' : ℕ → Option ℕ) (l : Label) (w : Inv t e' hands')
      → Allowed (capacity s) (view s e hands v) (view t e' hands' w) l
      → Simulated (capacity s) (view s e hands v) l t
  by_inv t e' hands' l w allowed = record {
    after = view t e' hands' w;
    shown_after = shows e' hands' w;
    allowed = allowed;
  }

  known : (i : ℕ) (p : Phase) → s.phases i ≡ p → Knows s e hands i p
  known i p at = subst (Knows s e hands i) at (v.knows i)

  pop_count : (i h : ℕ) → Knows s e hands i (pop_loaded h) → h ≤ s.head
  pop_count i h (pop_old le) = le

  push_count : (i x t : ℕ) → Knows s e hands i (push_loaded x t) → t ≤ s.tail
  push_count i x t (push_old le) = le

  taking :
      (i h : ℕ)
      → s.phases i ≡ pop_swaps h
      → s.tail + capacity s < h + 2 ^ 31
      → u32 s.head ≡ u32 h
      → Knows s e hands i (pop_swaps h)
      → Simulated
          (capacity s)
          (view s e hands v)
          (taken i)
          (move (record s { head = s.head + 1 }) i (pop_took h))
  unfolding after_take entries_take
  taking i h at timely word (pop_seen le f) =
      let here : h ≡ s.head = u32-eq h s.head le (omega (arith, v.order)) word in
      let (lt, seen) = f here in
      let at' : s.phases i ≡ pop_swaps s.head = at ∙ ap pop_swaps here in
      let seen' : (cell s s.head).sequence ≡ s.head + 1 =
        subst (λ z. (cell s z).sequence ≡ z + 1) here seen in
      subst
        (λ z.
          Simulated (capacity s) (view s e hands v) (taken i)
            (move (record s { head = s.head + 1 }) i (pop_took z)))
        (sym here)
        (elim (at_head s e hands v) [
          | bare a b c ↦ absurd (omega (arith, b, seen'))
          | unready j x a b c ↦ absurd (omega (arith, c, seen'))
          | there x a b c d ↦
              by_inv (after_take s e hands v i x at' a b c d) _ _ (taken i)
                (take-Inv s e hands v i x at' a b c d) (take-Allowed s e hands v i x at' a b c d)
        ])

  reading :
      (i h : ℕ)
      → s.phases i ≡ pop_took h
      → Knows s e hands i (pop_took h)
      → Simulated
          (capacity s)
          (view s e hands v)
          silent
          (move s i (pop_read h (s.buffer (slot s h)).value))
  reading i h at (pop_has x a b c d en hand) =
      let value : x ≡ (s.buffer (slot s h)).value =
        sym d ∙ ap (λ k. (s.buffer k).value) (sym (slot-mod s h v.power)) in
      by_move i (pop_took h) (pop_read h (s.buffer (slot s h)).value) silent at
        (λ _ _ w. elim w [ ]) turned
        (subst (λ y. Knows s e hands i (pop_read h y)) value (pop_got a b c en hand)) (hidden refl)
    where
      turned : {y : ℕ} (g : ℕ) → Pops (pop_took h) g → Pops (pop_read h y) g
      turned _ Pops.took = Pops.read

  freeing :
      (i h x : ℕ)
      → s.phases i ≡ pop_read h x
      → Knows s e hands i (pop_read h x)
      → Simulated (capacity s) (view s e hands v) (returned i x) (
          move
            (record s {
              buffer =
                  update s.buffer
                    (slot s h)
                    (record (s.buffer (slot s h)) { sequence = h + s.buffer_mask + 1 });
            })
            i
            idle)
  unfolding after_free freed
  freeing i h x at (pop_got a b c en hand) =
      by_inv (after_free s e hands v i h x at a b c en hand) e (update hands i none) (returned i x)
        (free-Inv s e hands v i h x at a b c en hand)
        (free-Allowed s e hands v i h x at a b c en hand)

  reserving :
      (i x t : ℕ)
      → s.phases i ≡ push_swaps x t
      → s.tail + capacity s < t + 2 ^ 31
      → u32 s.tail ≡ u32 t
      → Knows s e hands i (push_swaps x t)
      → Simulated
          (capacity s)
          (view s e hands v)
          (reserved i x)
          (move (record s { tail = s.tail + 1 }) i (push_took x t))
  unfolding after_reserve entries_reserve
  reserving i x t at timely word (push_seen le f) =
      let here : t ≡ s.tail = u32-eq t s.tail le (omega arith) word in
      let (lt, seen) = f here in
      let at' : s.phases i ≡ push_swaps x s.tail = at ∙ ap (push_swaps x) here in
      let seen' : (cell s s.tail).sequence ≡ s.tail =
        subst (λ z. (cell s z).sequence ≡ z) here seen in
      let lt' : s.tail < s.head + capacity s = omega arith in
      subst
        (λ z.
          Simulated (capacity s) (view s e hands v) (reserved i x)
            (move (record s { tail = s.tail + 1 }) i (push_took x z)))
        (sym here)
        (by_inv (after_reserve s e hands v i x at' lt' seen')
          (entries_reserve s e hands v i x at' lt' seen') hands (reserved i x)
          (reserve-Inv s e hands v i x at' lt' seen')
          (reserve-Allowed s e hands v i x at' lt' seen'))

  writing :
      (i x t : ℕ)
      → s.phases i ≡ push_took x t
      → Knows s e hands i (push_took x t)
      → Simulated (capacity s) (view s e hands v) silent (
          move
            (record s {
              buffer = update s.buffer (slot s t) (record (s.buffer (slot s t)) { value = x });
            })
            i
            (push_wrote x t))
  unfolding after_write filled
  writing i x t at (push_has a b en c) =
      by_inv (after_write s e hands v i x t at a b en c) e hands silent
        (write-Inv s e hands v i x t at a b en c) (write-Allowed s e hands v i x t at a b en c)

  publishing :
      (i x t : ℕ)
      → s.phases i ≡ push_wrote x t
      → Knows s e hands i (push_wrote x t)
      → Simulated (capacity s) (view s e hands v) (published i x) (
          move
            (record s {
              buffer =
                  update s.buffer (slot s t) (record (s.buffer (slot s t)) { sequence = t + 1 });
            })
            i
            idle)
  unfolding after_publish shown entries_publish
  publishing i x t at (push_put a b en c d) =
      by_inv (after_publish s e hands v i x t at a b en c d)
        (entries_publish s e hands v i x t at a b en c d) hands (published i x)
        (publish-Inv s e hands v i x t at a b en c d)
        (publish-Allowed s e hands v i x t at a b en c d)

  pub Step-Simulated :
      {t : System} {l : Label}
      → IsTimely s
      → Step s l t
      → Simulated (capacity s) (view s e hands v) l t
  Step-Simulated timely (Step.pop i at) =
      by_move i idle (pop_loaded s.head) silent at (λ _ _ w. elim w [ ]) (λ _ w. elim w [ ])
        (pop_old (omega arith)) (hidden refl)
  Step-Simulated timely (Step.pop_look i h at) =
      let le = pop_count i h (known i _ at) in
      let near = timely i h (ap count_of at) in
      by_move i (pop_loaded h) (pop_next h (look (pop_diff s h))) (pop_label (look (pop_diff s h)))
        at (λ _ _ w. elim w [ ]) (λ _ w. elim w [ ]) (pop_next-Knows s e hands v i h le near)
        (pop_label-Allowed s e hands v h le near)
  Step-Simulated timely (Step.pop_reload i at) =
      by_move i pop_reloads (pop_loaded s.head) silent at (λ _ _ w. elim w [ ]) (λ _ w. elim w [ ])
        (pop_old (omega arith)) (hidden refl)
  Step-Simulated timely (Step.pop_swap i h at word) =
      taking i h at (timely i h (ap count_of at)) word (known i _ at)
  Step-Simulated timely (Step.pop_swap_fails i h at) =
      by_move i (pop_swaps h) (pop_loaded s.head) silent at (λ _ _ w. elim w [ ])
        (λ _ w. elim w [ ]) (pop_old (omega arith)) (hidden refl)
  Step-Simulated timely (Step.read_value i h at) = reading i h at (known i _ at)
  Step-Simulated timely (Step.free_cell i h x at) = freeing i h x at (known i _ at)
  Step-Simulated timely (Step.push i x at) =
      by_move i idle (push_loaded x s.tail) silent at (λ _ _ w. elim w [ ]) (λ _ w. elim w [ ])
        (push_old (omega arith)) (hidden refl)
  Step-Simulated timely (Step.push_look i x t at) =
      let le = push_count i x t (known i _ at) in
      let near = timely i t (ap count_of at) in
      by_move i (push_loaded x t) (push_next x t (look (push_diff s t)))
        (push_label (look (push_diff s t))) at (λ _ _ w. elim w [ ]) (λ _ w. elim w [ ])
        (push_next-Knows s e hands v i x t le near) (push_label-Allowed s e hands v t le near)
  Step-Simulated timely (Step.push_reload i x at) =
      by_move i (push_reloads x) (push_loaded x s.tail) silent at (λ _ _ w. elim w [ ])
        (λ _ w. elim w [ ]) (push_old (omega arith)) (hidden refl)
  Step-Simulated timely (Step.push_swap i x t at word) =
      reserving i x t at (timely i t (ap count_of at)) word (known i _ at)
  Step-Simulated timely (Step.push_swap_fails i x t at) =
      by_move i (push_swaps x t) (push_loaded x s.tail) silent at (λ _ _ w. elim w [ ])
        (λ _ w. elim w [ ]) (push_old (omega arith)) (hidden refl)
  Step-Simulated timely (Step.write_value i x t at) = writing i x t at (known i _ at)
  Step-Simulated timely (Step.publish i x t at) = publishing i x t at (known i _ at)
