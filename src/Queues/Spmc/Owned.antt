-- ===== src/Queues/Spmc/Owned.antt =====
-- The owner of a queue writes cells and then shows them to the thieves.
use libfev.Base.{
  ℕ, zero, suc, ◌+◌, ◌-◌, ◌%◌, ◌≤◌, ◌<◌, ◌≡◌, ◌≢◌, refl, sym, ap, ◌∙◌, arith, List, [], ◌∷◌, ◌++◌,
  length, length-append, take, update, update_ne, subst,
}
use libfev.Queues.Window.{u32, sub_u32, window, window-push, window-update, length-window, mod-ne}
use libfev.Queues.Spmc.Steps.{rests, writes, System, capacity, slot, pushed, room_for}
use libfev.Queues.Spmc.Known.{
  contents, written_of, todo_of, Inv, Fifo, window-append, Knows-kept, slot-mod,
}

pub words-apart : (s : System) → Inv s → sub_u32 (u32 s.tail) (u32 s.head) ≡ s.tail - s.head
words-apart s v = omega (arith, v.order, v.bound, v.proper)

-- The owner starts a push of `todo`.
pub start-Inv :
    (s : System) (todo : List ℕ)
    → Inv s
    → s.tail + length todo ≤ s.head + capacity s
    → Inv (record s { owner = writes [] todo })
start-Inv s todo v room = record {
  power = v.power;
  proper = v.proper;
  order = v.order;
  bound = omega (arith, room);
  ahead = refl;
  knows = λ i.
      Knows-kept s (record s { owner = writes [] todo }) (s.thieves i) (v.knows i) (omega arith)
        (omega arith) refl (λ a b. refl);
}

length-take-le : (n : ℕ) (xs : List ℕ) → length (take n xs) ≤ n
length-take-le zero xs = omega arith
length-take-le (suc n) [] = omega arith
length-take-le (suc n) (x ∷ xs) = omega (arith, length-take-le n xs)

room_for_fits :
    (s : System) (n : ℕ)
    → Inv s
    → s.tail + room_for (u32 (s.buffer_mask + 1)) (u32 s.head) (u32 s.tail) n ≤ s.head + capacity s
unfolding room_for
room_for_fits s n v =
    let small : u32 (s.buffer_mask + 1) ≡ s.buffer_mask + 1 = omega (arith, v.proper) in
    let free : sub_u32 (s.buffer_mask + 1) (s.tail - s.head) ≡ capacity s - (s.tail - s.head) =
      omega (arith, v.order, v.bound, v.proper) in
    rw (small, words-apart s v, free) (ground (arith, v.order, v.bound))

pub taken_fits :
    (s : System) (fibers : List ℕ)
    → Inv s
    → s.tail
        + length (
            take
              (room_for (u32 (s.buffer_mask + 1)) (u32 s.head) (u32 s.tail) (length fibers))
              fibers)
      ≤ s.head + capacity s
taken_fits s fibers v = omega (
  arith,
  room_for_fits s (length fibers) v,
  length-take-le (room_for (u32 (s.buffer_mask + 1)) (u32 s.head) (u32 s.tail) (length fibers))
      fibers,
)

-- The cell that the owner writes next is none that holds a fiber.
next_cell_free :
    (s : System) (m j : ℕ)
    → Inv s
    → s.tail + m < s.head + capacity s
    → j < s.tail - s.head + m
    → (s.tail + m) % capacity s ≢ (s.head + j) % capacity s
next_cell_free s m j v lt le q =
    let far : s.head + j + (s.tail + m - (s.head + j)) ≡ s.tail + m = omega (arith, v.order) in
    mod-ne (capacity s) (s.head + j) (s.tail + m - (s.head + j)) (omega (arith, v.order))
      (omega (arith, v.order)) (ap (λ k. k % capacity s) far ∙ q)

module _ (s : System) (written : List ℕ) (fiber : ℕ) (todo : List ℕ) (v : Inv s)
    (e : s.owner ≡ writes written (fiber ∷ todo)) where
  unfoldable pub wrote : System
  wrote = record s {
    buffer = update s.buffer (slot s (s.tail + length written)) fiber;
    owner = writes (written ++ fiber ∷ []) todo;
  }

  fits : s.tail + length written + suc (length todo) ≤ s.head + capacity s
  fits =
      subst (λ o. s.tail + length (written_of o) + length (todo_of o) ≤ s.head + capacity s) e
        v.bound

  cell : slot s (s.tail + length written) ≡ (s.tail + length written) % capacity s
  cell = slot-mod s (s.tail + length written) v

  pub write-contents : contents wrote ≡ contents s
  unfolding wrote
  write-contents = rw cell (
      window-update s.buffer (capacity s) ((s.tail + length written) % capacity s) fiber s.head
        (s.tail - s.head)
        (λ j lt. next_cell_free s (length written) j v (omega (arith, fits)) (omega arith)))

  first_kept : s.head < s.tail → wrote.buffer (s.head % capacity s) ≡ s.buffer (s.head % capacity s)
  unfolding wrote
  first_kept lt =
      let here : s.head ≡ s.head + 0 = omega arith in
      update_ne s.buffer (slot s (s.tail + length written)) (s.head % capacity s) fiber (λ q.
        next_cell_free s (length written) 0 v (omega (arith, fits)) (omega arith)
          (sym cell ∙ q ∙ ap (λ h. h % capacity s) here))

  write-ahead :
      window wrote.buffer (capacity s) s.tail (length (written ++ fiber ∷ []))
      ≡ written ++ fiber ∷ []
  unfolding wrote
  write-ahead =
      let before : window s.buffer (capacity s) s.tail (length written) ≡ written =
        subst (λ o. window s.buffer (capacity s) s.tail (length (written_of o)) ≡ written_of o) e
          v.ahead in
      let one_more : length (written ++ fiber ∷ []) ≡ suc (length written) =
        omega (arith, length-append written (fiber ∷ [])) in
      ap (window (update s.buffer (slot s (s.tail + length written)) fiber) (capacity s) s.tail)
        one_more
      ∙ ap (λ c. window (update s.buffer c fiber) (capacity s) s.tail (suc (length written))) cell
      ∙ window-push s.buffer (capacity s) fiber s.tail (length written)
          (omega (arith, fits, v.order))
      ∙ ap (λ l. l ++ fiber ∷ []) before

  pub write-Inv : Inv wrote
  unfolding wrote
  write-Inv = record {
    power = v.power;
    proper = v.proper;
    order = v.order;
    bound = omega (arith, fits, length-append written (fiber ∷ []));
    ahead = write-ahead;
    knows = λ i.
        Knows-kept s wrote (s.thieves i) (v.knows i) (omega arith) (omega arith) refl
          (λ a lt. first_kept lt);
  }

-- The owner shows the fibers that it has written.
store-contents :
    (s : System) (written : List ℕ)
    → Inv s
    → s.owner ≡ writes written []
    → contents (record s { tail = s.tail + length written; owner = rests }) ≡ contents s ++ written
store-contents s written v e =
    let ahead : window s.buffer (capacity s) s.tail (length written) ≡ written =
      subst (λ o. window s.buffer (capacity s) s.tail (length (written_of o)) ≡ written_of o) e
        v.ahead in
    let many : s.tail + length written - s.head ≡ s.tail - s.head + length written =
      omega (arith, v.order) in
    let at : s.head + (s.tail - s.head) ≡ s.tail = omega (arith, v.order) in
    ap (window s.buffer (capacity s) s.head) many
    ∙ window-append s.buffer (capacity s) s.head (s.tail - s.head) (length written)
    ∙ ap (λ k. contents s ++ window s.buffer (capacity s) k (length written)) at
    ∙ ap (λ l. contents s ++ l) ahead

pub store-Inv :
    (s : System) (written : List ℕ)
    → Inv s
    → s.owner ≡ writes written []
    → Inv (record s { tail = s.tail + length written; owner = rests })
store-Inv s written v e =
    let room : s.tail + length written + 0 ≤ s.head + capacity s =
      subst (λ o. s.tail + length (written_of o) + length (todo_of o) ≤ s.head + capacity s) e
        v.bound in
    record {
      power = v.power;
      proper = v.proper;
      order = omega (arith, v.order);
      bound = omega (arith, room);
      ahead = refl;
      knows = λ i.
          Knows-kept s (record s { tail = s.tail + length written; owner = rests }) (s.thieves i)
            (v.knows i) (omega arith) (omega arith) refl (λ a b. refl);
    }

pub store-Fifo :
    (s : System) (written : List ℕ)
    → Inv s
    → s.owner ≡ writes written []
    → Fifo
        (capacity s)
        (pushed written)
        (contents s)
        (contents (record s { tail = s.tail + length written; owner = rests }))
store-Fifo s written v e =
    let w = store-Inv s written v e in
    Fifo.pushes written (store-contents s written v e) (
      omega (
        arith,
        length-window s.buffer (capacity s) s.head (s.tail + length written - s.head),
        w.order,
        w.bound,
      ))
