-- ===== src/Queues/Mpmc/Looks.antt =====
-- What the tests of a pop and of a push on the words tell about the positions.
use libfev.Base.{
  ℕ, suc, ◌+◌, ◌-◌, ◌^◌, ◌≤◌, ◌<◌, ◌==◌, ◌≡◌, inl, inr, refl, ap, ◌∙◌, arith, if◌then◌else◌, Option,
  some, [], ◌∷◌, subst, Bool-cases, ltb,
}
use native.Mathlib.Decide.{dec_lt}
use libfev.Queues.Window.{u32, sub_u32}
use libfev.Queues.Mpmc.Steps.{
  Phase, System, capacity, pop_failed, push_failed, Look, same, behind, ahead, look, pop_next,
  pop_label, push_next, push_label, pop_diff, push_diff,
}
use libfev.Queues.Mpmc.Entries.{
  Entry, pending, ready, span, length-span, Abstract, Allowed, hidden, finds_bare, finds_pending,
  finds_full, finds_held,
}
use libfev.Queues.Mpmc.Known.{
  cell, Pops, Used, waits, full, Free, free, held, Knows, nothing, pop_old, pop_again, pop_seen,
  pop_has, pop_got, push_old, push_again, push_seen, push_has, push_put, Inv, slot-mod, cell-round,
}

-- By how much one count is before another, if they are close.
abbrev compared : (seq want : ℕ) → Look
compared seq want = if seq == want then same else if ltb seq want then behind else ahead

look-compared :
    (seq want : ℕ)
    → seq < want + 2 ^ 31
    → want ≤ seq + 2 ^ 31
    → look (sub_u32 (u32 seq) (u32 want)) ≡ compared seq want
unfolding look
look-compared seq want a b = elim (Bool-cases (seq == want)) [
  | inl e ↦ let z : sub_u32 (u32 seq) (u32 want) ≡ 0 = ground arith in rw (e, z) refl
  | inr ne ↦ elim (Bool-cases (ltb seq want)) [
    | inl lt ↦
        let d : sub_u32 (u32 seq) (u32 want) ≡ 2 ^ 32 - (want - seq) = ground arith in
        rw (ne, lt, d) (ground arith)
    | inr ge ↦
        let d : sub_u32 (u32 seq) (u32 want) ≡ seq - want = ground arith in
        rw (ne, ge, d) (ground arith)
  ]
]

pub data AtHead (s : System) (e : ℕ → Entry) : Type 0 where
  bare :
      s.head ≡ s.tail
      → (cell s s.head).sequence ≤ s.head
      → s.head ≤ (cell s s.head).sequence + capacity s
      → AtHead s e
  unready :
      (i x : ℕ)
      → s.head < s.tail
      → e s.head ≡ pending i x
      → (cell s s.head).sequence ≡ s.head
      → AtHead s e
  there :
      (x : ℕ)
      → s.head < s.tail
      → e s.head ≡ ready x
      → (cell s s.head).sequence ≡ s.head + 1
      → (cell s s.head).value ≡ x
      → AtHead s e

pub data AtTail (s : System) (hands : ℕ → Option ℕ) : Type 0 where
  has_room : s.tail < s.head + capacity s → (cell s s.tail).sequence ≡ s.tail → AtTail s hands
  is_held :
      (j x : ℕ)
      → hands j ≡ some x
      → (cell s s.tail).sequence < s.tail
      → s.tail ≤ (cell s s.tail).sequence + capacity s
      → AtTail s hands
  is_full :
      s.tail ≡ s.head + capacity s
      → (cell s s.tail).sequence < s.tail
      → s.tail ≤ (cell s s.tail).sequence + capacity s
      → AtTail s hands

module _ (s : System) (e : ℕ → Entry) (hands : ℕ → Option ℕ) (v : Inv s e hands) where
  used-AtHead : (en : Entry) → e s.head ≡ en → s.head < s.tail → Used s s.head en → AtHead s e
  used-AtHead _ q lt (waits {i} {x} a b) = unready i x lt q a
  used-AtHead _ q lt (full {x} a b) = there x lt q a b

  free-AtHead : s.head ≡ s.tail → Free s s.head → AtHead s e
  free-AtHead q (free a) = bare q (omega (arith, a)) (omega (arith, a))
  free-AtHead q (held j h w at a) = bare q (omega (arith, a, at, v.big)) (omega (arith, a, at))

  pub at_head : AtHead s e
  at_head = elim (dec_lt s.head s.tail) [
    | yes lt ↦ used-AtHead (e s.head) refl lt (v.used s.head (omega arith) lt)
    | no ge ↦
        let q : s.head ≡ s.tail = omega (arith, v.order) in
        free-AtHead q (v.room s.head (omega arith) (omega (arith, v.big)))
  ]

  -- The thread that has a position below `head` holds its item.
  hand_of : (j h : ℕ) (p : Phase) → Knows s e hands j p → Pops p h → (x : ℕ) × (hands j ≡ some x)
  hand_of j h _ (pop_has x a b c d f g) w = (x, g)
  hand_of j h _ (pop_got {x = x} a b c f g) w = (x, g)
  hand_of j h _ nothing w = elim w [ ]
  hand_of j h _ (pop_old a) w = elim w [ ]
  hand_of j h _ pop_again w = elim w [ ]
  hand_of j h _ (pop_seen a b) w = elim w [ ]
  hand_of j h _ (push_old a) w = elim w [ ]
  hand_of j h _ push_again w = elim w [ ]
  hand_of j h _ (push_seen a b) w = elim w [ ]
  hand_of j h _ (push_has a b c d) w = elim w [ ]
  hand_of j h _ (push_put a b c d f) w = elim w [ ]

  free-AtTail : s.tail < s.head + capacity s → Free s s.tail → AtTail s hands
  free-AtTail lt (free a) = has_room lt a
  free-AtTail lt (held j h w at a) =
      let (x, hand) = hand_of j h (s.phases j) (v.knows j) w in
      is_held j x hand (omega (arith, a, at, v.big)) (omega (arith, a, at))

  used-AtTail : s.tail ≡ s.head + capacity s → (en : Entry) → Used s s.head en → AtTail s hands
  used-AtTail q _ (waits {i} {x} a b) =
      let c = ap (λ z. (cell s z).sequence) q ∙ ap (λ z. z.sequence) (cell-round s s.head) ∙ a in
      is_full q (omega (arith, c, v.big)) (omega (arith, c))
  used-AtTail q _ (full {x} a b) =
      let c = ap (λ z. (cell s z).sequence) q ∙ ap (λ z. z.sequence) (cell-round s s.head) ∙ a in
      is_full q (omega (arith, c, v.big)) (omega (arith, c))

  pub at_tail : AtTail s hands
  at_tail = elim (dec_lt s.tail (s.head + capacity s)) [
    | yes lt ↦ free-AtTail lt (v.room s.tail (omega arith) lt)
    | no ge ↦
        let q : s.tail ≡ s.head + capacity s = omega (arith, v.bound) in
        used-AtTail q (e s.head) (v.used s.head (omega arith) (omega (arith, v.big)))
  ]

  head_low : s.head ≤ (cell s s.head).sequence + capacity s
  head_low = elim at_head [
    | bare a b c ↦ c
    | unready i x a b c ↦ omega (arith, c)
    | there x a b c d ↦ omega (arith, c)
  ]

  tail_low : s.tail ≤ (cell s s.tail).sequence + capacity s
  tail_low = elim at_tail [
    | has_room a b ↦ omega (arith, b)
    | is_held j x a b c ↦ c
    | is_full a b c ↦ c
  ]

  -- A position that has been given to a push has no smaller sequence number.
  given : (t : ℕ) → t < s.tail → t ≤ (cell s t).sequence
  given t lt = elim (dec_lt t s.head) [
    | yes below ↦ omega (arith, v.past t below)
    | no above ↦ by_used (e t) (v.used t (omega arith) lt)
  ]
    where
      by_used : (en : Entry) → Used s t en → t ≤ (cell s t).sequence
      by_used _ (waits a b) = omega (arith, a)
      by_used _ (full a b) = omega (arith, a)

  pub pop_looks :
      (h : ℕ)
      → h ≤ s.head
      → s.tail + capacity s < h + 2 ^ 31
      → look (pop_diff s h) ≡ compared (cell s h).sequence (h + 1)
  unfolding pop_diff
  pop_looks h le timely =
      let at =
        ap (λ z. look (sub_u32 (u32 (s.buffer z).sequence) (u32 (h + 1)))) (slot-mod s h v.power) in
      at
      ∙ look-compared (cell s h).sequence (h + 1) (omega (arith, v.upper h, v.order))
          (low (dec_lt h s.head))
    where
      low : Dec (h < s.head) → h + 1 ≤ (cell s h).sequence + 2 ^ 31
      low (yes lt) = omega (arith, v.past h lt)
      low (no ge) = let q : h ≡ s.head = omega arith in rw q (omega (arith, head_low, v.proper))

  pub push_looks :
      (t : ℕ)
      → t ≤ s.tail
      → s.tail + capacity s < t + 2 ^ 31
      → look (push_diff s t) ≡ compared (cell s t).sequence t
  unfolding push_diff
  push_looks t le timely =
      let at =
        ap (λ z. look (sub_u32 (u32 (s.buffer z).sequence) (u32 t))) (slot-mod s t v.power) in
      at
      ∙ look-compared (cell s t).sequence t (omega (arith, v.upper t, v.order))
          (low (dec_lt t s.tail))
    where
      low : Dec (t < s.tail) → t ≤ (cell s t).sequence + 2 ^ 31
      low (yes lt) = omega (arith, given t lt)
      low (no ge) = let q : t ≡ s.tail = omega arith in rw q (omega (arith, tail_low, v.proper))

  -- What a thread knows after its tests.
  pub pop_next-Knows :
      (i h : ℕ)
      → h ≤ s.head
      → s.tail + capacity s < h + 2 ^ 31
      → Knows s e hands i (pop_next h (look (pop_diff s h)))
  pop_next-Knows i h le timely =
      rw (pop_looks h le timely) (elim (Bool-cases ((cell s h).sequence == h + 1)) [
        | inl t ↦ rw t (pop_seen le λ q. (nonempty q (ground (arith, t)), ground (arith, t)))
        | inr f ↦ elim (Bool-cases (ltb (cell s h).sequence (h + 1))) [
          | inl lt ↦ rw (f, lt) nothing
          | inr ge ↦ rw (f, ge) pop_again
        ]
      ])
    where
      nonempty : h ≡ s.head → (cell s h).sequence ≡ h + 1 → h < s.tail
      nonempty q a =
          let b : (cell s s.head).sequence ≡ s.head + 1 =
            subst (λ z. (cell s z).sequence ≡ z + 1) q a in
          elim at_head [
            | bare c d r ↦ absurd (omega (arith, b, d))
            | unready i x lt r d ↦ omega (arith, lt)
            | there x lt r d val ↦ omega (arith, lt)
          ]

  pub push_next-Knows :
      (i x t : ℕ)
      → t ≤ s.tail
      → s.tail + capacity s < t + 2 ^ 31
      → Knows s e hands i (push_next x t (look (push_diff s t)))
  push_next-Knows i x t le timely =
      rw (push_looks t le timely) (elim (Bool-cases ((cell s t).sequence == t)) [
        | inl y ↦ rw y (push_seen le λ q. (has_space q (ground (arith, y)), ground (arith, y)))
        | inr f ↦ elim (Bool-cases (ltb (cell s t).sequence t)) [
          | inl lt ↦ rw (f, lt) nothing
          | inr ge ↦ rw (f, ge) push_again
        ]
      ])
    where
      has_space : t ≡ s.tail → (cell s t).sequence ≡ t → t < s.head + capacity s
      has_space q a =
          let b : (cell s s.tail).sequence ≡ s.tail = subst (λ z. (cell s z).sequence ≡ z) q a in
          elim at_tail [
            | has_room lt c ↦ omega arith
            | is_held j y hand lt c ↦ absurd (omega (arith, b, lt))
            | is_full c lt d ↦ absurd (omega (arith, b, lt))
          ]

  abbrev pub view : Abstract
  view = record { queue = span e s.head (s.tail - s.head); hands = hands }

  view-bare : s.head ≡ s.tail → view.queue ≡ []
  view-bare q = let z : s.tail - s.head ≡ 0 = omega arith in ap (span e s.head) z

  pub view-first :
      s.head < s.tail → view.queue ≡ e s.head ∷ span e (s.head + 1) (s.tail - s.head - 1)
  view-first lt =
      let z : s.tail - s.head ≡ suc (s.tail - s.head - 1) = omega arith in ap (span e s.head) z

  pop_fails_lem :
      (h : ℕ) → h ≤ s.head → (cell s h).sequence < h + 1 → Allowed (capacity s) view view pop_failed
  pop_fails_lem h le lt = elim (dec_lt h s.head) [
    | yes below ↦ absurd (omega (arith, v.past h below))
    | no ge ↦
        let q : h ≡ s.head = omega arith in
        let lt' : (cell s s.head).sequence < s.head + 1 =
          subst (λ z. (cell s z).sequence < z + 1) q lt in
        elim at_head [
          | bare c d r ↦ finds_bare refl (view-bare c)
          | unready i x c r d ↦
              finds_pending i x (span e (s.head + 1) (s.tail - s.head - 1)) refl
                (view-first c ∙ ap (λ y. y ∷ span e (s.head + 1) (s.tail - s.head - 1)) r)
          | there x c r d val ↦ absurd (omega (arith, d))
        ]
  ]

  pub pop_label-Allowed :
      (h : ℕ)
      → h ≤ s.head
      → s.tail + capacity s < h + 2 ^ 31
      → Allowed (capacity s) view view (pop_label (look (pop_diff s h)))
  pop_label-Allowed h le timely =
      rw (pop_looks h le timely) (elim (Bool-cases ((cell s h).sequence == h + 1)) [
        | inl t ↦ rw t (hidden refl)
        | inr f ↦ elim (Bool-cases (ltb (cell s h).sequence (h + 1))) [
          | inl lt ↦ rw (f, lt) (pop_fails_lem h le (ground arith))
          | inr ge ↦ rw (f, ge) (hidden refl)
        ]
      ])

  push_fails_lem :
      (t : ℕ) → t ≤ s.tail → (cell s t).sequence < t → Allowed (capacity s) view view push_failed
  push_fails_lem t le lt = elim (dec_lt t s.tail) [
    | yes below ↦ absurd (omega (arith, given t below))
    | no ge ↦
        let q : t ≡ s.tail = omega arith in
        let lt' : (cell s s.tail).sequence < s.tail = subst (λ z. (cell s z).sequence < z) q lt in
        elim at_tail [
          | has_room c d ↦ absurd (omega (arith, d))
          | is_held j x hand c d ↦ finds_held j x refl hand
          | is_full c d r ↦
              finds_full refl (omega (arith, length-span e s.head (s.tail - s.head), c))
        ]
  ]

  pub push_label-Allowed :
      (t : ℕ)
      → t ≤ s.tail
      → s.tail + capacity s < t + 2 ^ 31
      → Allowed (capacity s) view view (push_label (look (push_diff s t)))
  push_label-Allowed t le timely =
      rw (push_looks t le timely) (elim (Bool-cases ((cell s t).sequence == t)) [
        | inl y ↦ rw y (hidden refl)
        | inr f ↦ elim (Bool-cases (ltb (cell s t).sequence t)) [
          | inl lt ↦ rw (f, lt) (push_fails_lem t le (ground arith))
          | inr ge ↦ rw (f, ge) (hidden refl)
        ]
      ])
