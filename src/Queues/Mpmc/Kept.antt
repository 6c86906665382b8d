-- ===== src/Queues/Mpmc/Kept.antt =====
-- What a step of one thread of a queue leaves true for the others.
use libfev.Base.{
  ℕ, ◌+◌, ◌≤◌, ◌<◌, ◌≡◌, refl, sym, ap, ◌∙◌, arith, Option, update, update-all, subst,
}
use libfev.Queues.Mpmc.Steps.{Phase, System, capacity, move}
use libfev.Queues.Mpmc.Entries.{Entry, pending, gone}
use libfev.Queues.Mpmc.Known.{
  cell, Pushes, Pops, Used, waits, full, Free, free, held, Knows, nothing, pop_old, pop_again,
  pop_seen, pop_has, pop_got, push_old, push_again, push_seen, push_has, push_put, Inv,
}

-- What a step of another thread leaves alone for the thread `j`.
pub record Kept (s t : System) (e e' : ℕ → Entry) (j : ℕ) : Type 0 where
  pub size : capacity t ≡ capacity s
  pub heads : s.head ≤ t.head
  pub tails : s.tail ≤ t.tail
  pub first :
      s.head ≡ t.head
      → s.head < s.tail
      → (cell s s.head).sequence ≡ s.head + 1
      → (cell t s.head).sequence ≡ s.head + 1
  pub last :
      s.tail ≡ t.tail
      → s.tail < s.head + capacity s
      → (cell s s.tail).sequence ≡ s.tail
      → (cell t s.tail).sequence ≡ s.tail
  pub pops :
      (h x : ℕ)
      → h < s.head
      → s.tail ≤ h + capacity s
      → (cell s h).sequence ≡ h + 1
      → e h ≡ gone j x
      → (t.tail ≤ h + capacity s) × (cell t h ≡ cell s h) × (e' h ≡ e h)
  pub pushes :
      (p x : ℕ)
      → s.head ≤ p
      → p < s.tail
      → (cell s p).sequence ≡ p
      → e p ≡ pending j x
      → (t.head ≤ p) × (cell t p ≡ cell s p) × (e' p ≡ e p)

pub Knows-kept :
    (s t : System) (e e' : ℕ → Entry) (hands hands' : ℕ → Option ℕ) (j : ℕ) (p : Phase)
    → Knows s e hands j p
    → hands' j ≡ hands j
    → Kept s t e e' j
    → Knows t e' hands' j p
Knows-kept s t e e' hands hands' j _ nothing g k = nothing
Knows-kept s t e e' hands hands' j _ (pop_old le) g k = pop_old (omega (arith, k.heads))
Knows-kept s t e e' hands hands' j _ pop_again g k = pop_again
Knows-kept s t e e' hands hands' j _ (pop_seen {h} le f) g k =
    pop_seen (omega (arith, k.heads)) λ (q : h ≡ t.head).
      let at : h ≡ s.head = omega (arith, k.heads) in
      let (lt, seen) = f at in
      let still : s.head ≡ t.head = sym at ∙ q in
      let lt' : s.head < s.tail = omega arith in
      (
        omega (arith, k.tails),
        subst (λ z. (cell t z).sequence ≡ z + 1) (sym at)
            (k.first still lt' (subst (λ z. (cell s z).sequence ≡ z + 1) at seen)),
      )
Knows-kept s t e e' hands hands' j _ (pop_has {h} x lt le q val en hand) g k =
    let (a, b, c) = k.pops h x lt le q en in
    pop_has x (omega (arith, k.heads)) (omega (arith, a, k.size)) (ap (λ z. z.sequence) b ∙ q)
      (ap (λ z. z.value) b ∙ val) (c ∙ en) (g ∙ hand)
Knows-kept s t e e' hands hands' j _ (pop_got {h} {x} lt le q en hand) g k =
    let (a, b, c) = k.pops h x lt le q en in
    pop_got (omega (arith, k.heads)) (omega (arith, a, k.size)) (ap (λ z. z.sequence) b ∙ q)
      (c ∙ en) (g ∙ hand)
Knows-kept s t e e' hands hands' j _ (push_old le) g k = push_old (omega (arith, k.tails))
Knows-kept s t e e' hands hands' j _ push_again g k = push_again
Knows-kept s t e e' hands hands' j _ (push_seen {t = p} le f) g k =
    push_seen (omega (arith, k.tails)) λ (q : p ≡ t.tail).
      let at : p ≡ s.tail = omega (arith, k.tails) in
      let (lt, seen) = f at in
      let still : s.tail ≡ t.tail = sym at ∙ q in
      let lt' : s.tail < s.head + capacity s = omega arith in
      (
        omega (arith, k.heads, k.size),
        subst (λ z. (cell t z).sequence ≡ z) (sym at)
            (k.last still lt' (subst (λ z. (cell s z).sequence ≡ z) at seen)),
      )
Knows-kept s t e e' hands hands' j _ (push_has {x} {t = p} le lt en q) g k =
    let (a, b, c) = k.pushes p x le lt q en in
    push_has a (omega (arith, k.tails)) (c ∙ en) (ap (λ z. z.sequence) b ∙ q)
Knows-kept s t e e' hands hands' j _ (push_put {x} {t = p} le lt en q val) g k =
    let (a, b, c) = k.pushes p x le lt q en in
    push_put a (omega (arith, k.tails)) (c ∙ en) (ap (λ z. z.sequence) b ∙ q)
      (ap (λ z. z.value) b ∙ val)

pub Used-kept :
    (s t : System) (p : ℕ) (en : Entry)
    → Used s p en
    → (cell t p ≡ cell s p)
    → ((i x : ℕ) → Pushes (s.phases i) x p → Pushes (t.phases i) x p)
    → Used t p en
Used-kept s t p _ (waits {i} {x} q w) c k = waits (ap (λ z. z.sequence) c ∙ q) (k i x w)
Used-kept s t p _ (full q val) c k = full (ap (λ z. z.sequence) c ∙ q) (ap (λ z. z.value) c ∙ val)

pub Free-kept :
    (s t : System) (p : ℕ)
    → Free s p
    → capacity t ≡ capacity s
    → (cell t p ≡ cell s p)
    → ((j h : ℕ) → h + capacity s ≡ p → Pops (s.phases j) h → Pops (t.phases j) h)
    → Free t p
Free-kept s t p (free q) z c k = free (ap (λ z. z.sequence) c ∙ q)
Free-kept s t p (held j h w at q) z c k =
    held j h (k j h at w) (ap (λ m. h + m) z ∙ at) (ap (λ z. z.sequence) c ∙ q)

-- The pushes and pops that have a position keep it in a step of `i`, if `i` does.
pub keeps_push :
    (phases : ℕ → Phase) (i : ℕ) (p : Phase)
    → ((x t : ℕ) → Pushes (phases i) x t → Pushes p x t)
    → (j x t : ℕ) → Pushes (phases j) x t
    → Pushes (update phases i p j) x t
keeps_push phases i p k j x t =
    update-all (λ j q. Pushes (phases j) x t → Pushes q x t) phases i p (λ j ne w. w) (k x t) j

pub keeps_pop :
    (phases : ℕ → Phase) (i : ℕ) (p : Phase)
    → ((h : ℕ) → Pops (phases i) h → Pops p h)
    → (j h : ℕ) → Pops (phases j) h
    → Pops (update phases i p j) h
keeps_pop phases i p k j h =
    update-all (λ j q. Pops (phases j) h → Pops q h) phases i p (λ j ne w. w) (k h) j

-- A step that moves the thread and nothing else.
pub move-Inv :
    (s : System) (e : ℕ → Entry) (hands : ℕ → Option ℕ) (i : ℕ) (p : Phase)
    → Inv s e hands
    → ((x t : ℕ) → Pushes (s.phases i) x t → Pushes p x t)
    → ((h : ℕ) → Pops (s.phases i) h → Pops p h)
    → Knows s e hands i p
    → Inv (move s i p) e hands
move-Inv s e hands i p v a b k = record {
  power = v.power;
  big = v.big;
  proper = v.proper;
  order = v.order;
  bound = v.bound;
  used = λ q le lt.
      Used-kept s (move s i p) q (e q) (v.used q le lt) refl
        (λ j x. keeps_push s.phases i p a j x q);
  room = λ q le lt.
      Free-kept s (move s i p) q (v.room q le lt) refl refl
        (λ j h at. keeps_pop s.phases i p b j h);
  past = v.past;
  upper = v.upper;
  knows =
      update-all (λ j q. Knows (move s i p) e hands j q) s.phases i p
        (λ j ne. here j (s.phases j) (v.knows j)) (here i p k);
}
  where
    here : (j : ℕ) (q : Phase) → Knows s e hands j q → Knows (move s i p) e hands j q
    here j q w = Knows-kept s (move s i p) e e hands hands j q w refl (record {
      size = refl;
      heads = omega arith;
      tails = omega arith;
      first = λ a b c. c;
      last = λ a b c. c;
      pops = λ h x lt le q en. (le, refl, refl);
      pushes = λ h x le lt q en. (le, refl, refl);
    })
