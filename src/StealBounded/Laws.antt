-- ===== src/StealBounded/Laws.antt =====
-- What the calls of a bounded queue promise, and what the calls on a run queue with its fallback queue
-- make of it.
use libfev.Base.{
  ℕ, zero, suc, ◌+◌, ◌^◌, ◌<◌, ◌≡◌, inl, inr, ◌==◌, refl, sym, ap, ◌∙◌, ltb, if◌then◌else◌, Bool,
  true, false, Option, none, some, List, [], ◌∷◌, ◌++◌, length, length-append, Gives, gives,
  Gives-bind, Gives-if, arith, min, Bool-cases,
}
use mathlib.Core.List.{append-nil}
use libfev.Queues.Window.{fifo_pop}
use libfev.StealBounded.{
  Ops, Fallback, push_one_fallback, push_stq_fallback, or_fallback, push_one, rest_to_fallback,
  push_stq, less_fallback, move_from_fallback, pop_more, pop_some,
}

-- The queue took the first fibers of the list.
pub record Took {Q : Type 0} (IsValid : Q → Type 0) (contents : Q → List ℕ) (q : Q) (stqh : List ℕ)
    (r : Q × List ℕ × ℕ) : Type 0 where
  pub taken : List ℕ
  pub split : stqh ≡ taken ++ r.1
  pub appended : contents r.0 ≡ contents q ++ taken
  pub counted : r.2 ≡ length taken
  pub valid : IsValid r.0

abbrev pub Popped : {Q : Type 0} → (Q → Type 0) → (Q → List ℕ) → Q → Option ℕ × Q → Type 0
Popped IsValid contents q r = ((r.0, contents r.1) ≡ fifo_pop (contents q)) × IsValid r.1

abbrev pub PushedOne : {Q : Type 0} → (Q → Type 0) → (Q → List ℕ) → Q → ℕ → Bool × Q → Type 0
PushedOne IsValid contents q x r =
    (contents r.1 ≡ (if r.0 then contents q ++ x ∷ [] else contents q)) × IsValid r.1

-- The contract of a bounded queue.
pub record Laws {Q : Type 0} (ops : Ops Q) (IsValid : Q → Type 0) (contents : Q → List ℕ)
    : Type 0 where
  pub pop_law : (q : Q) → IsValid q → Gives (Popped IsValid contents q) (ops.pop q)
  pub push_law : (q : Q) (x : ℕ) → IsValid q → Gives (PushedOne IsValid contents q x) (ops.push q x)
  pub push_stq_law :
      (q : Q) (stqh : List ℕ)
      → IsValid q
      → Gives (Took IsValid contents q stqh) (ops.push_stq q stqh)

pub record IsCounted (fb : Fallback) : Type 0 where
  pub counted : fb.len ≡ length fb.queue
  pub small : fb.len < 2 ^ 32

empty-of : (xs : List ℕ) → length xs ≡ 0 → xs ≡ []
empty-of [] e = refl
empty-of (x ∷ xs) e = absurd (omega arith)

fifo-none : (xs ys : List ℕ) → (none, ys) ≡ fifo_pop xs → (xs ≡ []) × (ys ≡ [])
unfolding fifo_pop
fifo-none [] ys e = (refl, ap (λ r. r.1) e)
fifo-none (x ∷ xs) ys e = absurd (ground (arith, ap (λ r. r.0) e))

fifo-some : (x : ℕ) (xs ys : List ℕ) → (some x, ys) ≡ fifo_pop xs → xs ≡ x ∷ ys
unfolding fifo_pop
fifo-some x [] ys e = absurd (ground (arith, ap (λ r. r.0) e))
fifo-some x (y ∷ xs) ys e =
    let same : x ≡ y = ground (arith, ap (λ r. r.0) e) in
    ap (λ z. z ∷ xs) (sym same) ∙ ap (λ l. x ∷ l) (sym (ap (λ r. r.1) e))

module _ {Q : Type 0} (ops : Ops Q) (IsValid : Q → Type 0) (contents : Q → List ℕ)
    (laws : Laws ops IsValid contents) where
  -- Of `fibers`, the queue got the first ones, and the fallback queue the others.
  pub record Stored (q : Q) (fb : Fallback) (fibers : List ℕ) (r : Q × Fallback) : Type 0 where
    pub taken : List ℕ
    pub rest : List ℕ
    pub split : fibers ≡ taken ++ rest
    pub own : contents r.0 ≡ contents q ++ taken
    pub fallback : r.1.queue ≡ fb.queue ++ rest
    pub counted : IsCounted r.1
    pub valid : IsValid r.0

  -- Pushing a fiber ends, and puts it at the end of the run queue or of the fallback queue.
  pub push_one_lem :
      (q : Q) (fb : Fallback) (x : ℕ)
      → IsValid q
      → IsCounted fb
      → length fb.queue + 1 < 2 ^ 32
      → Gives (Stored q fb (x ∷ [])) (push_one ops q fb x)
  unfolding push_one push_one_fallback
  push_one_lem q fb x v c fits =
      Gives-bind (laws.push_law q x v) λ r (e, w). gives (ends r.0 r.1 e w)
    where
      ends :
          (b : Bool) (q' : Q)
          → contents q' ≡ (if b then contents q ++ x ∷ [] else contents q)
          → IsValid q'
          → Stored q fb (x ∷ []) (or_fallback ops fb x (b, q'))
      ends true q' e w = record {
        taken = x ∷ [];
        rest = [];
        split = refl;
        own = e;
        fallback = sym (append-nil fb.queue);
        counted = c;
        valid = w;
      }
      ends false q' e w = record {
        taken = [];
        rest = x ∷ [];
        split = refl;
        own = e ∙ sym (append-nil (contents q));
        fallback = refl;
        counted = record {
          counted = omega (arith, c.counted, length-append fb.queue (x ∷ []));
          small = omega arith;
        };
        valid = w;
      }

  -- Pushing a list ends; the run queue takes its first fibers, and the others go to the end of the
  -- fallback queue, whose length still counts its fibers.
  pub push_stq_lem :
      (q : Q) (fb : Fallback) (fibers : List ℕ)
      → IsValid q
      → IsCounted fb
      → length fb.queue + length fibers < 2 ^ 32
      → Gives (Stored q fb fibers) (push_stq ops q fb fibers (length fibers))
  unfolding push_stq push_stq_fallback
  push_stq_lem q fb fibers v c fits =
      Gives-bind (laws.push_stq_law q fibers v) λ r t. gives (ends r t)
    where
      ends :
          (r : Q × List ℕ × ℕ)
          → Took IsValid contents q fibers r
          → Stored q fb fibers (rest_to_fallback ops fb (length fibers) r)
      ends r t =
          let len : length fibers ≡ length t.taken + length r.1 =
            ap length t.split ∙ length-append t.taken r.1 in
          elim (Bool-cases (r.2 == length fibers)) [
            | inl e ↦
                let none_left : r.1 ≡ [] = empty-of r.1 (ground (arith, len, t.counted)) in
                rw e (record {
                  taken = t.taken;
                  rest = [];
                  split = t.split ∙ ap (λ l. t.taken ++ l) none_left;
                  own = t.appended;
                  fallback = sym (append-nil fb.queue);
                  counted = c;
                  valid = t.valid;
                })
            | inr e ↦ rw e (record {
              taken = t.taken;
              rest = r.1;
              split = t.split;
              own = t.appended;
              fallback = refl;
              counted = record {
                counted = omega (arith, c.counted, length-append fb.queue r.1, len, t.counted);
                small = omega arith;
              };
              valid = t.valid;
            })
          ]

  -- What is left on the fallback queue follows what the run queue got from it.
  pub record Moved (q : Q) (fb : Fallback) (r : Q × Fallback) : Type 0 where
    pub taken : List ℕ
    pub own : contents r.0 ≡ contents q ++ taken
    pub fallback : fb.queue ≡ taken ++ r.1.queue
    pub counted : IsCounted r.1
    pub valid : IsValid r.0

  -- Moving from the fallback queue ends: its first fibers go to the end of the run queue, and its
  -- length still counts those that are left.
  pub move_lem :
      (q : Q) (fb : Fallback)
      → IsValid q
      → IsCounted fb
      → Gives (Moved q fb) (move_from_fallback ops q fb)
  unfolding move_from_fallback
  move_lem q fb v c =
      Gives-if (ltb 0 fb.len)
        (λ _. Gives-bind (laws.push_stq_law q fb.queue v) λ r t. gives (ends r t))
        (λ _. gives (record {
          taken = [];
          own = sym (append-nil (contents q));
          fallback = refl;
          counted = c;
          valid = v;
        }))
    where
      ends :
          (r : Q × List ℕ × ℕ)
          → Took IsValid contents q fb.queue r
          → Moved q fb (less_fallback ops fb.len r)
      ends r t =
          let len : length fb.queue ≡ length t.taken + length r.1 =
            ap length t.split ∙ length-append t.taken r.1 in
          record {
            taken = t.taken;
            own = t.appended;
            fallback = t.split;
            counted = record {
              counted = omega (arith, c.counted, len, t.counted);
              small = omega (arith, c.small);
            };
            valid = t.valid;
          }

  -- The fibers that were popped, in front of those that are left.
  pub record PoppedSome (n : ℕ) (q : Q) (r : List ℕ × Q) : Type 0 where
    pub split : contents q ≡ r.0 ++ contents r.1
    pub many : length r.0 ≡ min n (length (contents q))
    pub valid : IsValid r.1

  pop_more_lem :
      (n : ℕ) (q : Q) (next : Q → Option (List ℕ × Q))
      → ((q' : Q) → IsValid q' → Gives (PoppedSome n q') (next q'))
      → (r : Option ℕ × Q) → Popped IsValid contents q r
      → Gives (PoppedSome (suc n) q) (pop_more ops next r)
  pop_more_lem n q next ih (none, q') (e, w) =
      let (nil, nil') = fifo-none (contents q) (contents q') e in
      gives (record { split = nil ∙ sym nil'; many = rw nil (omega arith); valid = w })
  pop_more_lem n q next ih (some x, q') (e, w) =
      let cons = fifo-some x (contents q) (contents q') e in
      Gives-bind (ih q' w) λ s p. gives (record {
        split = cons ∙ ap (λ l. x ∷ l) p.split;
        many = rw cons (omega (arith, p.many));
        valid = p.valid;
      })

  pub pop_some_lem : (n : ℕ) (q : Q) → IsValid q → Gives (PoppedSome n q) (pop_some ops n q)
  unfolding pop_some
  pop_some_lem zero q v = gives (record { split = refl; many = omega arith; valid = v })
  pop_some_lem (suc n) q v =
      Gives-bind (laws.pop_law q v) (pop_more_lem n q (pop_some ops n) (pop_some_lem n))
