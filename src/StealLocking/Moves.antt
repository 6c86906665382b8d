-- ===== src/StealLocking/Moves.antt =====
-- Stealing moves fibers between two queues, and loses none.
use libfev.Base.{
  ℕ, zero, suc, ◌+◌, ◌-◌, ◌^◌, ◌<◌, ◌≡◌, ◌≢◌, ◌⊎◌, inl, inr, ◌==◌, refl, sym, ap, ◌∙◌, List, [],
  ◌∷◌, ◌++◌, length, take, drop, update, update_self, update_ne, update-all, arith, min, Bool-cases,
  subst,
}
use libfev.StealLocking.{RunQueue, walk, robbed, filled, victim, steal_loop, steal}

-- The size counts the fibers.
pub record IsCounted (q : RunQueue) : Type 0 where
  pub counted : q.size ≡ length q.head
  pub small : q.size < 2 ^ 32

walk-eq : (n : ℕ) (xs : List ℕ) → walk n xs ≡ min n (length xs)
unfolding walk
walk-eq zero xs = omega arith
walk-eq (suc n) [] = omega arith
walk-eq (suc n) (x ∷ xs) = omega (arith, walk-eq n xs)

take-drop : (n : ℕ) (xs : List ℕ) → take n xs ++ drop n xs ≡ xs
take-drop zero xs = refl
take-drop (suc n) [] = refl
take-drop (suc n) (x ∷ xs) = ap (λ l. x ∷ l) (take-drop n xs)

length-take : (n : ℕ) (xs : List ℕ) → length (take n xs) ≡ min n (length xs)
length-take zero xs = omega arith
length-take (suc n) [] = omega arith
length-take (suc n) (x ∷ xs) = omega (arith, length-take n xs)

length-drop : (n : ℕ) (xs : List ℕ) → length (drop n xs) ≡ length xs - n
length-drop zero xs = omega arith
length-drop (suc n) [] = omega arith
length-drop (suc n) (x ∷ xs) = omega (arith, length-drop n xs)

-- What the worker `w` steals, from the rounds `i` on.
pub data Stolen (steal_count rnd num_workers w count i : ℕ) (queues : ℕ → RunQueue)
    : (ℕ → RunQueue) × ℕ → Type 0 where
  nothing :
      ((j : ℕ)
        → j < count
        → (victim rnd (i + j) num_workers ≡ w)
          ⊎ ((queues (victim rnd (i + j) num_workers)).head ≡ []))
      → Stolen steal_count rnd num_workers w count i queues (queues, 0)
  from :
      {queues' : ℕ → RunQueue} {n : ℕ} (v : ℕ)
      → v ≢ w
      → (queues' w).head ++ (queues' v).head ≡ (queues v).head
      → length (queues' w).head ≡ n
      → n ≡ min steal_count (length (queues v).head)
      → 0 < n
      → ((j : ℕ) → v ≢ j → w ≢ j → queues' j ≡ queues j)
      → ((j : ℕ) → IsCounted (queues' j))
      → Stolen steal_count rnd num_workers w count i queues (queues', n)

module _ (steal_count rnd num_workers w : ℕ) (queues : ℕ → RunQueue) (some_count : 0 < steal_count)
    (counted : (j : ℕ) → IsCounted (queues j)) where
  empty-of : (xs : List ℕ) → walk steal_count xs ≡ 0 → xs ≡ []
  empty-of [] e = refl
  empty-of (x ∷ xs) e = absurd (omega (arith, walk-eq steal_count (x ∷ xs)))

  robs : (v : ℕ) (n : ℕ) → n ≡ walk steal_count (queues v).head → IsCounted (robbed (queues v) n)
  unfolding robbed
  robs v n e =
      let c = counted v in
      record {
        counted = omega (
          arith,
          walk-eq steal_count (queues v).head,
          length-drop n (queues v).head,
          c.counted,
          c.small,
        );
        small = omega arith;
      }

  fills : (v : ℕ) (n : ℕ) → n ≡ walk steal_count (queues v).head → IsCounted (filled (queues v) n)
  unfolding filled
  fills v n e =
      let c = counted v in
      record {
        counted = omega (arith, walk-eq steal_count (queues v).head, length-take n (queues v).head);
        small = omega (arith, walk-eq steal_count (queues v).head, c.counted, c.small);
      }

  took :
      (v n count i : ℕ)
      → v ≢ w
      → 0 < n
      → n ≡ walk steal_count (queues v).head
      → Stolen steal_count rnd num_workers w count i queues
          (update (update queues v (robbed (queues v) n)) w (filled (queues v) n), n)
  unfolding robbed filled
  took v n count i ne pos e =
      let q = update queues v (robbed (queues v) n) in
      let len = walk-eq steal_count (queues v).head in
      from v ne
        (rw
          (
            update_self q w (filled (queues v) n),
            update_ne q w v (filled (queues v) n) (λ d. ne (sym d)),
            update_self queues v (robbed (queues v) n),
          )
          (take-drop n (queues v).head))
        (rw (update_self q w (filled (queues v) n))
          (omega (arith, length-take n (queues v).head, len)))
        (e ∙ len) pos
        (λ j nv nw.
          update_ne q w j (filled (queues v) n) nw ∙ update_ne queues v j (robbed (queues v) n) nv)
        (update-all (λ j r. IsCounted r) q w (filled (queues v) n)
          (λ j nw.
            update-all (λ k r. IsCounted r) queues v (robbed (queues v) n) (λ k nv. counted k)
              (robs v n e) j)
          (fills v n e))

  skip :
      (count i : ℕ) (r : (ℕ → RunQueue) × ℕ)
      → (victim rnd i num_workers ≡ w) ⊎ ((queues (victim rnd i num_workers)).head ≡ [])
      → Stolen steal_count rnd num_workers w count (i + 1) queues r
      → Stolen steal_count rnd num_workers w (suc count) i queues r
  skip count i _ here (nothing rest) = nothing λ j lt. all j lt
    where
      Skipped : ℕ → Type 0
      Skipped k = (victim rnd k num_workers ≡ w) ⊎ ((queues (victim rnd k num_workers)).head ≡ [])

      all : (j : ℕ) → j < suc count → Skipped (i + j)
      all zero lt = let e : i ≡ i + 0 = omega arith in subst Skipped e here
      all (suc j) lt =
          let e : i + 1 + j ≡ i + suc j = omega arith in subst Skipped e (rest j (omega arith))
  skip count i _ here (from v a b c d e f g) = from v a b c d e f g

  steal_loop_lem :
      (count i : ℕ)
      → Stolen steal_count rnd num_workers w count i queues
          (steal_loop steal_count rnd num_workers w count i queues)
  unfolding steal_loop
  steal_loop_lem zero i = nothing (λ j lt. absurd (omega arith))
  steal_loop_lem (suc count) i =
      let v = victim rnd i num_workers in
      let rest = steal_loop_lem count (i + 1) in
      elim (Bool-cases (v == w)) [
        | inl t ↦ rw t (skip count i _ (inl (ground arith)) rest)
        | inr f ↦ rw f (elim (Bool-cases (walk steal_count (queues v).head == 0)) [
          | inl t ↦ rw t (skip count i _ (inr (empty-of (queues v).head (ground arith))) rest)
          | inr g ↦ rw g (took v _ (suc count) i (ground arith) (ground arith) refl)
        ])
      ]

-- Stealing between queues whose sizes count their fibers. Either each of the `num_workers` victims that
-- were tried is the worker itself or has no fiber, and nothing changes; or the worker's queue gets the
-- first fibers of one victim, at most `steal_count` and at least one, the victim keeps the others, in
-- order, no other queue changes, and the sizes still count the fibers.
pub steal_lem :
    (steal_count rnd num_workers w : ℕ) (queues : ℕ → RunQueue)
    → 0 < steal_count
    → ((j : ℕ) → IsCounted (queues j))
    → Stolen steal_count rnd num_workers w num_workers 0 queues
        (steal steal_count rnd num_workers w queues)
unfolding steal
steal_lem steal_count rnd num_workers w queues pos counted =
    steal_loop_lem steal_count rnd num_workers w queues pos counted num_workers 0
