-- ===== src/WaitersQueue/Picked.antt =====
-- Which waiters `fev_waiters_queue_wake` takes and wakes up.
use libfev.Base.{
  ℕ, ◌+◌, ◌≤◌, ◌<◌, ◌≡◌, ◌⊎◌, inl, inr, refl, sym, ap, arith, ltb, if◌then◌else◌, Bool, Option,
  List, [], ◌∷◌, ◌++◌, length, select, is_empty, Bool-cases,
}
use libfev.Waiter.{WakeResult}
use libfev.WaitersQueue.{Woken, wake_loop, wake, is_set, is_ours, call, with_next}

-- The nodes that the loop took are the first ones, and it went on until the list was empty or
-- `max_waiters` were woken.
pub record Picked (outcome : ℕ → WakeResult) (max_waiters : ℕ) (nodes : List ℕ) (num : ℕ)
    (r : Woken) : Type 0 where
  pub split : nodes ≡ r.deleted ++ r.left
  pub counted : r.num_woken ≡ num + length (select (λ k. is_set (outcome k)) r.deleted)
  pub ours : r.fibers ≡ select (λ k. is_ours (outcome k)) r.deleted
  pub bounded : num ≤ max_waiters → r.num_woken ≤ max_waiters
  pub greedy : (r.left ≡ []) ⊎ (max_waiters ≤ r.num_woken)

module _ (outcome : ℕ → WakeResult) (max_waiters : ℕ) where
  Picked-cons :
      (node : ℕ) (nodes : List ℕ) (num : ℕ) (rest : Woken)
      → num < max_waiters
      → Picked outcome max_waiters nodes (if is_set (outcome node) then num + 1 else num) rest
      → Picked outcome max_waiters (node ∷ nodes) num (record rest {
        deleted = node ∷ rest.deleted;
        fibers = if is_ours (outcome node) then node ∷ rest.fibers else rest.fibers;
      })
  Picked-cons node nodes num rest lt p = record {
    split = ap (λ l. node ∷ l) p.split;
    counted = ground (arith, p.counted);
    ours = ap (λ l. if is_ours (outcome node) then node ∷ l else l) p.ours;
    bounded = λ le. p.bounded (ground arith);
    greedy = p.greedy;
  }

  -- The loop takes the first nodes, counts those whose reason it set, and collects those that it has
  -- to wake up itself; it goes on until the list is empty or enough are woken.
  pub wake_loop_lem :
      (nodes : List ℕ) (num : ℕ)
      → Picked outcome max_waiters nodes num (wake_loop outcome max_waiters nodes num)
  unfolding wake_loop
  wake_loop_lem [] num = record {
    split = refl;
    counted = omega arith;
    ours = refl;
    bounded = λ le. le;
    greedy = inl refl;
  }
  wake_loop_lem (node ∷ nodes) num = elim (Bool-cases (ltb num max_waiters)) [
    | inl lt ↦ rw lt (Picked-cons node nodes num _ (ground arith) (wake_loop_lem nodes _))
    | inr ge ↦ rw ge (record {
      split = refl;
      counted = omega arith;
      ours = refl;
      bounded = λ le. le;
      greedy = inr (ground arith);
    })
  ]

-- Waking at most `max_waiters`: the call takes the first nodes off the list and hands on to be run, in
-- order, those whose waiter it has to wake up itself, and then the next owner of the lock; at most
-- `max_waiters` reasons were set, and if fewer, then the list is empty. The callback gets the number of
-- reasons set and whether the list is empty.
pub wake_lem :
    {A : Type 0} (outcome : ℕ → WakeResult) (next : Option ℕ) (max_waiters : ℕ)
    (callback : Option (A → ℕ → Bool → A)) (arg : A) (nodes : List ℕ)
    → (taken : List ℕ) × (let n = length (select (λ k. is_set (outcome k)) taken) in
        let (left, fibers, arg') = wake outcome next max_waiters callback arg nodes in
        (nodes ≡ taken ++ left)
        × (n ≤ max_waiters)
        × ((left ≡ []) ⊎ (n ≡ max_waiters))
        × (fibers ≡ with_next (select (λ k. is_ours (outcome k)) taken) next)
        × (arg' ≡ call callback arg n (is_empty left)))
unfolding wake
wake_lem outcome next max callback arg nodes =
    let r = wake_loop outcome max nodes 0 in
    let p = wake_loop_lem outcome max nodes 0 in
    let n : length (select (λ k. is_set (outcome k)) r.deleted) ≡ r.num_woken =
      omega (arith, p.counted) in
    (
      r.deleted,
      (
        p.split,
        omega (arith, n, p.bounded (omega arith)),
        elim p.greedy [
          | inl e ↦ inl e
          | inr le ↦ inr (omega (arith, n, le, p.bounded (omega arith)))
        ],
        ap (λ l. with_next l next) p.ours,
        ap (λ k. call callback arg k (is_empty r.left)) (sym n),
      ),
    )
