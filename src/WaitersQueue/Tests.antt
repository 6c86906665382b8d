-- ===== src/WaitersQueue/Tests.antt =====
-- src/fev_waiters_queue_impl.h at a queue of four nodes.
use libfev.Base.{
  ℕ, ◌≤◌, ◌≡◌, ◌⊎◌, ◌==◌, refl, if◌then◌else◌, Bool, false, some, List, [], ◌∷◌, ◌++◌, length,
  select, is_empty,
}
use libfev.Waiter.{WakeResult, failed, set_only, set_and_wake_up}
use libfev.WaitersQueue.{wake, wait_leave, is_set, is_ours, call, with_next}
use libfev.WaitersQueue.Picked.{wake_lem}

-- The wait of fiber 4 has timed out, and fiber 5 has not switched away yet.
abbrev outcome : ℕ → WakeResult
outcome k = if k == 4 then failed else if k == 5 then set_only else set_and_wake_up

-- what the callback was told
abbrev told : ℕ × Bool → ℕ → Bool → ℕ × Bool
told arg num empty = (num, empty)

wake_test :
    wake outcome (some 9) 2 (some told) (0, false) (4 ∷ 5 ∷ 6 ∷ 7 ∷ [])
    ≡ (7 ∷ [], 6 ∷ 9 ∷ [], (2, false))
unfolding wake
wake_test = refl

wait_leave_test : wait_leave 5 (4 ∷ 5 ∷ 6 ∷ []) ≡ 4 ∷ 6 ∷ []
unfolding wait_leave
wait_leave_test = refl

wake_lem_example :
    (taken : List ℕ) × (let n = length (select (λ k. is_set (outcome k)) taken) in
      let (left, fibers, arg') =
        wake outcome (some 9) 2 (some told) (0, false) (4 ∷ 5 ∷ 6 ∷ 7 ∷ []) in
      (4 ∷ 5 ∷ 6 ∷ 7 ∷ [] ≡ taken ++ left)
      × (n ≤ 2)
      × ((left ≡ []) ⊎ (n ≡ 2))
      × (fibers ≡ with_next (select (λ k. is_ours (outcome k)) taken) (some 9))
      × (arg' ≡ call (some told) (0, false) n (is_empty left)))
wake_lem_example = wake_lem outcome (some 9) 2 (some told) (0, false) (4 ∷ 5 ∷ 6 ∷ 7 ∷ [])
