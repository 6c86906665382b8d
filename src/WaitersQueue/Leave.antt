-- ===== src/WaitersQueue/Leave.antt =====
-- What leaving the list does to the other nodes.
use libfev.Base.{ℕ, ◌≡◌, ◌≢◌, refl, arith, true, List, [], ◌∷◌, elem}
use libfev.WaitersQueue.{remove, wait_leave}

elem-remove :
    (i j : ℕ) (nodes : List ℕ) → i ≢ j → elem j nodes ≡ true → elem j (remove i nodes) ≡ true
unfolding remove
elem-remove i j [] ne e = absurd (ground arith)
elem-remove i j (x ∷ nodes) ne e = ground (arith, elem-remove i j nodes)

pub elem-wait_leave :
    (i j : ℕ) (nodes : List ℕ) → i ≢ j → elem j nodes ≡ true → elem j (wait_leave i nodes) ≡ true
unfolding wait_leave
elem-wait_leave i j nodes ne e = ground (arith, elem-remove i j nodes ne e)

pub wait_leave-empty : (i : ℕ) (nodes : List ℕ) → nodes ≡ [] → wait_leave i nodes ≡ []
unfolding wait_leave
wait_leave-empty i nodes e = rw e refl
