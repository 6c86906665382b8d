-- ===== src/WaitersQueue.antt =====
-- src/fev_waiters_queue_impl.h: the critical sections of a waiters queue. A node is named by the number
-- of the fiber that waits in it; its field `deleted` is set exactly where the node is taken off the
-- list, so a node is deleted when it is not on the list. What `fev_waiter_wake` answers for a node is
-- an argument, and so is the fiber that `fev_ilock_unlock` hands the lock to.
pub mod Picked
pub mod Leave
mod Tests
use libfev.Base.{
  ℕ, ◌+◌, ◌==◌, ltb, if◌then◌else◌, Bool, true, false, not, Option, none, some, List, [], ◌∷◌, ◌++◌,
  is_empty, elem,
}
use libfev.Waiter.{WakeResult, failed, set_and_wake_up}

-- The critical section of `fev_waiters_queue_wait`: whether the fiber has to wait, the nodes, and the
-- argument of `recheck` as that leaves it.
unfoldable pub wait_enter :
    {A : Type 0}
    → (recheck : Option (A → Bool × A)) → (arg : A) → (node : ℕ) → (nodes : List ℕ)
    → Bool × List ℕ × A
wait_enter none arg node nodes = (true, nodes ++ node ∷ [], arg)
wait_enter (some recheck) arg node nodes =
    let (do_wait, arg') = recheck arg in
    if do_wait then (true, nodes ++ node ∷ [], arg') else (false, nodes, arg')

unfoldable pub remove : (node : ℕ) → (nodes : List ℕ) → List ℕ
remove node [] = []
remove node (x ∷ nodes) = let rest = remove node nodes in if node == x then nodes else x ∷ rest

-- The critical section at the end of a wait that was not woken up by the queue.
unfoldable pub wait_leave : (node : ℕ) → (nodes : List ℕ) → List ℕ
unfolding remove
wait_leave node nodes = if not (elem node nodes) then nodes else remove node nodes

abbrev pub is_set : WakeResult → Bool
is_set failed = false
is_set _ = true

abbrev pub is_ours : WakeResult → Bool
is_ours set_and_wake_up = true
is_ours _ = false

-- Where the loop of `fev_waiters_queue_wake` ends.
pub record Woken : Type 0 where
  pub deleted : List ℕ
  pub left : List ℕ
  pub fibers : List ℕ
  pub num_woken : ℕ

unfoldable pub wake_loop :
    (outcome : ℕ → WakeResult) → (max_waiters : ℕ) → (nodes : List ℕ) → (num_woken : ℕ) → Woken
wake_loop outcome max_waiters [] num_woken = record {
  deleted = [];
  left = [];
  fibers = [];
  num_woken = num_woken;
}
wake_loop outcome max_waiters (node ∷ nodes) num_woken =
    let result = outcome node in
    let num = if is_set result then num_woken + 1 else num_woken in
    let rest = wake_loop outcome max_waiters nodes num in
    if ltb num_woken max_waiters
    then record rest {
      deleted = node ∷ rest.deleted;
      fibers = if is_ours result then node ∷ rest.fibers else rest.fibers;
    }
    else record { deleted = []; left = node ∷ nodes; fibers = []; num_woken = num_woken }

abbrev pub call : {A : Type 0} → (callback : Option (A → ℕ → Bool → A)) → (arg : A) → ℕ → Bool → A
call none arg num empty = arg
call (some callback) arg num empty = callback arg num empty

abbrev pub with_next : List ℕ → (next : Option ℕ) → List ℕ
with_next fibers none = fibers
with_next fibers (some fiber) = fibers ++ fiber ∷ []

-- The result is the nodes that stay, the fibers to put into the run queue, and the callback's argument.
unfoldable pub wake :
    {A : Type 0}
    → (outcome : ℕ → WakeResult) → (next : Option ℕ) → (max_waiters : ℕ)
    → (callback : Option (A → ℕ → Bool → A)) → (arg : A) → (nodes : List ℕ) → List ℕ × List ℕ × A
unfolding wake_loop
wake outcome next max_waiters callback arg nodes =
    let r = wake_loop outcome max_waiters nodes 0 in
    (r.left, with_next r.fibers next, call callback arg r.num_woken (is_empty r.left))
