-- ===== src/Sem.antt =====
-- src/fev_sem.c on src/fev_waiters_queue_impl.h: any number of fibers that wait for and post one
-- semaphore. The value is touched only inside the critical section of the waiters queue, so that each
-- section is one step; the steps interleave in any order. The value is an `int32_t`: a post at its greatest
-- value overflows, which is undefined, and is no step here.
pub mod Permits
mod Tests
use libfev.Base.{
  ℕ, zero, suc, ◌==◌, ◌≡◌, ◌≢◌, ◌-◌, ◌^◌, if◌then◌else◌, Bool, true, false, some, List, [], ◌∷◌, ℤ,
  pos, negsuc, is_empty, select, update,
}
use libfev.Waiter.{WakeResult}
use libfev.WaitersQueue.{wait_enter, wait_leave, wake_loop, is_set}

-- Where a fiber stands. A fiber that is `lost` was told that it is ready after its timer could not be
-- allocated, and returns ENOMEM.
pub data Phase : Type 0 where
  idle waiting expired no_timer lost : Phase

pub record System : Type 0 where
  pub value : ℤ
  pub nodes : List ℕ
  pub phases : ℕ → Phase

abbrev pub int32_max : ℕ
int32_max = 2 ^ 31 - 1

unfoldable pub wait_recheck : ℤ → Bool × ℤ
wait_recheck (pos (suc n)) = (false, pos n)
wait_recheck (pos zero) = (true, pos 0)
wait_recheck (negsuc n) = (true, negsuc n)

-- value + 1
abbrev pub succ : ℤ → ℤ
succ (pos n) = pos (suc n)
succ (negsuc zero) = pos 0
succ (negsuc (suc n)) = negsuc n

unfoldable pub post_callback : ℤ → (num_woken : ℕ) → (is_empty : Bool) → ℤ
post_callback value num_woken is_empty = if num_woken == 0 then succ value else value

abbrev pub accepts : Phase → Bool
accepts waiting = true
accepts no_timer = true
accepts _ = false

abbrev pub ready : Phase → Phase
ready waiting = idle
ready no_timer = lost
ready p = p

unfoldable pub tell : List ℕ → (ℕ → Phase) → ℕ → Phase
tell [] phases = phases
tell (k ∷ ks) phases = update (tell ks phases) k (ready (phases k))

unfoldable pub after_wait : (i : ℕ) → System → System
unfolding wait_enter
after_wait i s =
    let (do_wait, nodes, value) = wait_enter (some wait_recheck) s.value i s.nodes in
    record s {
      value = value;
      nodes = nodes;
      phases = update s.phases i (if do_wait then waiting else idle);
    }

unfoldable pub after_post : (outcome : ℕ → WakeResult) → System → System
unfolding wake_loop tell
after_post outcome s =
    let r = wake_loop outcome 1 s.nodes 0 in
    record {
      value = post_callback s.value r.num_woken (is_empty r.left);
      nodes = r.left;
      phases = tell (select (λ k. is_set (outcome k)) r.deleted) s.phases;
    }

abbrev pub leaves : Phase → Bool
leaves expired = true
leaves no_timer = true
leaves lost = true
leaves _ = false

-- A fiber that leaves with EAGAIN waits again.
pub data Step (s : System) : System → Type 0 where
  wait : (i : ℕ) → s.phases i ≡ idle → Step s (after_wait i s)
  expire : (i : ℕ) → s.phases i ≡ waiting → Step s (record s { phases = update s.phases i expired })
  timer_fails :
      (i : ℕ) → s.phases i ≡ waiting → Step s (record s { phases = update s.phases i no_timer })
  leave :
      (i : ℕ)
      → leaves (s.phases i) ≡ true
      → Step s (record s { nodes = wait_leave i s.nodes; phases = update s.phases i idle })
  post :
      (outcome : ℕ → WakeResult)
      → ((k : ℕ) → is_set (outcome k) ≡ accepts (s.phases k))
      → s.value ≢ pos int32_max
      → Step s (after_post outcome s)

abbrev pub init : (value : ℤ) → System
init value = record { value = value; nodes = []; phases = λ i. idle }

pub data Reach (start : ℤ) : System → Type 0 where
  initial : Reach start (init start)
  later : {s t : System} → Reach start s → Step s t → Reach start t
