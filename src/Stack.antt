-- ===== src/Stack.antt =====
-- src/fev_simple_mpmc_stack.h: any number of threads that push to and pop from one stack, interleaved.
-- `count` counts all successful exchanges; the word in memory is `u64` of it. A node is its address, and
-- `out` tells which nodes the callers have: a push gives its node away, and a pop takes one. A failure of
-- `fev_cmpxchg2` is possible on any value.
pub mod Inv
pub mod Moves
pub mod Linear
mod Tests
use libfev.Base.{ℕ, ◌+◌, ◌%◌, ◌^◌, ◌≡◌, Bool, true, false, Option, none, some, update}

abbrev pub u64 : ℕ → ℕ
u64 n = n % 2 ^ 64

-- Where a thread stands: what it has loaded, and the node that it pushes.
pub data Phase : Type 0 where
  idle : Phase
  push_counted : (node count : ℕ) → Phase
  push_loaded : (node : ℕ) (top : Option ℕ) (count : ℕ) → Phase
  push_linked : (node : ℕ) (top : Option ℕ) (count : ℕ) → Phase
  pop_counted : (count : ℕ) → Phase
  pop_loaded : (top count : ℕ) → Phase
  pop_read : (top : ℕ) (next : Option ℕ) (count : ℕ) → Phase

pub record System : Type 0 where
  pub top : Option ℕ
  pub count : ℕ
  pub next : ℕ → Option ℕ
  pub out : ℕ → Bool
  pub phases : ℕ → Phase

pub data Label : Type 0 where
  silent : Label
  pushed : (node : ℕ) → Label
  popped : (node : Option ℕ) → Label

-- A pop at the start of a round of its loop.
unfoldable pub round : (top : Option ℕ) (count : ℕ) → Phase
round none count = idle
round (some top) count = pop_loaded top count

unfoldable pub round_label : (top : Option ℕ) → Label
round_label none = popped none
round_label (some top) = silent

pub data Step (s : System) : Label → System → Type 0 where
  push :
      (i node : ℕ)
      → s.phases i ≡ idle
      → s.out node ≡ true
      → Step s silent (record s {
        out = update s.out node false;
        phases = update s.phases i (push_counted node s.count);
      })
  push_load :
      (i node count : ℕ)
      → s.phases i ≡ push_counted node count
      → Step s silent (record s { phases = update s.phases i (push_loaded node s.top count) })
  link :
      (i node : ℕ) (top : Option ℕ) (count : ℕ)
      → s.phases i ≡ push_loaded node top count
      → Step s silent (record s {
        next = update s.next node top;
        phases = update s.phases i (push_linked node top count);
      })
  push_swap :
      (i node : ℕ) (top : Option ℕ) (count : ℕ)
      → s.phases i ≡ push_linked node top count
      → s.top ≡ top
      → u64 s.count ≡ u64 count
      → Step s
          (pushed node)
          (record s { top = some node; count = s.count + 1; phases = update s.phases i idle })
  push_again :
      (i node : ℕ) (top : Option ℕ) (count : ℕ)
      → s.phases i ≡ push_linked node top count
      → Step s silent (record s { phases = update s.phases i (push_loaded node s.top s.count) })
  pop :
      (i : ℕ)
      → s.phases i ≡ idle
      → Step s silent (record s { phases = update s.phases i (pop_counted s.count) })
  pop_load :
      (i count : ℕ)
      → s.phases i ≡ pop_counted count
      → Step s (round_label s.top) (record s { phases = update s.phases i (round s.top count) })
  read_next :
      (i top count : ℕ)
      → s.phases i ≡ pop_loaded top count
      → Step s silent (record s { phases = update s.phases i (pop_read top (s.next top) count) })
  pop_swap :
      (i top : ℕ) (next : Option ℕ) (count : ℕ)
      → s.phases i ≡ pop_read top next count
      → s.top ≡ some top
      → u64 s.count ≡ u64 count
      → Step s (popped (some top)) (record s {
        top = next;
        count = s.count + 1;
        out = update s.out top true;
        phases = update s.phases i idle;
      })
  pop_again :
      (i top : ℕ) (next : Option ℕ) (count : ℕ)
      → s.phases i ≡ pop_read top next count
      → Step s (round_label s.top) (record s { phases = update s.phases i (round s.top s.count) })

-- A stack after `fev_simple_mpmc_stack_init`; the callers have all nodes.
abbrev pub init : (cells : ℕ → Option ℕ) → System
init cells = record { top = none; count = 0; next = cells; out = λ n. true; phases = λ i. idle }

pub data Reach (cells : ℕ → Option ℕ) : System → Type 0 where
  initial : Reach cells (init cells)
  later : {s t : System} (l : Label) → Reach cells s → Step s l t → Reach cells t
