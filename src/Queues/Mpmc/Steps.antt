-- ===== src/Queues/Mpmc/Steps.antt =====
-- src/fev_bounded_mpmc_queue.h with any number of threads that push and pop at the same time. Each step
-- makes at most one access to memory that others write, and the steps interleave in any order. `head`,
-- `tail` and the sequence numbers of the cells are counts here: the words in memory are `u32` of them, and
-- the tests of the code are on the words.
use libfev.Base.{ℕ, ◌+◌, ◌-◌, ◌%◌, ◌≡◌, ◌==◌, if◌then◌else◌, update}
use libfev.Queues.Window.{u32, sub_u32}
use libfev.Queues.Mpmc.{Cell, is_neg_i32}

-- Where a thread stands: it has the word of a count `head` or `tail`.
pub data Phase : Type 0 where
  idle : Phase
  pop_loaded : (head : ℕ) → Phase
  pop_reloads : Phase
  pop_swaps : (head : ℕ) → Phase
  pop_took : (head : ℕ) → Phase
  pop_read : (head item : ℕ) → Phase
  push_loaded : (item tail : ℕ) → Phase
  push_reloads : (item : ℕ) → Phase
  push_swaps : (item tail : ℕ) → Phase
  push_took : (item tail : ℕ) → Phase
  push_wrote : (item tail : ℕ) → Phase

pub record System : Type 0 where
  pub buffer : ℕ → Cell
  pub buffer_mask : ℕ
  pub head : ℕ
  pub tail : ℕ
  pub phases : ℕ → Phase

abbrev pub capacity : System → ℕ
capacity s = s.buffer_mask + 1

abbrev pub slot : System → (position : ℕ) → ℕ
slot s position = u32 position % (s.buffer_mask + 1)

-- What a step does to the queue, for its users. `returned` is the end of a pop.
pub data Label : Type 0 where
  silent : Label
  reserved : (i item : ℕ) → Label
  published : (i item : ℕ) → Label
  taken : (i : ℕ) → Label
  returned : (i item : ℕ) → Label
  pop_failed : Label
  push_failed : Label

-- The outcome of the tests on `diff`.
pub data Look : Type 0 where
  same : Look
  behind : Look
  ahead : Look

unfoldable pub look : (diff : ℕ) → Look
look diff = if diff == 0 then same else if is_neg_i32 diff then behind else ahead

abbrev pub pop_next : (head : ℕ) → Look → Phase
pop_next head same = pop_swaps head
pop_next head behind = idle
pop_next head ahead = pop_reloads

abbrev pub pop_label : Look → Label
pop_label behind = pop_failed
pop_label _ = silent

abbrev pub push_next : (item tail : ℕ) → Look → Phase
push_next item tail same = push_swaps item tail
push_next item tail behind = idle
push_next item tail ahead = push_reloads item

abbrev pub push_label : Look → Label
push_label behind = push_failed
push_label _ = silent

-- `diff` of a pop and of a push.
unfoldable pub pop_diff : System → (head : ℕ) → ℕ
pop_diff s head = sub_u32 (u32 (s.buffer (slot s head)).sequence) (u32 (head + 1))

unfoldable pub push_diff : System → (tail : ℕ) → ℕ
push_diff s tail = sub_u32 (u32 (s.buffer (slot s tail)).sequence) (u32 tail)

abbrev pub move : System → (i : ℕ) → Phase → System
move s i p = record s { phases = update s.phases i p }

pub data Step (s : System) : Label → System → Type 0 where
  pop : (i : ℕ) → s.phases i ≡ idle → Step s silent (move s i (pop_loaded s.head))
  pop_look :
      (i head : ℕ)
      → s.phases i ≡ pop_loaded head
      → Step s
          (pop_label (look (pop_diff s head)))
          (move s i (pop_next head (look (pop_diff s head))))
  pop_reload : (i : ℕ) → s.phases i ≡ pop_reloads → Step s silent (move s i (pop_loaded s.head))
  pop_swap :
      (i head : ℕ)
      → s.phases i ≡ pop_swaps head
      → u32 s.head ≡ u32 head
      → Step s (taken i) (move (record s { head = s.head + 1 }) i (pop_took head))
  -- A weak compare-exchange can fail on any word, and loads it.
  pop_swap_fails :
      (i head : ℕ) → s.phases i ≡ pop_swaps head → Step s silent (move s i (pop_loaded s.head))
  read_value :
      (i head : ℕ)
      → s.phases i ≡ pop_took head
      → Step s silent (move s i (pop_read head (s.buffer (slot s head)).value))
  free_cell :
      (i head item : ℕ)
      → s.phases i ≡ pop_read head item
      → Step s (returned i item) (
          move
            (record s {
              buffer =
                  update s.buffer
                    (slot s head)
                    (record (s.buffer (slot s head)) { sequence = head + s.buffer_mask + 1 });
            })
            i
            idle)
  push : (i item : ℕ) → s.phases i ≡ idle → Step s silent (move s i (push_loaded item s.tail))
  push_look :
      (i item tail : ℕ)
      → s.phases i ≡ push_loaded item tail
      → Step s
          (push_label (look (push_diff s tail)))
          (move s i (push_next item tail (look (push_diff s tail))))
  push_reload :
      (i item : ℕ)
      → s.phases i ≡ push_reloads item
      → Step s silent (move s i (push_loaded item s.tail))
  push_swap :
      (i item tail : ℕ)
      → s.phases i ≡ push_swaps item tail
      → u32 s.tail ≡ u32 tail
      → Step s (reserved i item) (move (record s { tail = s.tail + 1 }) i (push_took item tail))
  push_swap_fails :
      (i item tail : ℕ)
      → s.phases i ≡ push_swaps item tail
      → Step s silent (move s i (push_loaded item s.tail))
  write_value :
      (i item tail : ℕ)
      → s.phases i ≡ push_took item tail
      → Step s silent (
          move
            (record s {
              buffer =
                  update s.buffer (slot s tail) (record (s.buffer (slot s tail)) { value = item });
            })
            i
            (push_wrote item tail))
  publish :
      (i item tail : ℕ)
      → s.phases i ≡ push_wrote item tail
      → Step s (published i item) (
          move
            (record s {
              buffer =
                  update s.buffer
                    (slot s tail)
                    (record (s.buffer (slot s tail)) { sequence = tail + 1 });
            })
            i
            idle)

-- A queue after `fev_bounded_mpmc_queue_init`: the cells are numbered, and hold anything.
abbrev pub init : (values : ℕ → ℕ) (size : ℕ) → System
init values size = record {
  buffer = λ i. record { sequence = i; value = values i };
  buffer_mask = size - 1;
  head = 0;
  tail = 0;
  phases = λ i. idle;
}

pub data Reach (values : ℕ → ℕ) (size : ℕ) : System → Type 0 where
  initial : Reach values size (init values size)
  later : {s t : System} (l : Label) → Reach values size s → Step s l t → Reach values size t
