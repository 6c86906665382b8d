-- ===== src/Queues/Spmc/Steps.antt =====
-- src/fev_bounded_spmc_queue.h with its owner and any number of thieves at work at the same time. Each
-- step makes at most one access to memory that others write, and the steps interleave in any order.
-- `head` and `tail` count all pops and pushes so far: the words in memory are `u32` of them, and the
-- tests of the code are on the words. Only the owner writes `tail` and the cells, so its own loads of
-- `tail` go with the step before or after them.
use libfev.Base.{
  ℕ, ◌+◌, ◌-◌, ◌%◌, ◌≡◌, true, false, Option, none, some, List, [], ◌∷◌, ◌++◌, length, take, ltb,
  leb, ◌==◌, if◌then◌else◌, update,
}
use libfev.Queues.Window.{u32, sub_u32}

-- Where a fiber in `fev_bounded_spmc_queue_pop` stands: it has the word of `head` at a count `head`.
pub data Thief : Type 0 where
  idle : Thief
  at_loop : (head : ℕ) → Thief
  reads : (head : ℕ) → Thief
  swaps : (head item : ℕ) → Thief

-- Where the owner stands: in a push it has written the cells of `done`, and `todo` is left.
pub data Owner : Type 0 where
  rests : Owner
  writes : (written todo : List ℕ) → Owner

pub record System : Type 0 where
  pub buffer : ℕ → ℕ
  pub buffer_mask : ℕ
  pub head : ℕ
  pub tail : ℕ
  pub owner : Owner
  pub thieves : ℕ → Thief

abbrev pub capacity : System → ℕ
capacity s = s.buffer_mask + 1

abbrev pub slot : System → (position : ℕ) → ℕ
slot s position = u32 position % (s.buffer_mask + 1)

-- What a step does to the queue, for its users.
pub data Label : Type 0 where
  silent : Label
  popped : (item : Option ℕ) → Label
  pushed : (fibers : List ℕ) → Label
  refused : Label

-- How many of `num_fibers` fibers `fev_bounded_spmc_queue_push_stq` pushes.
unfoldable pub room_for : (size head tail num_fibers : ℕ) → ℕ
room_for size head tail num_fibers =
    let free = sub_u32 size (sub_u32 tail head) in if ltb free num_fibers then free else num_fibers

-- After `tail` is loaded by a thief: it leaves, or it goes on to read the cell.
unfoldable pub looked : (head tail : ℕ) → Thief
looked head tail = if u32 head == u32 tail then idle else reads head

unfoldable pub look_label : (head tail : ℕ) → Label
look_label head tail = if u32 head == u32 tail then popped none else silent

pub data Step (s : System) : Label → System → Type 0 where
  load_head :
      (i : ℕ)
      → s.thieves i ≡ idle
      → Step s silent (record s { thieves = update s.thieves i (at_loop s.head) })
  load_tail :
      (i head : ℕ)
      → s.thieves i ≡ at_loop head
      → Step s
          (look_label head s.tail)
          (record s { thieves = update s.thieves i (looked head s.tail) })
  read :
      (i head : ℕ)
      → s.thieves i ≡ reads head
      → Step s silent
          (record s { thieves = update s.thieves i (swaps head (s.buffer (slot s head))) })
  swap :
      (i head item : ℕ)
      → s.thieves i ≡ swaps head item
      → u32 s.head ≡ u32 head
      → Step s
          (popped (some item))
          (record s { head = s.head + 1; thieves = update s.thieves i idle })
  -- The weak compare-exchange can fail on any word, and loads it.
  swap_fails :
      (i head item : ℕ)
      → s.thieves i ≡ swaps head item
      → Step s silent (record s { thieves = update s.thieves i (at_loop s.head) })
  push :
      (fiber : ℕ)
      → s.owner ≡ rests
      → leb (sub_u32 (u32 s.tail) (u32 s.head)) s.buffer_mask ≡ true
      → Step s silent (record s { owner = writes [] (fiber ∷ []) })
  push_fails :
      (fiber : ℕ)
      → s.owner ≡ rests
      → leb (sub_u32 (u32 s.tail) (u32 s.head)) s.buffer_mask ≡ false
      → Step s refused s
  push_stq :
      (fibers : List ℕ)
      → s.owner ≡ rests
      → Step s silent (record s {
        owner = writes [] (
            take
              (room_for (u32 (s.buffer_mask + 1)) (u32 s.head) (u32 s.tail) (length fibers))
              fibers);
      })
  write :
      (written : List ℕ) (fiber : ℕ) (todo : List ℕ)
      → s.owner ≡ writes written (fiber ∷ todo)
      → Step s silent (record s {
        buffer = update s.buffer (slot s (s.tail + length written)) fiber;
        owner = writes (written ++ fiber ∷ []) todo;
      })
  store_tail :
      (written : List ℕ)
      → s.owner ≡ writes written []
      → Step s (pushed written) (record s { tail = s.tail + length written; owner = rests })

-- A queue after `fev_bounded_spmc_queue_init`, whose cells hold anything.
abbrev pub init : (cells : ℕ → ℕ) (size : ℕ) → System
init cells size = record {
  buffer = cells;
  buffer_mask = size - 1;
  head = 0;
  tail = 0;
  owner = rests;
  thieves = λ i. idle;
}

pub data Reach (cells : ℕ → ℕ) (size : ℕ) : System → Type 0 where
  initial : Reach cells size (init cells size)
  later : {s t : System} (l : Label) → Reach cells size s → Step s l t → Reach cells size t
