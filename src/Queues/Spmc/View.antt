-- ===== src/Queues/Spmc/View.antt =====
-- What a queue holds: the list of its fibers, oldest first.
use libfev.Base.{ℕ, ◌+◌, ◌-◌, ◌^◌, ◌≤◌, ◌<◌, ◌≡◌, refl, arith, List, [], some, length, ok}
use Prim.Native.Nat.{◌∣◌}
use libfev.Queues.Window.{window, length-window}
use libfev.Queues.Spmc.{Queue, init, queue_size}

abbrev pub capacity : Queue → ℕ
capacity q = q.buffer_mask + 1

pub record IsValid (q : Queue) : Type 0 where
  pub power : capacity q ∣ 2 ^ 32
  pub proper : capacity q ≤ 2 ^ 31
  pub head : q.head < 2 ^ 32
  pub tail : q.tail < 2 ^ 32
  pub room : queue_size q ≤ capacity q

abbrev pub contents : Queue → List ℕ
contents q = window q.buffer (capacity q) q.head (queue_size q)

pub length-contents : (q : Queue) → length (contents q) ≡ queue_size q
length-contents q = length-window q.buffer (capacity q) q.head (queue_size q)

-- A new queue of a power-of-two size is valid and empty, and has that capacity.
pub init-IsValid :
    (cells : ℕ → ℕ) (size : ℕ)
    → 2 ≤ size
    → size ≤ 2 ^ 31
    → size ∣ 2 ^ 32
    → (q : Queue) × (init (some cells) size ≡ ok q)
      × IsValid q
      × (contents q ≡ [])
      × (capacity q ≡ size)
unfolding init queue_size
init-IsValid cells size big small power =
    let e : size - 1 + 1 ≡ size = omega arith in
    (
      record { buffer = cells; buffer_mask = size - 1; head = 0; tail = 0 },
      refl,
      record {
        power = rw e power;
        proper = omega arith;
        head = omega arith;
        tail = omega arith;
        room = omega arith;
      },
      refl,
      e,
    )
