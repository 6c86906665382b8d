-- ===== src/Socket/Poll.antt =====
-- src/fev_poller_epoll.c: the registration of a socket, and the events of a socket and of a bucket's timer.
-- A word of epoll's flags is a record of those that the code names. `epoll_ctl` is an argument, and so is
-- the answer of `fev_waiter_wake` for each waiter.
use libfev.Base.{ℕ, ℤ, Bool, true, false, not, ◌||◌, if◌then◌else◌, Option, List, [], ◌∷◌, ◌++◌}
use libfev.Waiter.{WakeResult}
use libfev.WaitersQueue.{is_ours}
use libfev.Socket.{Error, End, Socket}
use libfev.Socket.Ops.{Side, reading, writing}

-- EPOLLIN, EPOLLOUT, EPOLLRDHUP, EPOLLERR, EPOLLHUP, EPOLLET
pub record Events : Type 0 where
  pub incoming : Bool
  pub outgoing : Bool
  pub peer_closed : Bool
  pub failure : Bool
  pub hang_up : Bool
  pub edges : Bool

-- EPOLL_CTL_ADD, EPOLL_CTL_MOD
pub data Ctl : Type 0 where
  add modify : Ctl

abbrev pub with_flag : Side → Events → Events
with_flag reading events = record events { incoming = true }
with_flag writing events = record events { outgoing = true }

-- The events that are asked for besides those of the ends, and those of the ends that are active.
abbrev pub old_events : Socket → Events
old_events socket = record {
  incoming = socket.read_end.active;
  outgoing = socket.write_end.active;
  peer_closed = true;
  failure = false;
  hang_up = true;
  edges = true;
}

abbrev pub has_old : Socket → Bool
has_old socket = socket.read_end.active || socket.write_end.active

unfoldable pub poller_register :
    {W : Type 0} (epoll_ctl : Ctl → ℤ → Events → W → W × Option Error)
    → Socket
    → Side
    → W
    → W × Option Error
poller_register epoll_ctl socket side w =
    epoll_ctl (if not (has_old socket) then add else modify) socket.fd
      (with_flag side (old_events socket)) w

-- A waiter is named by the fiber that it has; `outcome` answers for the end that is woken up.
abbrev pub woken_fiber : End → WakeResult → List ℕ
woken_fiber end result = if is_ours result then end.fiber ∷ [] else []

abbrev pub is_error : Events → Bool
is_error events = events.peer_closed || events.failure || events.hang_up

abbrev pub marked : Events → Socket → Socket
marked events socket = if is_error events then record socket { error = true } else socket

abbrev pub wake_end : (test : Bool) → End → WakeResult → List ℕ
wake_end test end result = if test then woken_fiber end result else []

-- `num_fibers` counts the fibers of the list.
unfoldable pub process_socket :
    (outcome : Side → WakeResult) → Events → Socket → (fibers : List ℕ) → Socket × List ℕ
process_socket outcome events socket fibers =
    let read_fibers =
      wake_end (events.incoming || is_error events) socket.read_end (outcome reading) in
    let write_fibers =
      wake_end (events.outgoing || is_error events) socket.write_end (outcome writing) in
    (marked events socket, fibers ++ read_fibers ++ write_fibers)
