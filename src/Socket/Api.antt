-- ===== src/Socket/Api.antt =====
-- src/fev_socket_reactor.c: the operations on sockets. `now` is the clock when FEV_GET_ABS_TIME reads it.
use libfev.Base.{ℕ, Bool, Option}
use libfev.Time.{Timespec, get_abs_time_since_now}
use libfev.Socket.{Error, Answer, Socket, Calls}
use libfev.Socket.Ops.{
  Side, reading, writing, Waited, State, socket_op, timeout_op, accept_op, connect_op, read_op,
  write_op,
}

-- The operations that accept have the new socket beside the world.
module _ {W : Type 0} (calls : Calls W) (have_accept4 : Bool)
    (between : State (W × Socket) → State (W × Socket)) (fuel fiber : ℕ) where
  module _ (register : Socket → Side → W × Socket → (W × Socket) × Option Error)
      (wait : State (W × Socket) → State (W × Socket)) where
    abbrev pub accept : State (W × Socket) → Option (State (W × Socket) × Answer)
    accept s = socket_op reading (accept_op calls have_accept4) between register wait fuel fiber s

  module _ (register : Socket → Side → W × Socket → (W × Socket) × Option Error) (can_nomem : Bool)
      (timed_wait : Timespec → State (W × Socket) → State (W × Socket) × Waited) where
    abbrev pub try_accept_until :
        (abs_time : Timespec) → State (W × Socket) → Option (State (W × Socket) × Answer)
    try_accept_until abs_time s =
        timeout_op reading (accept_op calls have_accept4) between register can_nomem
          (timed_wait abs_time) fuel fiber s

    abbrev pub try_accept_for :
        (now rel_time : Timespec) → State (W × Socket) → Option (State (W × Socket) × Answer)
    try_accept_for now rel_time s =
        timeout_op reading (accept_op calls have_accept4) between register can_nomem
          (timed_wait (get_abs_time_since_now now rel_time)) fuel fiber s

module _ {W : Type 0} (calls : Calls W) (register : Socket → Side → W → W × Option Error)
    (between : State W → State W) (fuel fiber : ℕ) where
  module _ (wait : State W → State W) where
    abbrev pub connect : State W → Option (State W × Answer)
    connect s = socket_op writing (connect_op calls) between register wait fuel fiber s

    abbrev pub read : State W → Option (State W × Answer)
    read s = socket_op reading (read_op calls) between register wait fuel fiber s

    abbrev pub write : State W → Option (State W × Answer)
    write s = socket_op writing (write_op calls) between register wait fuel fiber s

  module _ (can_nomem : Bool) (timed_wait : Timespec → State W → State W × Waited) where
    abbrev pub try_connect_until : (abs_time : Timespec) → State W → Option (State W × Answer)
    try_connect_until abs_time s =
        timeout_op writing (connect_op calls) between register can_nomem (timed_wait abs_time) fuel
          fiber s

    abbrev pub try_read_until : (abs_time : Timespec) → State W → Option (State W × Answer)
    try_read_until abs_time s =
        timeout_op reading (read_op calls) between register can_nomem (timed_wait abs_time) fuel
          fiber s

    abbrev pub try_write_until : (abs_time : Timespec) → State W → Option (State W × Answer)
    try_write_until abs_time s =
        timeout_op writing (write_op calls) between register can_nomem (timed_wait abs_time) fuel
          fiber s

    abbrev pub try_connect_for : (now rel_time : Timespec) → State W → Option (State W × Answer)
    try_connect_for now rel_time s = try_connect_until (get_abs_time_since_now now rel_time) s

    abbrev pub try_read_for : (now rel_time : Timespec) → State W → Option (State W × Answer)
    try_read_for now rel_time s = try_read_until (get_abs_time_since_now now rel_time) s

    abbrev pub try_write_for : (now rel_time : Timespec) → State W → Option (State W × Answer)
    try_write_for now rel_time s = try_write_until (get_abs_time_since_now now rel_time) s
