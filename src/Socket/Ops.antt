-- ===== src/Socket/Ops.antt =====
-- src/fev_socket_reactor.c: FEV_GEN_SOCKET_OP and FEV_GEN_SOCKET_OP_TIMEOUT, and the operations they
-- make. `fev_poller_register`, `fev_waiter_wait` and `fev_timed_wait` are arguments: while a fiber waits,
-- other fibers and the poller go on, and can change the socket and the world. So they can between the store to
-- the reason of the waiter and the operation: `between` is what they do there. A loop runs on fuel; `none`
-- is the fuel running out.
use libfev.Base.{
  ℕ, zero, suc, ℤ, pos, Bool, true, false, ◌&&◌, not, if◌then◌else◌, Option, none, some,
}
use libfev.Socket.{
  Error, again, inprogress, nomem, timedout, connreset, is_again, Answer, value, fails, End, Socket,
  Calls, accept_nonblock,
}

-- The end of the socket that an operation is about, which is also its flag for the poller.
pub data Side : Type 0 where
  reading writing : Side

abbrev pub end_of : Side → Socket → End
end_of reading socket = socket.read_end
end_of writing socket = socket.write_end

abbrev pub with_end : Side → Socket → End → Socket
with_end reading socket end = record socket { read_end = end }
with_end writing socket end = record socket { write_end = end }

-- The results of `fev_timed_wait`: 0, -EAGAIN, -ENOMEM, -ETIMEDOUT.
pub data Waited : Type 0 where
  woken retry no_memory too_late : Waited

abbrev pub is_no_memory : Waited → Bool
is_no_memory no_memory = true
is_no_memory _ = false

abbrev pub is_too_late : Waited → Bool
is_too_late too_late = true
is_too_late _ = false

abbrev pub State : (W : Type 0) → Type 0
State W = Socket × W

module _ {W : Type 0} where
  -- The operation is over unless it failed with EAGAIN.
  abbrev pub unless_again :
      (State W → Option (State W × Answer)) → State W × Answer → Option (State W × Answer)
  unless_again rest (s, value n) = some (s, value n)
  unless_again rest (s, fails e) = if is_again e then rest s else some (s, fails e)

  -- An error of the registration is returned.
  abbrev pub unless_failed :
      (State W → Option (State W × Answer)) → State W × Option Error → Option (State W × Answer)
  unless_failed rest (s, none) = rest s
  unless_failed rest (s, some e) = some (s, fails e)

module _ {W : Type 0} (side : Side) (register : Socket → Side → W → W × Option Error) where
  abbrev pub registered : Socket → W × Option Error → State W × Option Error
  registered socket (w, none) =
      ((with_end side socket (record (end_of side socket) { active = true }), w), none)
  registered socket (w, some e) = ((socket, w), some e)

  -- The store to `waiter->fiber`, and the registration when the end is first waited on.
  unfoldable pub activate : (fiber : ℕ) → State W → State W × Option Error
  activate fiber (socket, w) =
      let named = with_end side socket (record (end_of side socket) { fiber = fiber }) in
      if not (end_of side named).active
      then registered named (register named side w)
      else ((named, w), none)

-- The store to `waiter->reason`.
abbrev pub clear : {W : Type 0} → Side → State W → State W
clear side (socket, w) = (with_end side socket (record (end_of side socket) { reason = 0 }), w)

module _ {W : Type 0} (side : Side) (op : ℤ → W → W × Answer) (between : State W → State W) where
  abbrev pub tried : Socket → W × Answer → State W × Answer
  tried socket (w, answer) = ((socket, w), answer)

  -- The store to `waiter->reason`, and then the operation.
  abbrev pub attempt : State W → State W × Answer
  attempt s = let ready = between (clear side s) in tried ready.0 (op ready.0.fd ready.1)

  unfoldable pub socket_loop :
      (wait : State W → State W) (fuel : ℕ) → State W → Option (State W × Answer)
  socket_loop wait zero s = none
  socket_loop wait (suc fuel) s =
      let rest = unless_again (socket_loop wait fuel) (attempt (wait s)) in
      if s.0.error then some (s, fails connreset) else rest

  -- `can_nomem` is the macro FEV_TIMED_WAIT_CAN_RETURN_ENOMEM.
  unfoldable pub timeout_loop :
      (can_nomem : Bool) (timed_wait : State W → State W × Waited) (fuel : ℕ)
      → State W
      → Option (State W × Answer)
  timeout_loop can_nomem timed_wait zero s = none
  timeout_loop can_nomem timed_wait (suc fuel) s =
      let (s', res) = timed_wait s in
      let rest = unless_again (timeout_loop can_nomem timed_wait fuel) (attempt s') in
      if s.0.error
      then some (s, fails connreset)
      else if can_nomem && is_no_memory res
      then some (s', fails nomem)
      else if is_too_late res
      then some (s', fails timedout)
      else rest

  module _ (register : Socket → Side → W → W × Option Error) where
    unfoldable pub socket_op :
        (wait : State W → State W) (fuel fiber : ℕ) → State W → Option (State W × Answer)
    socket_op wait fuel fiber s =
        unless_again (λ s'. unless_failed (socket_loop wait fuel) (activate side register fiber s'))
          (attempt s)

    unfoldable pub timeout_op :
        (can_nomem : Bool) (timed_wait : State W → State W × Waited) (fuel fiber : ℕ)
        → State W
        → Option (State W × Answer)
    timeout_op can_nomem timed_wait fuel fiber s =
        unless_again
          (λ s'.
            unless_failed (timeout_loop can_nomem timed_wait fuel)
              (activate side register fiber s'))
          (attempt s)

module _ {W : Type 0} (calls : Calls W) where
  -- FEV_SOCKET_ACCEPT_OP, with the new socket beside the world.
  abbrev pub accepted : (new_socket : Socket) → W × Answer → (W × Socket) × Answer
  accepted new_socket (w, value fd) = ((w, record new_socket { fd = pos fd }), value 0)
  accepted new_socket (w, fails e) = ((w, new_socket), fails e)

  unfoldable pub accept_op : (have_accept4 : Bool) → ℤ → W × Socket → (W × Socket) × Answer
  accept_op have_accept4 fd (w, new_socket) =
      accepted new_socket (accept_nonblock calls have_accept4 fd w)

  abbrev pub in_progress : Error → Error
  in_progress inprogress = again
  in_progress e = e

  abbrev pub connected : W × Option Error → W × Answer
  connected (w, none) = (w, value 0)
  connected (w, some e) = (w, fails (in_progress e))

  unfoldable pub connect_op : ℤ → W → W × Answer
  connect_op fd w = connected (calls.connect fd w)

  abbrev pub read_op : ℤ → W → W × Answer
  read_op fd w = calls.read fd w

  abbrev pub write_op : ℤ → W → W × Answer
  write_op fd w = calls.write fd w
