-- ===== src/Socket.antt =====
-- src/fev_socket_reactor.h, src/fev_socket_reactor.c: the sockets on a poller that reports readiness. The
-- system calls, with the memory that they read and write (addresses, options, buffers), are a parameter:
-- each is a function on a world of type `W`, and answers 0 or a value, or the `errno` that it sets.
pub mod Ops
pub mod Poll
pub mod Api
pub mod Rounds
pub mod Interest
pub mod Waits
pub mod Files
mod Tests
use libfev.Base.{ℕ, zero, ℤ, pos, negsuc, Bool, true, false, if◌then◌else◌, Option, none, some}

-- The values of `errno` that the code names, and any other.
pub data Error : Type 0 where
  again inprogress nomem timedout connreset : Error
  other : (errno : ℕ) → Error

abbrev pub is_again : Error → Bool
is_again again = true
is_again _ = false

-- What a function returns: a value that is not negative, or an error with its sign turned.
pub data Answer : Type 0 where
  value : (n : ℕ) → Answer
  fails : (e : Error) → Answer

-- `struct fev_socket_end`: of the waiter, what the socket's functions store.
pub record End : Type 0 where
  pub reason : ℕ
  pub fiber : ℕ
  pub active : Bool

pub record Socket : Type 0 where
  pub read_end : End
  pub write_end : End
  pub fd : ℤ
  pub error : Bool

pub record Calls (W : Type 0) : Type 0 where
  pub set_nonblocking : ℤ → W → W × Option Error
  pub accept : ℤ → W → W × Answer
  pub accept4 : ℤ → W → W × Answer
  pub socket : W → W × Answer
  pub close : ℤ → W → W × Option Error
  pub bind : ℤ → W → W × Option Error
  pub listen : ℤ → W → W × Option Error
  pub setsockopt : ℤ → W → W × Option Error
  pub connect : ℤ → W → W × Option Error
  pub read : ℤ → W → W × Answer
  pub write : ℤ → W → W × Answer

abbrev pub init : Socket
init = record {
  read_end = record { reason = 0; fiber = 0; active = false };
  write_end = record { reason = 0; fiber = 0; active = false };
  fd = negsuc 0;
  error = false;
}

-- The end of a function that returns 0 or an error.
abbrev pub code : {W : Type 0} → W × Option Error → W × Answer
code (w, none) = (w, value 0)
code (w, some e) = (w, fails e)

-- `fev_malloc` gives memory or not.
abbrev pub create : (allocated : Bool) → Option Socket × Answer
create true = (some init, value 0)
create false = (none, fails nomem)

abbrev pub native_handle : Socket → ℤ
native_handle socket = socket.fd

module _ {W : Type 0} (calls : Calls W) where
  abbrev pub set_nonblock : ℤ → W → W × Option Error
  set_nonblock fd w = calls.set_nonblocking fd w

  -- The failure of `fev_set_nonblock` closes the new descriptor.
  abbrev pub keep_or_close : (fd : ℕ) → W × Option Error → W × Answer
  keep_or_close fd (w, none) = (w, value fd)
  keep_or_close fd (w, some e) = ((calls.close (pos fd) w).0, fails e)

  abbrev pub make_nonblock : W × Answer → W × Answer
  make_nonblock (w, fails e) = (w, fails e)
  make_nonblock (w, value fd) = keep_or_close fd (set_nonblock (pos fd) w)

  -- `have_accept4` is the macro FEV_HAVE_ACCEPT4.
  unfoldable pub accept_nonblock : (have_accept4 : Bool) → ℤ → W → W × Answer
  accept_nonblock true fd w = calls.accept4 fd w
  accept_nonblock false fd w = make_nonblock (calls.accept fd w)

  abbrev pub set_opt : Socket → W → W × Answer
  set_opt socket w = code (calls.setsockopt socket.fd w)

  abbrev pub opened : Socket → W × Answer → Socket × W × Answer
  opened sock (w, fails e) = (sock, w, fails e)
  opened sock (w, value fd) = (record sock { fd = pos fd }, w, value 0)

  unfoldable pub open_socket : Socket → W → Socket × W × Answer
  open_socket sock w = opened sock (make_nonblock (calls.socket w))

  abbrev pub closed : Socket → W × Option Error → Socket × W × Answer
  closed socket (w, none) = (record socket { fd = negsuc 0 }, w, value 0)
  closed socket (w, some e) = (socket, w, fails e)

  abbrev pub is_closed : ℤ → Bool
  is_closed (negsuc zero) = true
  is_closed _ = false

  unfoldable pub close : Socket → W → Socket × W × Answer
  close socket w =
      if is_closed socket.fd then (socket, w, value 0) else closed socket (calls.close socket.fd w)

  abbrev pub bind : Socket → W → W × Answer
  bind socket w = code (calls.bind socket.fd w)

  abbrev pub listen : Socket → W → W × Answer
  listen socket w = code (calls.listen socket.fd w)
