-- ===== src/Socket/Tests.antt =====
-- src/fev_socket_reactor.c and src/fev_poller_epoll.c on a small system: an operation that succeeds at its
-- third try, one that never does, descriptors that are counted.
use libfev.Base.{
  ℕ, zero, suc, ℤ, pos, negsuc, ◌+◌, ◌<◌, ◌≤◌, ◌⊎◌, inl, inr, not, ◌≡◌, refl, ap, arith, subst,
  Bool, true, false, ltb, if◌then◌else◌, Option, none, some, List, [], ◌∷◌, update, update_self,
}
use libfev.Socket.{
  Error, again, is_again, Socket, timedout, other, Answer, value, fails, Calls, init, open_socket,
  close, accept_nonblock,
}
use libfev.Socket.Ops.{
  reading, Waited, woken, too_late, State, attempt, activate, socket_op, timeout_op, timeout_loop,
}
use libfev.Socket.Poll.{Events, Ctl, add, modify, has_old, old_events, with_flag, poller_register}
use libfev.Socket.Rounds.{Ends, timeout_op_returns, socket_op-timeout_op}
use libfev.Socket.Interest.{IsEpoll, Tracks, CanWait}
use libfev.Socket.Waits.{timeout_op-Tracks}
use libfev.Socket.Files.{Makes, IsSystem, Fresh, Undone, accept_nonblock-Fresh, close-open_socket}

-- The number of tries, and what epoll watches.
abbrev World : Type 0
World = ℕ × Option Events

abbrev third_try : ℤ → World → World × Answer
third_try fd (n, e) = ((n + 1, e), if ltb n 2 then fails again else value 5)

abbrev interest : ℤ → World → Option Events
interest fd w = w.1

abbrev epoll_ctl : Ctl → ℤ → Events → World → World × Option Error
epoll_ctl add fd events (n, none) = ((n, some events), none)
epoll_ctl add fd events (n, some e) = ((n, some e), some (other 17))
epoll_ctl modify fd events (n, none) = ((n, none), some (other 2))
epoll_ctl modify fd events (n, some e) = ((n, some events), none)

epoll_ctl-IsEpoll : IsEpoll interest epoll_ctl
epoll_ctl-IsEpoll = record { adds = adds; modifies = modifies; refuses = refuses }
  where
    adds :
        (fd : ℤ) (events : Events) (w : World)
        → interest fd w ≡ none
        → (epoll_ctl add fd events w).1 ≡ none
        → interest fd (epoll_ctl add fd events w).0 ≡ some events
    adds fd events (n, none) a b = refl
    adds fd events (n, some e) a b = absurd (cc a)

    modifies :
        (fd : ℤ) (events old : Events) (w : World)
        → interest fd w ≡ some old
        → (epoll_ctl modify fd events w).1 ≡ none
        → interest fd (epoll_ctl modify fd events w).0 ≡ some events
    modifies fd events old (n, none) a b = absurd (cc a)
    modifies fd events old (n, some e) a b = refl

    refuses :
        (ctl : Ctl) (fd : ℤ) (events : Events) (e : Error) (w : World)
        → (epoll_ctl ctl fd events w).1 ≡ some e
        → interest fd (epoll_ctl ctl fd events w).0 ≡ interest fd w
    refuses add fd events e (n, none) a = absurd (cc a)
    refuses add fd events e (n, some x) a = refl
    refuses modify fd events e (n, none) a = refl
    refuses modify fd events e (n, some x) a = absurd (cc a)

abbrev fresh_state : State World
fresh_state = (record init { fd = pos 3 }, (0, none))

abbrev wakes : State World → State World × Waited
wakes s = (s, woken)

abbrev lates : State World → State World × Waited
lates s = (s, too_late)

abbrev waiting : State World
waiting = (
  record init { read_end = record { reason = 0; fiber = 4; active = true }; fd = pos 3 },
  (1, some (with_flag reading (old_events init))),
)

abbrev alone : State World → State World
alone s = s

activate_test :
    activate reading (poller_register epoll_ctl) 4 (attempt reading third_try alone fresh_state).0
    ≡ (waiting, none)
unfolding activate poller_register
activate_test = refl

-- The world of a wait: the number of ticks that are left, and what epoll watches.
abbrev ticks : State World → ℕ
ticks s = s.1.0

abbrev blocks : ℤ → World → World × Answer
blocks fd w = (w, fails again)

abbrev tick : World → World × Waited
tick (zero, e) = ((zero, e), too_late)
tick (suc n, e) = ((n, e), woken)

abbrev waits : State World → State World × Waited
waits (socket, w) = ((socket, (tick w).0), (tick w).1)

tick-passes : (s : State World) → ((waits s).1 ≡ too_late) ⊎ (ticks (waits s).0 < ticks s)
tick-passes (socket, (zero, e)) = inl refl
tick-passes (socket, (suc n, e)) = inr (omega arith)

register_final :
    (socket : Socket) (w : World) (e : Error)
    → (poller_register epoll_ctl socket reading w).1 ≡ some e
    → is_again e ≡ false
unfolding poller_register
register_final socket w e p = ctl_final (if not (has_old socket) then add else modify) w e p
  where
    ctl_final :
        (c : Ctl) (w : World) (e : Error)
        → (epoll_ctl c socket.fd (with_flag reading (old_events socket)) w).1 ≡ some e
        → is_again e ≡ false
    ctl_final add (n, none) e p = absurd (cc p)
    ctl_final add (n, some x) e p = grind arith
    ctl_final modify (n, none) e p = grind arith
    ctl_final modify (n, some x) e p = absurd (cc p)

abbrev three_ticks : State World
three_ticks = (record init { fd = pos 3 }, (3, none))

steady : (s : State World) → ticks (attempt reading blocks alone s).0 ≤ ticks s
steady (socket, w) = omega arith

three_left :
    ticks
      (activate reading
        (poller_register epoll_ctl)
        4
        (attempt reading blocks alone three_ticks).0).0
    < 4
unfolding activate poller_register
three_left = omega arith

timeout_op_returns_example :
    Ends (timeout_op reading blocks alone (poller_register epoll_ctl) true waits 4 4 three_ticks)
timeout_op_returns_example =
    timeout_op_returns reading (poller_register epoll_ctl) register_final blocks alone true waits
      ticks steady tick-passes 4 4 three_ticks three_left

late_test :
    timeout_op reading third_try alone (poller_register epoll_ctl) true lates 2 4 fresh_state
    ≡ some (waiting, fails timedout)
unfolding timeout_op timeout_loop activate poller_register
late_test = refl

socket_op-timeout_op_example :
    socket_op reading third_try alone (poller_register epoll_ctl) (λ s. s) 2 4 fresh_state
    ≡ timeout_op reading third_try alone (poller_register epoll_ctl) true wakes 2 4 fresh_state
socket_op-timeout_op_example =
    socket_op-timeout_op reading third_try alone (λ s. s) (poller_register epoll_ctl) 2 4
      fresh_state

calm : (fd g : ℤ) (w : World) → interest g (third_try fd w).0 ≡ interest g w
calm fd g w = refl

keeps : (s : State World) → CanWait interest reading 4 s → CanWait interest reading 4 s
keeps s c = c

still : (s : State World) → Tracks interest s → Tracks interest s
still s t = t

timeout_op-Tracks_example : Tracks interest waiting
timeout_op-Tracks_example =
    timeout_op-Tracks interest epoll_ctl reading third_try 4 epoll_ctl-IsEpoll calm alone still
      keeps true lates keeps 2 fresh_state (waiting, fails timedout) refl late_test

-- The open descriptors, which descriptors do not block, and the next one.
record Kernel : Type 0 where
  files : List ℕ
  nonblocking : ℕ → Bool
  next : ℕ

abbrev tail_of : List ℕ → List ℕ
tail_of [] = []
tail_of (fd ∷ fds) = fds

abbrev new_file : Kernel → Kernel × Answer
new_file w = (record w { files = w.next ∷ w.files; next = w.next + 1 }, value w.next)

abbrev set_bit : ℤ → Kernel → Kernel × Option Error
set_bit (pos fd) w = (record w { nonblocking = update w.nonblocking fd true }, none)
set_bit (negsuc n) w = (w, some (other 9))

abbrev new_quick : Kernel → Kernel × Answer
new_quick w = (
  record {
    files = w.next ∷ w.files;
    nonblocking = update w.nonblocking w.next true;
    next = w.next + 1;
  },
  value w.next,
)

abbrev calls : Calls Kernel
calls = record {
  set_nonblocking = set_bit;
  accept = λ fd w. new_file w;
  accept4 = λ fd w. new_quick w;
  socket = new_file;
  close = λ fd w. (record w { files = tail_of w.files }, none);
  bind = λ fd w. (w, none);
  listen = λ fd w. (w, none);
  setsockopt = λ fd w. (w, none);
  connect = λ fd w. (w, none);
  read = λ fd w. (w, value 0);
  write = λ fd w. (w, value 0);
}

abbrev files_of : Kernel → List ℕ
files_of w = w.files

abbrev bit_of : ℕ → Kernel → Bool
bit_of fd w = w.nonblocking fd

abbrev number_of : Answer → ℕ
number_of (value n) = n
number_of (fails e) = 0

same_number : {a b : ℕ} → value a ≡ value b → a ≡ b
same_number e = ap number_of e

set_bit-files : (fd : ℤ) (w : Kernel) → files_of (set_bit fd w).0 ≡ files_of w
set_bit-files (pos fd) w = refl
set_bit-files (negsuc n) w = refl

calls-IsSystem : IsSystem files_of bit_of calls
calls-IsSystem = record {
  socket = λ w. makes w;
  accept = λ fd w. makes w;
  accept4 = λ fd w. record {
    made = λ new e. ap (λ n. n ∷ w.files) (same_number e);
    kept = λ x e. absurd (cc e);
  };
  accept4_sets = λ fd new w e.
      subst (λ n. update w.nonblocking w.next true n ≡ true) (same_number e)
        (update_self w.nonblocking w.next true);
  ioctl = set_bit-files;
  ioctl_sets = λ fd w e. update_self w.nonblocking fd true;
  close = λ fd rest w e. ap tail_of e;
}
  where
    makes : (w : Kernel) → Makes files_of bit_of w (new_file w)
    makes w = record {
      made = λ fd e. ap (λ n. n ∷ w.files) (same_number e);
      kept = λ x e. absurd (cc e);
    }

abbrev boot : Kernel
boot = record { files = 0 ∷ []; nonblocking = λ fd. false; next = 5 }

abbrev opened_kernel : Kernel
opened_kernel = record { files = 5 ∷ 0 ∷ []; nonblocking = update (λ fd. false) 5 true; next = 6 }

accept_nonblock-Fresh_example :
    Fresh files_of bit_of boot (accept_nonblock calls false (pos 0) boot)
accept_nonblock-Fresh_example =
    accept_nonblock-Fresh files_of bit_of calls calls-IsSystem false (pos 0) boot

open_test : open_socket calls init boot ≡ (record init { fd = pos 5 }, opened_kernel, value 0)
unfolding open_socket
open_test = refl

close-open_socket_example :
    Undone files_of bit_of init boot (close calls (record init { fd = pos 5 }) opened_kernel)
close-open_socket_example =
    close-open_socket files_of bit_of calls calls-IsSystem init (record init { fd = pos 5 }) boot
      opened_kernel open_test refl
