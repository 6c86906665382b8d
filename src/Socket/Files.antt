-- ===== src/Socket/Files.antt =====
-- src/fev_socket_reactor.c: the descriptors that the functions open and close.
use libfev.Base.{
  ℕ, ℤ, pos, negsuc, ◌≡◌, refl, sym, ap, ◌∙◌, subst, Bool, true, false, Option, none, some, List,
  ◌∷◌,
}
use libfev.Socket.{
  Error, Answer, value, fails, Socket, Calls, keep_or_close, make_nonblock, accept_nonblock, opened,
  open_socket, closed, close,
}

module _ {W : Type 0} (files : W → List ℕ) (is_nonblocking : ℕ → W → Bool) where
  -- A system call that makes a descriptor, or fails.
  pub record Makes (w : W) (r : W × Answer) : Type 0 where
    pub made : (fd : ℕ) → r.1 ≡ value fd → files r.0 ≡ fd ∷ files w
    pub kept : (e : Error) → r.1 ≡ fails e → files r.0 ≡ files w

  -- What the system calls do to the open descriptors.
  pub record IsSystem (calls : Calls W) : Type 0 where
    pub socket : (w : W) → Makes w (calls.socket w)
    pub accept : (fd : ℤ) (w : W) → Makes w (calls.accept fd w)
    pub accept4 : (fd : ℤ) (w : W) → Makes w (calls.accept4 fd w)
    pub accept4_sets :
        (fd : ℤ) (new : ℕ) (w : W)
        → (calls.accept4 fd w).1 ≡ value new
        → is_nonblocking new (calls.accept4 fd w).0 ≡ true
    pub ioctl : (fd : ℤ) (w : W) → files (calls.set_nonblocking fd w).0 ≡ files w
    pub ioctl_sets :
        (fd : ℕ) (w : W)
        → (calls.set_nonblocking (pos fd) w).1 ≡ none
        → is_nonblocking fd (calls.set_nonblocking (pos fd) w).0 ≡ true
    -- The descriptor is released also when `close` reports an error.
    pub close :
        (fd : ℕ) (rest : List ℕ) (w : W)
        → files w ≡ fd ∷ rest
        → files (calls.close (pos fd) w).0 ≡ rest

  -- One more descriptor, which does not block, or an error and the descriptors as before.
  pub data Fresh (w : W) : W × Answer → Type 0 where
    fresh :
        {w' : W} {fd : ℕ}
        → files w' ≡ fd ∷ files w
        → is_nonblocking fd w' ≡ true
        → Fresh w (w', value fd)
    as_before : {w' : W} {e : Error} → files w' ≡ files w → Fresh w (w', fails e)

  -- The same of a function that stores the descriptor in the socket.
  pub data Stored (socket : Socket) (w : W) : Socket × W × Answer → Type 0 where
    stored :
        {w' : W} {fd : ℕ}
        → files w' ≡ fd ∷ files w
        → is_nonblocking fd w' ≡ true
        → Stored socket w (record socket { fd = pos fd }, w', value 0)
    not_stored : {w' : W} {e : Error} → files w' ≡ files w → Stored socket w (socket, w', fails e)

  -- The descriptors are those of the world `w`, and the socket has none.
  pub record Undone (socket : Socket) (w : W) (r : Socket × W × Answer) : Type 0 where
    pub unset : r.0 ≡ record socket { fd = negsuc 0 }
    pub descriptors : files r.1 ≡ files w
    pub answer : r.2 ≡ value 0

  module _ (calls : Calls W) (system : IsSystem calls) where
    keep_or_close-Fresh :
        (w : W) (fd : ℕ) (r : W × Option Error)
        → files r.0 ≡ fd ∷ files w
        → (r.1 ≡ none → is_nonblocking fd r.0 ≡ true)
        → Fresh w (keep_or_close calls fd r)
    keep_or_close-Fresh w fd (w', none) new sets = fresh new (sets refl)
    keep_or_close-Fresh w fd (w', some e) new sets = as_before (system.close fd (files w) w' new)

    make_nonblock-Fresh : (w : W) (r : W × Answer) → Makes w r → Fresh w (make_nonblock calls r)
    make_nonblock-Fresh w (w', fails e) m = as_before (m.kept e refl)
    make_nonblock-Fresh w (w', value fd) m =
        keep_or_close-Fresh w fd (calls.set_nonblocking (pos fd) w')
          (system.ioctl (pos fd) w' ∙ m.made fd refl) (system.ioctl_sets fd w')

    accept4-Fresh : (w : W) (fd : ℤ) (r : W × Answer) → r ≡ calls.accept4 fd w → Fresh w r
    accept4-Fresh w fd (w', value n) e =
        let answer = ap (λ z. z.1) (sym e) in
        fresh (ap (λ z. files z.0) e ∙ (system.accept4 fd w).made n answer)
          (ap (λ z. is_nonblocking n z.0) e ∙ system.accept4_sets fd n w answer)
    accept4-Fresh w fd (w', fails x) e =
        as_before (ap (λ z. files z.0) e ∙ (system.accept4 fd w).kept x (ap (λ z. z.1) (sym e)))

    -- Accepting gives one more descriptor, which does not block, or an error and the descriptors as
    -- before, with accept4 and without it: a descriptor that cannot be made non-blocking is not left open.
    pub accept_nonblock-Fresh :
        (have_accept4 : Bool) (fd : ℤ) (w : W) → Fresh w (accept_nonblock calls have_accept4 fd w)
    unfolding accept_nonblock
    accept_nonblock-Fresh true fd w = accept4-Fresh w fd (calls.accept4 fd w) refl
    accept_nonblock-Fresh false fd w =
        make_nonblock-Fresh w (calls.accept fd w) (system.accept fd w)

    opened-Stored :
        (sock : Socket) (w : W) (r : W × Answer) → Fresh w r → Stored sock w (opened calls sock r)
    opened-Stored sock w r (fresh new sets) = stored new sets
    opened-Stored sock w r (as_before same) = not_stored same

    -- Opening a socket stores one more descriptor in it, which does not block, and returns 0, or returns
    -- an error and leaves the socket and the descriptors as they were.
    pub open_socket-Stored : (sock : Socket) (w : W) → Stored sock w (open_socket calls sock w)
    unfolding open_socket
    open_socket-Stored sock w =
        opened-Stored sock w _ (make_nonblock-Fresh w (calls.socket w) (system.socket w))

    socket_of :
        (sock sock' : Socket) (w w' : W)
        → Stored sock w (sock', w', value 0)
        → (fd : ℕ) × (sock' ≡ record sock { fd = pos fd }) × (files w' ≡ fd ∷ files w)
    socket_of sock _ w w' (stored {fd = fd} new sets) = (fd, refl, new)

    closed-Undone :
        (sock : Socket) (w : W) (r : W × Option Error) (fd : ℕ)
        → r.1 ≡ none
        → files r.0 ≡ files w
        → Undone sock w (closed calls (record sock { fd = pos fd }) r)
    closed-Undone sock w (w', none) fd good same = record {
      unset = refl;
      descriptors = same;
      answer = refl;
    }
    closed-Undone sock w (w', some e) fd good same = absurd (cc good)

    -- When a socket that has been opened is closed with success, the descriptors are again those from
    -- before it was opened, and the socket is the one from then with the descriptor -1.
    pub close-open_socket :
        (sock sock' : Socket) (w w' : W)
        → open_socket calls sock w ≡ (sock', w', value 0)
        → (calls.close sock'.fd w').1 ≡ none
        → Undone sock w (close calls sock' w')
    unfolding close
    close-open_socket sock sock' w w' e good =
        let (fd, is, new) =
          socket_of sock sock' w w' (subst (Stored sock w) e (open_socket-Stored sock w)) in
        let good' : (calls.close (pos fd) w').1 ≡ none =
          ap (λ z. (calls.close z.fd w').1) (sym is) ∙ good in
        subst (λ z. Undone sock w (close calls z w')) (sym is)
          (closed-Undone sock w (calls.close (pos fd) w') fd good'
            (system.close fd (files w) w' new))
