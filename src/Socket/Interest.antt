-- ===== src/Socket/Interest.antt =====
-- src/fev_socket_reactor.c with src/fev_poller_epoll.c: what epoll watches of a socket, and where a fiber
-- may wait.
use libfev.Base.{
  ℕ, ℤ, ◌≡◌, refl, sym, ap, ◌∙◌, Bool, true, false, not, inl, inr, if◌then◌else◌, Option, none,
  some, Bool-cases,
}
use libfev.Socket.{Error, Answer, End, Socket}
use libfev.Socket.Ops.{
  Side, reading, writing, end_of, with_end, State, clear, attempt, registered, activate,
}
use libfev.Socket.Poll.{Events, Ctl, add, modify, with_flag, old_events, has_old, poller_register}

-- The events that epoll watches for each descriptor, in a world, and what `epoll_ctl` does to them:
-- EPOLL_CTL_ADD can succeed on a descriptor that is not watched, EPOLL_CTL_MOD on one that is, and a
-- failure changes nothing.
pub record IsEpoll {W : Type 0} (interest : ℤ → W → Option Events)
    (epoll_ctl : Ctl → ℤ → Events → W → W × Option Error) : Type 0 where
  pub adds :
      (fd : ℤ) (events : Events) (w : W)
      → interest fd w ≡ none
      → (epoll_ctl add fd events w).1 ≡ none
      → interest fd (epoll_ctl add fd events w).0 ≡ some events
  pub modifies :
      (fd : ℤ) (events old : Events) (w : W)
      → interest fd w ≡ some old
      → (epoll_ctl modify fd events w).1 ≡ none
      → interest fd (epoll_ctl modify fd events w).0 ≡ some events
  pub refuses :
      (ctl : Ctl) (fd : ℤ) (events : Events) (e : Error) (w : W)
      → (epoll_ctl ctl fd events w).1 ≡ some e
      → interest fd (epoll_ctl ctl fd events w).0 ≡ interest fd w

-- The events of the ends that are active: none before the first registration.
abbrev pub watched : Socket → Option Events
watched socket = if has_old socket then some (old_events socket) else none

module _ {W : Type 0} (interest : ℤ → W → Option Events) where
  -- Epoll watches exactly the active ends of the socket.
  abbrev pub Tracks : State W → Type 0
  Tracks s = interest s.0.fd s.1 ≡ watched s.0

  -- Where a fiber may wait: epoll watches its end, whose waiter names it.
  pub record CanWait (side : Side) (fiber : ℕ) (s : State W) : Type 0 where
    pub tracks : Tracks s
    pub active : (end_of side s.0).active ≡ true
    pub names : (end_of side s.0).fiber ≡ fiber

module _ {W : Type 0} (interest : ℤ → W → Option Events)
    (epoll_ctl : Ctl → ℤ → Events → W → W × Option Error) (side : Side) where
  module _ (epoll : IsEpoll interest epoll_ctl) where
    watched-active :
        (end : Side) (socket : Socket)
        → watched (with_end end socket (record (end_of end socket) { active = true }))
          ≡ some (with_flag end (old_events socket))
    watched-active reading socket = refl
    watched-active writing socket = elim (Bool-cases socket.read_end.active) [
      | inl on ↦ rw (on) refl
      | inr off ↦ rw (off) refl
    ]

    ctl_sets :
        (old : Bool) (fd : ℤ) (events before : Events) (w : W)
        → interest fd w ≡ (if old then some before else none)
        → (epoll_ctl (if not old then add else modify) fd events w).1 ≡ none
        → interest fd (epoll_ctl (if not old then add else modify) fd events w).0 ≡ some events
    ctl_sets true fd events before w at done = epoll.modifies fd events before w at done
    ctl_sets false fd events before w at done = epoll.adds fd events w at done

    registers :
        (socket : Socket) (w : W)
        → interest socket.fd w ≡ watched socket
        → (poller_register epoll_ctl socket side w).1 ≡ none
        → interest socket.fd (poller_register epoll_ctl socket side w).0
          ≡ watched (with_end side socket (record (end_of side socket) { active = true }))
    unfolding poller_register
    registers socket w at done =
        ctl_sets (has_old socket) socket.fd (with_flag side (old_events socket)) (old_events socket)
          w at done
        ∙ sym (watched-active side socket)

    registers_fails :
        (socket : Socket) (w : W) (e : Error)
        → interest socket.fd w ≡ watched socket
        → (poller_register epoll_ctl socket side w).1 ≡ some e
        → interest socket.fd (poller_register epoll_ctl socket side w).0 ≡ watched socket
    unfolding poller_register
    registers_fails socket w e at failed = epoll.refuses _ _ _ e w failed ∙ at

    fd-with_end : (end : Side) (socket : Socket) (e : End) → (with_end end socket e).fd ≡ socket.fd
    fd-with_end reading socket e = refl
    fd-with_end writing socket e = refl

    registered-Tracks :
        (socket : Socket) (r : W × Option Error)
        → (r.1 ≡ none
            → interest socket.fd r.0
              ≡ watched (with_end side socket (record (end_of side socket) { active = true })))
        → ((e : Error) → r.1 ≡ some e → interest socket.fd r.0 ≡ watched socket)
        → Tracks interest (registered side (poller_register epoll_ctl) socket r).0
    registered-Tracks socket (w, none) good bad =
        rw (fd-with_end side socket (record (end_of side socket) { active = true })) (good refl)
    registered-Tracks socket (w, some e) good bad = bad e refl

    watched-named :
        (end : Side) (socket : Socket) (n : ℕ)
        → watched (with_end end socket (record (end_of end socket) { fiber = n })) ≡ watched socket
    watched-named reading socket n = refl
    watched-named writing socket n = refl

    watched-cleared :
        (end : Side) (socket : Socket) (n : ℕ)
        → watched (with_end end socket (record (end_of end socket) { reason = n })) ≡ watched socket
    watched-cleared reading socket n = refl
    watched-cleared writing socket n = refl

    pub activate-Tracks :
        (fiber : ℕ) (s : State W)
        → Tracks interest s
        → Tracks interest (activate side (poller_register epoll_ctl) fiber s).0
    unfolding activate
    activate-Tracks fiber (socket, w) t =
        let named = with_end side socket (record (end_of side socket) { fiber = fiber }) in
        let at : interest named.fd w ≡ watched named =
          ap (λ k. interest k w)
            (fd-with_end side socket (record (end_of side socket) { fiber = fiber }))
          ∙ t
          ∙ sym (watched-named side socket fiber) in
        elim (Bool-cases (end_of side named).active) [
          | inl on ↦ rw (on) at
          | inr off ↦ rw (off) (
              registered-Tracks named (poller_register epoll_ctl named side w)
                (registers named w at) (λ e. registers_fails named w e at))
        ]

    pub cleared-Tracks : (s : State W) → Tracks interest s → Tracks interest (clear side s)
    cleared-Tracks (socket, w) t =
        ap (λ k. interest k w)
          (fd-with_end side socket (record (end_of side socket) { reason = 0 }))
        ∙ t
        ∙ sym (watched-cleared side socket 0)

    pub attempt-Tracks :
        (op : ℤ → W → W × Answer) (between : State W → State W) (s : State W)
        → ((fd g : ℤ) (w : W) → interest g (op fd w).0 ≡ interest g w)
        → ((s : State W) → Tracks interest s → Tracks interest (between s))
        → Tracks interest s
        → Tracks interest (attempt side op between s).0
    attempt-Tracks op between s calm others t =
        let ready = between (clear side s) in
        calm ready.0.fd ready.0.fd ready.1 ∙ others (clear side s) (cleared-Tracks s t)

-- The end itself.
end-with_end : (side : Side) (socket : Socket) (e : End) → end_of side (with_end side socket e) ≡ e
end-with_end reading socket e = refl
end-with_end writing socket e = refl

module _ {W : Type 0} (side : Side) where
  pub cleared-end :
      (s : State W) → end_of side (clear side s).0 ≡ record (end_of side s.0) { reason = 0 }
  cleared-end (socket, w) = end-with_end side socket (record (end_of side socket) { reason = 0 })

  registered-end :
      (register : Socket → Side → W → W × Option Error) (socket : Socket) (r : W × Option Error)
      → (registered side register socket r).1 ≡ none
      → end_of side (registered side register socket r).0.0
        ≡ record (end_of side socket) { active = true }
  registered-end register socket (w, none) e =
      end-with_end side socket (record (end_of side socket) { active = true })
  registered-end register socket (w, some x) e = absurd (cc e)

  pub activate-end :
      (register : Socket → Side → W → W × Option Error) (fiber : ℕ) (s : State W)
      → (activate side register fiber s).1 ≡ none
      → end_of side (activate side register fiber s).0.0
        ≡ record { reason = (end_of side s.0).reason; fiber = fiber; active = true }
  unfolding activate
  activate-end register fiber (socket, w) e =
      let named = with_end side socket (record (end_of side socket) { fiber = fiber }) in
      let q = end-with_end side socket (record (end_of side socket) { fiber = fiber }) in
      elim (Bool-cases (end_of side named).active) [
        | inl on ↦
            let kept : activate side register fiber (socket, w) ≡ ((named, w), none) =
              rw (on) refl in
            let was : (end_of side socket).active ≡ true = sym (ap (λ z. z.active) q) ∙ on in
            ap (λ z. end_of side z.0.0) kept
            ∙ q
            ∙ ap {A = Bool} {B = End}
                (λ a. record { reason = (end_of side socket).reason; fiber = fiber; active = a })
                was
        | inr off ↦
            let r = registered side register named (register named side w) in
            let made : activate side register fiber (socket, w) ≡ r = rw (off) refl in
            ap (λ z. end_of side z.0.0) made
            ∙ registered-end register named (register named side w) (sym (ap (λ z. z.1) made) ∙ e)
            ∙ ap {A = End} {B = End} (λ z. record z { active = true }) q
      ]
