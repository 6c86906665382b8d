-- ===== src/Socket/Waits.antt =====
-- src/fev_socket_reactor.c: what an operation keeps of epoll's view of the socket.
use libfev.Base.{
  ℕ, zero, suc, ℤ, ◌≡◌, refl, sym, ap, ◌∙◌, arith, Bool, ◌&&◌, ◌⊎◌, inl, inr, Option, none, some,
  Bool-cases, subst,
}
use libfev.Socket.{Error, Answer, value, fails}
use libfev.Socket.Ops.{
  Side, Waited, is_no_memory, is_too_late, State, clear, attempt, unless_again, timeout_loop,
  activate, unless_failed, timeout_op,
}
use libfev.Socket.Poll.{Events, Ctl, poller_register}
use libfev.Socket.Interest.{
  IsEpoll, Tracks, CanWait, activate-Tracks, attempt-Tracks, cleared-Tracks, cleared-end,
  activate-end,
}

module _ {W : Type 0} (interest : ℤ → W → Option Events)
    (epoll_ctl : Ctl → ℤ → Events → W → W × Option Error) (side : Side) (op : ℤ → W → W × Answer)
    (fiber : ℕ) (epoll : IsEpoll interest epoll_ctl)
    (calm : (fd g : ℤ) (w : W) → interest g (op fd w).0 ≡ interest g w)
    (between : State W → State W)
    (others : (s : State W) → Tracks interest s → Tracks interest (between s))
    (meets : (s : State W)
      → CanWait interest side fiber s
      → CanWait interest side fiber (between s))
    (can_nomem : Bool) where
  after_wait :
      (s : State W)
      → CanWait interest side fiber s
      → CanWait interest side fiber (attempt side op between s).0
  after_wait s k =
      let e = cleared-end side s in
      let ready : CanWait interest side fiber (clear side s) = record {
        tracks = cleared-Tracks interest epoll_ctl side epoll s k.tracks;
        active = ap (λ z. z.active) e ∙ k.active;
        names = ap (λ z. z.fiber) e ∙ k.names;
      } in
      let met = meets (clear side s) ready in
      record {
        tracks = attempt-Tracks interest epoll_ctl side epoll op between s calm others k.tracks;
        active = met.active;
        names = met.names;
      }

  before_wait :
      (s : State W)
      → Tracks interest s
      → (activate side (poller_register epoll_ctl) fiber (attempt side op between s).0).1 ≡ none
      → CanWait interest side fiber
          (activate side (poller_register epoll_ctl) fiber (attempt side op between s).0).0
  before_wait s t good =
      let s' = (attempt side op between s).0 in
      let e = activate-end side (poller_register epoll_ctl) fiber s' good in
      record {
        tracks =
            activate-Tracks interest epoll_ctl side epoll fiber s'
              (attempt-Tracks interest epoll_ctl side epoll op between s calm others t);
        active = ap (λ z. z.active) e;
        names = ap (λ z. z.fiber) e;
      }

  returned :
      (rest : State W → Option (State W × Answer)) (p r : State W × Answer)
      → unless_again rest p ≡ some r
      → (r ≡ p) ⊎ (rest p.0 ≡ some r)
  returned rest (s, value n) r e = inl (grind arith)
  returned rest (s, fails x) r e = grind arith

  refused :
      (rest : State W → Option (State W × Answer)) (p : State W × Option Error)
      (r : State W × Answer)
      → unless_failed rest p ≡ some r
      → (r.0 ≡ p.0) ⊎ ((p.1 ≡ none) × (rest p.0 ≡ some r))
  refused rest (s, none) r e = inr (refl, e)
  refused rest (s, some x) r e = inl (grind arith)

  module _ (timed_wait : State W → State W × Waited)
      (keeps : (s : State W)
        → CanWait interest side fiber s
        → CanWait interest side fiber (timed_wait s).0) where
    loop-Tracks :
        (fuel : ℕ) (s : State W) (r : State W × Answer)
        → CanWait interest side fiber s
        → timeout_loop side op between can_nomem timed_wait fuel s ≡ some r
        → Tracks interest r.0
    unfolding timeout_loop
    loop-Tracks zero s r c e = absurd (cc e)
    loop-Tracks (suc fuel) s r c e =
        let k = keeps s c in
        let here : r.0 ≡ s → Tracks interest r.0 = λ p. subst (Tracks interest) (sym p) c.tracks in
        let there : r.0 ≡ (timed_wait s).0 → Tracks interest r.0 =
          λ p. subst (Tracks interest) (sym p) k.tracks in
        elim (Bool-cases s.0.error) [
          | inl broken ↦ here (grind arith)
          | inr fine ↦ elim (Bool-cases (can_nomem && is_no_memory (timed_wait s).1)) [
            | inl full ↦ there (grind arith)
            | inr enough ↦ elim (Bool-cases (is_too_late (timed_wait s).1)) [
              | inl late ↦ there (grind arith)
              | inr early ↦
                  let next = after_wait (timed_wait s).0 k in
                  elim (returned (timeout_loop side op between can_nomem timed_wait fuel)
                    (attempt side op between (timed_wait s).0) r (grind arith)) [
                      | inl now ↦ subst (λ z. Tracks interest z.0) (sym now) next.tracks
                      | inr more ↦
                          loop-Tracks fuel (attempt side op between (timed_wait s).0).0 r next more
                    ]
            ]
          ]
        ]

    -- While the descriptor's interest is changed by `fev_poller_register` only, an operation with a deadline
    -- that returns leaves epoll watching exactly the active ends of the socket, whether it succeeds or
    -- fails, if what others do during its waits, and between the store to the reason and the system call, keeps that.
    pub timeout_op-Tracks :
        (fuel : ℕ) (s : State W) (r : State W × Answer)
        → Tracks interest s
        → timeout_op side op between (poller_register epoll_ctl) can_nomem timed_wait fuel fiber s
          ≡ some r
        → Tracks interest r.0
    unfolding timeout_op
    timeout_op-Tracks fuel s r t e =
        let loop = timeout_loop side op between can_nomem timed_wait fuel in
        let act = activate side (poller_register epoll_ctl) fiber in
        let tried = attempt-Tracks interest epoll_ctl side epoll op between s calm others t in
        elim (returned (λ z. unless_failed loop (act z)) (attempt side op between s) r e) [
          | inl now ↦ subst (λ z. Tracks interest z.0) (sym now) tried
          | inr blocked ↦ elim (refused loop (act (attempt side op between s).0) r blocked) [
            | inl failed ↦ subst (Tracks interest) (sym failed) (
                activate-Tracks interest epoll_ctl side epoll fiber (attempt side op between s).0
                  tried)
            | inr (good, looped) ↦
                loop-Tracks fuel (act (attempt side op between s).0).0 r (before_wait s t good)
                  looped
          ]
        ]
