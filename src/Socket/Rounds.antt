-- ===== src/Socket/Rounds.antt =====
-- src/fev_socket_reactor.c: how the loops of the operations end.
use libfev.Base.{
  ℕ, zero, suc, ℤ, ◌<◌, ◌≤◌, ap, ◌≡◌, refl, arith, Bool, true, false, ◌&&◌, ◌⊎◌, inl, inr,
  if◌then◌else◌, Option, none, some, Bool-cases,
}
use libfev.Socket.{Error, nomem, timedout, connreset, is_again, Answer, value, fails, Socket}
use libfev.Socket.Ops.{
  Side, Waited, woken, too_late, is_no_memory, is_too_late, State, attempt, registered, with_end,
  end_of, unless_again, socket_loop, timeout_loop, activate, unless_failed, socket_op, timeout_op,
}

module _ {W : Type 0} (f g : State W → Option (State W × Answer)) where
  pub unless_again-ap : (r : State W × Answer) → f r.0 ≡ g r.0 → unless_again f r ≡ unless_again g r
  unless_again-ap (s, value n) h = refl
  unless_again-ap (s, fails e) h = rw (h) refl

  pub unless_failed-ap :
      (r : State W × Option Error)
      → (r.1 ≡ none → f r.0 ≡ g r.0)
      → unless_failed f r ≡ unless_failed g r
  unless_failed-ap (s, none) h = h refl
  unless_failed-ap (s, some e) h = refl

-- The operation has returned, with a value or with an error other than EAGAIN.
pub data Ends {W : Type 0} : Option (State W × Answer) → Type 0 where
  succeeds : (s : State W) (n : ℕ) → Ends (some (s, value n))
  gives_up : (s : State W) (e : Error) → is_again e ≡ false → Ends (some (s, fails e))

if-Ends :
    {W : Type 0} (test : Bool) {x y : Option (State W × Answer)}
    → (test ≡ true → Ends x)
    → (test ≡ false → Ends y)
    → Ends (if test then x else y)
if-Ends true h k = h refl
if-Ends false h k = k refl

module _ {W : Type 0} (rest : State W → Option (State W × Answer)) where
  unless_again-Ends : (r : State W × Answer) → Ends (rest r.0) → Ends (unless_again rest r)
  unless_again-Ends (s, value n) h = succeeds s n
  unless_again-Ends (s, fails e) h = elim (Bool-cases (is_again e)) [
    | inl blocked ↦ rw (blocked) h
    | inr final ↦ rw (final) (gives_up s e final)
  ]

  unless_failed-Ends :
      (r : State W × Option Error)
      → ((e : Error) → r.1 ≡ some e → is_again e ≡ false)
      → Ends (rest r.0)
      → Ends (unless_failed rest r)
  unless_failed-Ends (s, none) final h = h
  unless_failed-Ends (s, some e) final h = gives_up s e (final e refl)

module _ {W : Type 0} (side : Side) (register : Socket → Side → W → W × Option Error)
    (final : (socket : Socket) (w : W) (e : Error)
      → (register socket side w).1 ≡ some e
      → is_again e ≡ false) where
  registered-fails :
      (socket : Socket) (r : W × Option Error) (e : Error)
      → (registered side register socket r).1 ≡ some e
      → r.1 ≡ some e
  registered-fails socket (w, none) e p = absurd (cc p)
  registered-fails socket (w, some x) e p = p

  activate-fails :
      (fiber : ℕ) (s : State W) (e : Error)
      → (activate side register fiber s).1 ≡ some e
      → is_again e ≡ false
  unfolding activate
  activate-fails fiber (socket, w) e p =
      let named = with_end side socket (record (end_of side socket) { fiber = fiber }) in
      elim (Bool-cases (end_of side named).active) [
        | inl on ↦ absurd (grind arith)
        | inr off ↦ final named w e (registered-fails named (register named side w) e (grind arith))
      ]

  module _ (op : ℤ → W → W × Answer) (between : State W → State W) (can_nomem : Bool)
      (timed_wait : State W → State W × Waited) (left : State W → ℕ)
      (steady : (s : State W) → left (attempt side op between s).0 ≤ left s)
      (passes : (s : State W)
        → ((timed_wait s).1 ≡ too_late) ⊎ (left (timed_wait s).0 < left s)) where
    loop_ends :
        (fuel : ℕ) (s : State W)
        → left s < fuel
        → Ends (timeout_loop side op between can_nomem timed_wait fuel s)
    unfolding timeout_loop
    loop_ends zero s lt = absurd (omega arith)
    loop_ends (suc fuel) s lt =
        let s' = (timed_wait s).0 in
        if-Ends s.0.error (λ broken. gives_up s connreset refl)
          (λ fine.
            if-Ends (can_nomem && is_no_memory (timed_wait s).1) (λ full. gives_up s' nomem refl)
              (λ enough.
                if-Ends (is_too_late (timed_wait s).1) (λ late. gives_up s' timedout refl)
                  (λ early. elim (passes s) [
                    | inl late ↦ absurd (ground (arith, ap is_too_late late, early))
                    | inr sooner ↦
                        unless_again-Ends (timeout_loop side op between can_nomem timed_wait fuel)
                          (attempt side op between s')
                          (loop_ends fuel (attempt side op between s').0 (omega (arith, steady s')))
                  ])))

    -- An operation with a deadline returns, with a value or an error other than EAGAIN, if its fuel is greater than
    -- `left` of the state that it first waits in. It is supposed that `left`, the wake-ups that can still come
    -- before the deadline, falls with each wait that does not answer ETIMEDOUT, that a try does not raise
    -- it, and that a registration does not fail with EAGAIN.
    pub timeout_op_returns :
        (fuel fiber : ℕ) (s : State W)
        → left (activate side register fiber (attempt side op between s).0).0 < fuel
        → Ends (timeout_op side op between register can_nomem timed_wait fuel fiber s)
    unfolding timeout_op
    timeout_op_returns fuel fiber s lt =
        let loop = timeout_loop side op between can_nomem timed_wait fuel in
        let s' = (attempt side op between s).0 in
        unless_again-Ends (λ z. unless_failed loop (activate side register fiber z))
          (attempt side op between s)
          (unless_failed-Ends loop (activate side register fiber s') (activate-fails fiber s')
            (loop_ends fuel (activate side register fiber s').0 lt))

module _ {W : Type 0} (side : Side) (op : ℤ → W → W × Answer)
    (between wait : State W → State W) where
  loop-same :
      (fuel : ℕ) (s : State W)
      → socket_loop side op between wait fuel s
        ≡ timeout_loop side op between true (λ z. (wait z, woken)) fuel s
  unfolding socket_loop timeout_loop
  loop-same zero s = refl
  loop-same (suc fuel) s =
      let next = loop-same fuel (attempt side op between (wait s)).0 in grind arith

  -- An operation without a deadline is one with a deadline that never comes.
  pub socket_op-timeout_op :
      (register : Socket → Side → W → W × Option Error) (fuel fiber : ℕ) (s : State W)
      → socket_op side op between register wait fuel fiber s
        ≡ timeout_op side op between register true (λ z. (wait z, woken)) fuel fiber s
  unfolding socket_op timeout_op
  socket_op-timeout_op register fuel fiber s =
      let loop = socket_loop side op between wait fuel in
      let loop' = timeout_loop side op between true (λ z. (wait z, woken)) fuel in
      unless_again-ap (λ s'. unless_failed loop (activate side register fiber s'))
        (λ s'. unless_failed loop' (activate side register fiber s')) (attempt side op between s)
        (unless_failed-ap loop loop' (activate side register fiber (attempt side op between s).0)
          (λ e. loop-same fuel (activate side register fiber (attempt side op between s).0).0))
