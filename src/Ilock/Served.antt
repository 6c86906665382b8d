-- ===== src/Ilock/Served.antt =====
-- A fiber that waits for an internal lock can be served: the other fibers only have to go on.
use libfev.Base.{
  ℕ, ◌==◌, ◌≡◌, ◌≢◌, ◌⊎◌, inl, inr, refl, sym, ap, ◌∙◌, arith, if◌then◌else◌, true, false, none,
  List, [], ◌∷◌, is_empty, update, update_ne, update_self, Bool-cases, subst,
}
use libfev.Ilock.{
  Phase, idle, waiting, handed, holding, unlock_slow, System, Step, Reach, later, unlock_fast,
  unlock_waiters, resumed,
}
use libfev.Ilock.Inv.{owns, is_inside, fits, count, outside}
use libfev.Ilock.Safety.{Reach-Inv, ilock_hands_over}
use libfev.Ilock.Inner.{Run, done, more, join, Run-Reach, Calm, calm}

module _ (j : ℕ) where
  -- A step of fiber `o` that touches its phase, and maybe the state word.
  moved-waits :
      (s : System) (o : ℕ) (p : Phase)
      → s.phases j ≡ waiting
      → owns (s.phases o) ≡ true
      → update s.phases o p j ≡ waiting
  moved-waits s o p w own = update_ne s.phases o j p (λ q. ground (arith, q, own, w)) ∙ w

  -- The owner `o` is calmly in the slow path of its unlock.
  abbrev Slow : (o : ℕ) → System → Type 0
  Slow o s = (t : System) × Calm j s t × (t.phases o ≡ unlock_slow)

  from_holding :
      (s : System) (o : ℕ)
      → Reach s
      → s.phases j ≡ waiting
      → is_empty s.waiters ≡ false
      → s.section ≡ none
      → s.phases o ≡ holding
      → Slow o s
  unfolding unlock_fast
  from_holding s o r w some_wait out e =
      let f : fits holding s.state (is_empty s.waiters) ≡ true =
        subst (λ p. fits p s.state (is_empty s.waiters) ≡ true) e ((Reach-Inv r).fit o) in
      let not_one : (s.state == 1) ≡ false = ground (arith, f, some_wait) in
      (
        record s {
          state = (unlock_fast s.state).1;
          phases = update s.phases o (if (unlock_fast s.state).0 then idle else unlock_slow);
        },
        record {
          run = more done (Step.unlock o e) refl;
          out = out;
          list = refl;
          waits = moved-waits s o _ w (ap owns e);
        },
        update_self s.phases o _ ∙ rw not_one refl,
      )

  chain : (o : ℕ) (s t : System) → Calm j s t → Slow o t → Slow o s
  chain o s t c (u, d, e) = (
    u,
    record { run = join c.run d.run; out = d.out; list = d.list ∙ c.list; waits = d.waits },
    e,
  )

  from_handed :
      (s : System) (o : ℕ)
      → Reach s
      → s.phases j ≡ waiting
      → is_empty s.waiters ≡ false
      → s.section ≡ none
      → s.phases o ≡ handed
      → Slow o s
  unfolding resumed
  from_handed s o r w some_wait out e =
      let t = record s { phases = update s.phases o (resumed s.state) } in
      let nz : (s.state == 0) ≡ false = ground (arith, e, (Reach-Inv r).fit o) in
      let at : t.phases o ≡ holding = update_self s.phases o _ ∙ rw nz refl in
      let waits : t.phases j ≡ waiting = moved-waits s o (resumed s.state) w (ap owns e) in
      chain o s t
        (record { run = more done (Step.resume o e) refl; out = out; list = refl; waits = waits })
        (from_holding t o (later r (Step.resume o e)) waits some_wait out at)

  owner-cases :
      (p : Phase)
      → owns p ≡ true
      → is_inside p ≡ false
      → (p ≡ handed) ⊎ ((p ≡ holding) ⊎ (p ≡ unlock_slow))
  owner-cases p e f = ground arith

  from_owner :
      (s : System) (o : ℕ)
      → Reach s
      → s.phases j ≡ waiting
      → is_empty s.waiters ≡ false
      → s.section ≡ none
      → owns (s.phases o) ≡ true
      → Slow o s
  from_owner s o r w some_wait out own =
      elim (owner-cases (s.phases o) own (outside s o (Reach-Inv r) out o)) [
        | inl e ↦ from_handed s o r w some_wait out e
        | inr (inl e) ↦ from_holding s o r w some_wait out e
        | inr (inr e) ↦ (s, record { run = done; out = out; list = refl; waits = w }, e)
      ]

  to_slow :
      (s : System)
      → Reach s
      → s.phases j ≡ waiting
      → is_empty s.waiters ≡ false
      → (o : ℕ) × Slow o s
  to_slow s r w some_wait =
      let (t, c) = calm j s s.section refl r w some_wait in
      let some_wait' : is_empty t.waiters ≡ false = ap is_empty c.list ∙ some_wait in
      let r' = Run-Reach r c.run in
      elim (Reach-Inv r').held [
        | inl (z, e) ↦ absurd (ground (arith, ap is_empty e, some_wait'))
        | inr (o, own) ↦ (o, chain o s t c (from_owner t o r' c.waits some_wait' c.out own))
      ]

  -- After the next unlock: the list is one shorter, and its first fiber has the lock.
  record Round (x : ℕ) (xs : List ℕ) (s t : System) : Type 0 where
    run : Run s t
    list : t.waiters ≡ xs
    first : t.phases x ≡ handed
    stays : x ≢ j → t.phases j ≡ waiting

  round :
      (s : System) (x : ℕ) (xs : List ℕ)
      → Reach s
      → s.phases j ≡ waiting
      → s.waiters ≡ x ∷ xs
      → (t : System) × Round x xs s t
  round s x xs r w e =
      let (o, (t, c, slow)) = to_slow s r w (ap is_empty e) in
      let h = ilock_hands_over (Run-Reach r c.run) o slow c.out in
      let same : h.fiber ∷ h.rest ≡ x ∷ xs = sym h.first ∙ c.list ∙ e in
      let same_head : h.fiber ≡ x = ground (arith, same) in
      (
        unlock_waiters o t,
        record {
          run = more c.run (Step.unlock_next o slow c.out) refl;
          list = h.left ∙ ground (arith, same);
          first = subst (λ q. (unlock_waiters o t).phases q ≡ handed) same_head h.handed_to;
          stays = λ ne.
              h.others j (λ q. ground (arith, q, slow, c.waits)) (λ q. ne (sym same_head ∙ q))
              ∙ c.waits;
        },
      )

  serve :
      (xs : List ℕ) (s : System)
      → Reach s
      → s.phases j ≡ waiting
      → s.waiters ≡ xs
      → (t : System) × Run s t × (t.phases j ≡ holding)
  unfolding resumed
  serve [] s r w e = absurd (ground (arith, (Reach-Inv r).counted j, w, ap (count j) e))
  serve (x ∷ xs) s r w e =
      let (t, d) = round s x xs r w e in
      let r' = Run-Reach r d.run in
      elim (Bool-cases (x == j)) [
        | inl same ↦
            let here : t.phases j ≡ handed = ground (arith, same, d.first) in
            let nz : (t.state == 0) ≡ false = ground (arith, here, (Reach-Inv r').fit j) in
            (
              record t { phases = update t.phases j (resumed t.state) },
              more d.run (Step.resume j here) refl,
              update_self t.phases j _ ∙ rw nz refl,
            )
        | inr ne ↦
            let (u, q, h) = serve xs t r' (d.stays (ground (arith, ne))) d.list in
            (u, join d.run q, h)
      ]

-- From every reachable state in which a fiber waits for the internal lock, some steps of the fibers that
-- hold the lock, hand it over or wait for it already lead to a state in which it has the lock. No fiber has to
-- come for the lock in between: a waiter does not depend on later contention to be woken up.
pub ilock_serves :
    {s : System}
    → Reach s
    → (j : ℕ) → s.phases j ≡ waiting
    → (t : System) × Run s t × (t.phases j ≡ holding)
ilock_serves {s = s} r j w = serve j s.waiters s r w refl
