-- ===== src/StealBounded/Thief.antt =====
-- Stealing from the run queues of other workers.
use libfev.Base.{
  ℕ, zero, suc, ◌+◌, ◌≤◌, ◌<◌, ◌≡◌, ◌≢◌, ◌==◌, refl, sym, ap, ◌∙◌, true, false, Option, List, [],
  ◌∷◌, ◌++◌, length, is_empty, update, update_self, update_ne, update-all, Gives, gives, Gives-bind,
  Gives-if, Gives-weaken, arith,
}
use libfev.StealLocking.{victim}
use libfev.StealBounded.{Ops, Fallback, steal_loop, steal}
use libfev.StealBounded.Laws.{Laws, IsCounted, Stored, PoppedSome, pop_some_lem}

module _ {Q : Type 0} (IsValid : Q → Type 0) (contents : Q → List ℕ) (w : ℕ) where
  -- What stealing by the worker `w` leads to.
  pub data Stolen (queues : ℕ → Q) (fb : Fallback) : (ℕ → Q) × Fallback × ℕ → Type 0 where
    nothing :
        {queues' : ℕ → Q}
        → ((j : ℕ) → contents (queues' j) ≡ contents (queues j))
        → ((j : ℕ) → IsValid (queues' j))
        → Stolen queues fb (queues', fb, 0)
    from :
        {queues' : ℕ → Q} {fb' : Fallback} {n : ℕ} (v : ℕ) (taken rest : List ℕ)
        → v ≢ w
        → contents (queues v) ≡ (taken ++ rest) ++ contents (queues' v)
        → contents (queues' w) ≡ taken
        → fb'.queue ≡ fb.queue ++ rest
        → IsCounted fb'
        → length (taken ++ rest) ≡ n
        → 0 < n
        → ((j : ℕ) → v ≢ j → w ≢ j → contents (queues' j) ≡ contents (queues j))
        → ((j : ℕ) → IsValid (queues' j))
        → Stolen queues fb (queues', fb', n)

  -- Queues that hold the same fibers.
  Stolen-same :
      (queues queues1 : ℕ → Q) (fb : Fallback) (r : (ℕ → Q) × Fallback × ℕ)
      → ((j : ℕ) → contents (queues1 j) ≡ contents (queues j))
      → Stolen queues1 fb r
      → Stolen queues fb r
  Stolen-same queues queues1 fb _ same (nothing a b) = nothing (λ j. a j ∙ same j) b
  Stolen-same queues queues1 fb _ same (from v taken rest ne a b c d e f g h) =
      from v taken rest ne (sym (same v) ∙ a) b c d e f (λ j nv nw. g j nv nw ∙ same j) h

module _ {Q : Type 0} (ops : Ops Q) (IsValid : Q → Type 0) (contents : Q → List ℕ)
    (laws : Laws ops IsValid contents) (store : Q → Fallback → List ℕ → Option (Q × Fallback))
    (steal_count rnd num_workers w : ℕ) (fb : Fallback) (Behind : Fallback → Type 0)
    (behind : Behind fb)
    (store_law : (q : Q) (fibers : List ℕ)
      → IsValid q
      → contents q ≡ []
      → length fibers ≤ steal_count
      → Gives
          (λ s. Stored ops IsValid contents laws q fb fibers s × Behind s.1)
          (store q fb fibers)) where
  -- What stealing leads to, with the fallback queue as it must be.
  abbrev pub Ends : (ℕ → Q) → (ℕ → Q) × Fallback × ℕ → Type 0
  Ends queues r = Stolen IsValid contents w queues fb r × Behind r.1

  robbed :
      (queues : ℕ → Q) (v : ℕ) (p : List ℕ × Q)
      → v ≢ w
      → ((j : ℕ) → IsValid (queues j))
      → contents (queues w) ≡ []
      → PoppedSome ops IsValid contents laws steal_count (queues v) p
      → is_empty p.0 ≡ false
      → (s : Q × Fallback) → Stored ops IsValid contents laws (queues w) fb p.0 s
      → Stolen IsValid contents w queues fb (update (update queues v p.1) w s.0, s.1, length p.0)
  robbed queues v p ne valid idle popped some_left s t =
      let q1 = update queues v p.1 in
      from v t.taken t.rest ne
        (rw (update_ne q1 w v s.0 (λ e. ne (sym e)), update_self queues v p.1, sym t.split)
          popped.split)
        (rw (update_self q1 w s.0) (t.own ∙ ap (λ l. l ++ t.taken) idle)) t.fallback t.counted
        (ap length (sym t.split)) (pos p.0 some_left)
        (λ j nv nw. ap contents (update_ne q1 w j s.0 nw ∙ update_ne queues v j p.1 nv))
        (update-all (λ j q. IsValid q) q1 w s.0
          (λ j nw. update-all (λ k q. IsValid q) queues v p.1 (λ k nv. valid k) popped.valid j)
          t.valid)
    where
      pos : (xs : List ℕ) → is_empty xs ≡ false → 0 < length xs
      pos [] e = absurd (ground arith)
      pos (x ∷ xs) e = omega arith

  -- A victim that had no fiber.
  again :
      {next : (ℕ → Q) → Option ((ℕ → Q) × Fallback × ℕ)} (queues : ℕ → Q) (v : ℕ) (p : List ℕ × Q)
      → ((j : ℕ) → IsValid (queues j))
      → contents (queues w) ≡ []
      → PoppedSome ops IsValid contents laws steal_count (queues v) p
      → is_empty p.0 ≡ true
      → ((q : ℕ → Q) → ((j : ℕ) → IsValid (q j)) → contents (q w) ≡ [] → Gives (Ends q) (next q))
      → Gives (Ends queues) (next (update queues v p.1))
  again queues v p valid idle popped none_left next =
      let same =
        update-all (λ j q. contents q ≡ contents (queues j)) queues v p.1 (λ j ne. refl)
          (sym (popped.split ∙ ap (λ l. l ++ contents p.1) (nil p.0 none_left))) in
      Gives-weaken
        (next (update queues v p.1)
          (update-all (λ j q. IsValid q) queues v p.1 (λ j ne. valid j) popped.valid)
          (same w ∙ idle))
        (λ r (e, b). (Stolen-same IsValid contents w queues (update queues v p.1) fb r same e, b))
    where
      nil : (xs : List ℕ) → is_empty xs ≡ true → xs ≡ []
      nil [] e = refl
      nil (x ∷ xs) e = absurd (ground arith)

  steal_loop_lem :
      (count i : ℕ) (queues : ℕ → Q)
      → ((j : ℕ) → IsValid (queues j))
      → contents (queues w) ≡ []
      → Gives (Ends queues) (steal_loop ops store steal_count rnd num_workers w count i queues fb)
  unfolding steal_loop
  steal_loop_lem zero i queues valid idle = gives (nothing (λ j. refl) valid, behind)
  steal_loop_lem (suc count) i queues valid idle =
      let v = victim rnd i num_workers in
      Gives-if (v == w) (λ _. steal_loop_lem count (i + 1) queues valid idle)
        (λ other.
          let ne : v ≢ w = ground arith in
          Gives-bind (pop_some_lem ops IsValid contents laws steal_count (queues v) (valid v))
            λ p popped.
              Gives-if (is_empty p.0)
                (λ none_left.
                  again queues v p valid idle popped none_left (steal_loop_lem count (i + 1)))
                (λ some_left.
                  Gives-bind (store_law (queues w) p.0 (valid w) idle (omega (arith, popped.many)))
                    λ s (t, b). gives (robbed queues v p ne valid idle popped some_left s t, b)))

  pub thief_lem :
      (queues : ℕ → Q)
      → ((j : ℕ) → IsValid (queues j))
      → contents (queues w) ≡ []
      → Gives (Ends queues) (steal ops store steal_count rnd num_workers w queues fb)
  unfolding steal
  thief_lem queues valid idle = steal_loop_lem num_workers 0 queues valid idle
