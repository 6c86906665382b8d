-- ===== src/Queues/Mpmc/Entries.antt =====
-- The abstract queue of src/fev_bounded_mpmc_queue.h: the entries in the order in which the pushes got
-- their positions, each with its item; a thread that has popped holds its item until its pop returns.
use libfev.Base.{
  ℕ, zero, suc, ◌+◌, ◌-◌, ◌≤◌, ◌<◌, ◌≡◌, refl, ap, ◌∙◌, arith, Option, none, some, List, [], ◌∷◌,
  ◌++◌, length, update, update_ne, update_self,
}
use libfev.Queues.Mpmc.Steps.{
  Label, silent, reserved, published, taken, returned, pop_failed, push_failed,
}

-- The push of the thread has the position; it has been published; or the pop of the thread took it.
pub data Entry : Type 0 where
  pending : (i item : ℕ) → Entry
  ready : (item : ℕ) → Entry
  gone : (i item : ℕ) → Entry

-- The entries of the `n` positions from `h` on.
abbrev pub span : (ℕ → Entry) → (h n : ℕ) → List Entry
span e h zero = []
span e h (suc n) = e h ∷ span e (h + 1) n

pub length-span : (e : ℕ → Entry) (h n : ℕ) → length (span e h n) ≡ n
length-span e h zero = refl
length-span e h (suc n) = ap suc (length-span e (h + 1) n)

pub span-append : (e : ℕ → Entry) (h m n : ℕ) → span e h (m + n) ≡ span e h m ++ span e (h + m) n
span-append e h zero n =
    let p : 0 + n ≡ n = omega arith in
    let q : h ≡ h + 0 = omega arith in ap (span e h) p ∙ ap (λ k. span e k n) q
span-append e h (suc m) n =
    let p : suc m + n ≡ suc (m + n) = omega arith in
    let q : h + 1 + m ≡ h + suc m = omega arith in
    ap (span e h) p
    ∙ ap (λ l. e h ∷ l) (span-append e (h + 1) m n)
    ∙ ap (λ k. e h ∷ span e (h + 1) m ++ span e k n) q

-- A change outside the positions does not show.
pub span-below :
    (e : ℕ → Entry) (t : ℕ) (v : Entry) (h n : ℕ) → h + n ≤ t → span (update e t v) h n ≡ span e h n
span-below e t v h zero le = refl
span-below e t v h (suc n) le =
    rw (update_ne e t h v (omega arith), span-below e t v (h + 1) n (omega arith))

pub span-above :
    (e : ℕ → Entry) (t : ℕ) (v : Entry) (h n : ℕ) → t < h → span (update e t v) h n ≡ span e h n
span-above e t v h zero lt = refl
span-above e t v h (suc n) lt =
    rw (update_ne e t h v (omega arith), span-above e t v (h + 1) n (omega arith))

-- The entries around the position `t`.
pub span-at :
    (e : ℕ → Entry) (h t n : ℕ)
    → h ≤ t
    → t < h + n
    → span e h n ≡ span e h (t - h) ++ e t ∷ span e (t + 1) (h + n - t - 1)
span-at e h t n le lt =
    let p : n ≡ t - h + suc (h + n - t - 1) = omega arith in
    let q : h + (t - h) ≡ t = omega arith in
    ap (span e h) p
    ∙ span-append e h (t - h) (suc (h + n - t - 1))
    ∙ ap (λ k. span e h (t - h) ++ span e k (suc (h + n - t - 1))) q

pub span-push :
    (e : ℕ → Entry) (h n : ℕ) (v : Entry)
    → span (update e (h + n) v) h (n + 1) ≡ span e h n ++ v ∷ []
span-push e h n v =
    span-append (update e (h + n) v) h n 1
    ∙ ap (λ l. l ++ span (update e (h + n) v) (h + n) 1) (span-below e (h + n) v h n (omega arith))
    ∙ ap (λ x. span e h n ++ x ∷ []) (update_self e (h + n) v)

pub record Abstract : Type 0 where
  pub queue : List Entry
  pub hands : ℕ → Option ℕ

-- What each step may do to a queue of at most `size` entries.
pub data Allowed (size : ℕ) (a b : Abstract) : Label → Type 0 where
  hidden : b ≡ a → Allowed size a b silent
  reserves :
      (i item : ℕ)
      → b.queue ≡ a.queue ++ pending i item ∷ []
      → length b.queue ≤ size
      → b.hands ≡ a.hands
      → Allowed size a b (reserved i item)
  publishes :
      (i item : ℕ) (before after : List Entry)
      → a.queue ≡ before ++ pending i item ∷ after
      → b.queue ≡ before ++ ready item ∷ after
      → b.hands ≡ a.hands
      → Allowed size a b (published i item)
  takes :
      (i item : ℕ)
      → a.queue ≡ ready item ∷ b.queue
      → b.hands ≡ update a.hands i (some item)
      → Allowed size a b (taken i)
  returns :
      (i item : ℕ)
      → a.hands i ≡ some item
      → b.queue ≡ a.queue
      → b.hands ≡ update a.hands i none
      → Allowed size a b (returned i item)
  finds_bare : b ≡ a → a.queue ≡ [] → Allowed size a b pop_failed
  finds_pending :
      (j item : ℕ) (rest : List Entry)
      → b ≡ a
      → a.queue ≡ pending j item ∷ rest
      → Allowed size a b pop_failed
  finds_full : b ≡ a → length a.queue ≡ size → Allowed size a b push_failed
  finds_held : (j item : ℕ) → b ≡ a → a.hands j ≡ some item → Allowed size a b push_failed
