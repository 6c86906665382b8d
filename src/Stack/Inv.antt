-- ===== src/Stack/Inv.antt =====
-- What holds of a stack in every reachable state.
use libfev.Base.{
  ℕ, ◌+◌, ◌≤◌, ◌≡◌, ◌≢◌, sym, ap, ◌∙◌, arith, true, false, Option, none, some, List, [], ◌∷◌, elem,
  update, update_ne, subst,
}
use libfev.Stack.{
  Phase, idle, push_counted, push_loaded, push_linked, pop_counted, pop_loaded, pop_read, System,
}

-- The nodes from `top` on.
pub data Chain (next : ℕ → Option ℕ) : Option ℕ → List ℕ → Type 0 where
  end : Chain next none []
  cell :
      {x : ℕ} {xs : List ℕ}
      → elem x xs ≡ false
      → Chain next (next x) xs
      → Chain next (some x) (x ∷ xs)

-- The node that a push has.
abbrev pub node_of : Phase → Option ℕ
node_of (push_counted node count) = some node
node_of (push_loaded node top count) = some node
node_of (push_linked node top count) = some node
node_of _ = none

-- What a thread knows while the count is the one that it loaded.
pub data Knows (top : Option ℕ) (count : ℕ) (next : ℕ → Option ℕ) : Phase → Type 0 where
  nothing : Knows top count next idle
  at_push : {n c : ℕ} → c ≤ count → Knows top count next (push_counted n c)
  has_push :
      {n c : ℕ} {t : Option ℕ}
      → c ≤ count
      → (c ≡ count → t ≡ top)
      → Knows top count next (push_loaded n t c)
  linked_push :
      {n c : ℕ} {t : Option ℕ}
      → c ≤ count
      → (c ≡ count → t ≡ top)
      → next n ≡ t
      → Knows top count next (push_linked n t c)
  at_pop : {c : ℕ} → c ≤ count → Knows top count next (pop_counted c)
  has_pop :
      {t c : ℕ} → c ≤ count → (c ≡ count → some t ≡ top) → Knows top count next (pop_loaded t c)
  read_pop :
      {t c : ℕ} {n : Option ℕ}
      → c ≤ count
      → (c ≡ count → some t ≡ top)
      → (c ≡ count → n ≡ next t)
      → Knows top count next (pop_read t n c)

pub record Inv (s : System) (xs : List ℕ) : Type 0 where
  pub chain : Chain s.next s.top xs
  pub inside : (x : ℕ) → elem x xs ≡ true → s.out x ≡ false
  pub given : (i n : ℕ) → node_of (s.phases i) ≡ some n → (s.out n ≡ false) × (elem n xs ≡ false)
  pub apart : (i j n : ℕ) → node_of (s.phases i) ≡ some n → node_of (s.phases j) ≡ some n → i ≡ j
  pub knows : (i : ℕ) → Knows s.top s.count s.next (s.phases i)

-- A write to a node that is not on the stack.
pub Chain-kept :
    {next : ℕ → Option ℕ} {top : Option ℕ} {xs : List ℕ} (n : ℕ) (v : Option ℕ)
    → elem n xs ≡ false
    → Chain next top xs
    → Chain (update next n v) top xs
Chain-kept n v e end = end
Chain-kept {next = next} n v e (cell {x} {xs} out rest) =
    let ne : n ≢ x = ground arith in
    cell out (
      subst (λ t. Chain (update next n v) t xs) (sym (update_ne next n x v ne))
        (Chain-kept n v (ground arith) rest))

-- When a successful exchange counts on, nothing is left to know.
pub Knows-counted :
    {top : Option ℕ} {count : ℕ} {next : ℕ → Option ℕ} (top' : Option ℕ) (p : Phase)
    → Knows top count next p
    → Knows top' (count + 1) next p
Knows-counted top' _ nothing = nothing
Knows-counted top' _ (at_push le) = at_push (omega arith)
Knows-counted top' _ (has_push le a) = has_push (omega arith) (λ e. absurd (omega arith))
Knows-counted top' _ (linked_push le a b) = linked_push (omega arith) (λ e. absurd (omega arith)) b
Knows-counted top' _ (at_pop le) = at_pop (omega arith)
Knows-counted top' _ (has_pop le a) = has_pop (omega arith) (λ e. absurd (omega arith))
Knows-counted top' _ (read_pop le a b) =
    read_pop (omega arith) (λ e. absurd (omega arith)) (λ e. absurd (omega arith))

-- A write to a node that is neither on the top nor given to this thread.
pub Knows-written :
    {top : Option ℕ} {count : ℕ} {next : ℕ → Option ℕ} (n : ℕ) (v : Option ℕ) (p : Phase)
    → some n ≢ top
    → some n ≢ node_of p
    → Knows top count next p
    → Knows top count (update next n v) p
Knows-written n v _ a b nothing = nothing
Knows-written n v _ a b (at_push le) = at_push le
Knows-written n v _ a b (has_push le e) = has_push le e
Knows-written {next = next} n v _ a b (linked_push {n = m} le e f) =
    linked_push le e (update_ne next n m v (λ q. b (ap some q)) ∙ f)
Knows-written n v _ a b (at_pop le) = at_pop le
Knows-written n v _ a b (has_pop le e) = has_pop le e
Knows-written {next = next} n v _ a b (read_pop {t} le e f) =
    read_pop le e (λ q. f q ∙ sym (update_ne next n t v (λ z. a (ap some z ∙ e q))))
