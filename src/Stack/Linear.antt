-- ===== src/Stack/Linear.antt =====
-- The threads of a stack, interleaved, keep to the abstract stack: the count keeps an exchange with a
-- node that has left and come back from succeeding.
use libfev.Base.{
  ℕ, ◌+◌, ◌^◌, ◌≤◌, ◌<◌, ◌≡◌, ◌⊎◌, inl, inr, refl, sym, ap, arith, true, Option, none, some, List,
  [], ◌∷◌, update, subst,
}
use libfev.Stack.{
  u64, Phase, idle, push_counted, push_loaded, push_linked, pop_counted, pop_loaded, pop_read,
  System, Label, silent, pushed, popped, round, round_label, Step, Reach, initial, later,
}
use libfev.Stack.Inv.{
  Chain, end, node_of, Knows, nothing, at_push, has_push, at_pop, has_pop, read_pop, Inv,
}
use libfev.Stack.Moves.{
  Chain-bare, phase-Inv, push-Inv, Chain-Top, link-Inv, push_swap-Inv, pop_swap-Inv, current,
}

-- The operations of the abstract stack.
pub data Lifo : Label → List ℕ → List ℕ → Type 0 where
  hidden : {xs ys : List ℕ} → ys ≡ xs → Lifo silent xs ys
  pushes : {xs ys : List ℕ} (x : ℕ) → ys ≡ x ∷ xs → Lifo (pushed x) xs ys
  pops : {xs ys : List ℕ} (x : ℕ) → xs ≡ x ∷ ys → Lifo (popped (some x)) xs ys
  is_bare : {xs ys : List ℕ} → xs ≡ [] → ys ≡ [] → Lifo (popped none) xs ys

-- The nodes of the stack before and after a step.
pub record Simulated (s : System) (l : Label) (t : System) : Type 0 where
  pub before : List ℕ
  pub after : List ℕ
  pub chain : Chain s.next s.top before
  pub inv : Inv t after
  pub lifo : Lifo l before after

-- The count that a thread has.
abbrev pub count_of : Phase → Option ℕ
count_of idle = none
count_of (push_counted n count) = some count
count_of (push_loaded n top count) = some count
count_of (push_linked n top count) = some count
count_of (pop_counted count) = some count
count_of (pop_loaded top count) = some count
count_of (pop_read top next count) = some count

-- No thread has slept while the count went round the 64 bits.
abbrev pub IsTimely : System → Type 0
IsTimely s = (i count : ℕ) → count_of (s.phases i) ≡ some count → s.count < count + 2 ^ 64

round-Knows :
    (s : System) (top : Option ℕ) (c : ℕ)
    → c ≤ s.count
    → top ≡ s.top
    → Knows s.top s.count s.next (round top c)
unfolding round
round-Knows s none c le e = nothing
round-Knows s (some t) c le e = has_pop le (λ _. e)

node_of-round : (top : Option ℕ) (c : ℕ) → node_of (round top c) ≡ none
unfolding round
node_of-round none c = refl
node_of-round (some t) c = refl

round-Lifo :
    (s : System) (xs : List ℕ) (top : Option ℕ)
    → top ≡ s.top
    → Inv s xs
    → Lifo (round_label top) xs xs
unfolding round_label
round-Lifo s xs none e v = is_bare (Chain-bare v.chain (sym e)) (Chain-bare v.chain (sym e))
round-Lifo s xs (some t) e v = hidden refl

module _ (s : System) (xs : List ℕ) (v : Inv s xs) where
  -- A step of one thread that leaves the stack.
  by_phase :
      (i : ℕ) (p : Phase) (l : Label)
      → (node_of p ≡ none) ⊎ (node_of p ≡ node_of (s.phases i))
      → Knows s.top s.count s.next p
      → Lifo l xs xs
      → Simulated s l (record s { phases = update s.phases i p })
  by_phase i p l same k f = record {
    before = xs;
    after = xs;
    chain = v.chain;
    inv = phase-Inv s xs i p v same k;
    lifo = f;
  }

  counted : (i count : ℕ) → s.phases i ≡ pop_counted count → count ≤ s.count
  counted i count e = bounded (subst (Knows s.top s.count s.next) e (v.knows i))
    where
      bounded : Knows s.top s.count s.next (pop_counted count) → count ≤ s.count
      bounded (at_pop le) = le

  loaded-push :
      (i n count : ℕ)
      → s.phases i ≡ push_counted n count
      → Knows s.top s.count s.next (push_loaded n s.top count)
  loaded-push i n count e = load (subst (Knows s.top s.count s.next) e (v.knows i))
    where
      load :
          Knows s.top s.count s.next (push_counted n count)
          → Knows s.top s.count s.next (push_loaded n s.top count)
      load (at_push le) = has_push le (λ _. refl)

  read-pop :
      (i t count : ℕ)
      → s.phases i ≡ pop_loaded t count
      → Knows s.top s.count s.next (pop_read t (s.next t) count)
  read-pop i t count e = load (subst (Knows s.top s.count s.next) e (v.knows i))
    where
      load :
          Knows s.top s.count s.next (pop_loaded t count)
          → Knows s.top s.count s.next (pop_read t (s.next t) count)
      load (has_pop le a) = read_pop le a (λ _. refl)

  popping :
      (i t : ℕ) (nx : Option ℕ) (count : ℕ)
      → IsTimely s
      → s.phases i ≡ pop_read t nx count
      → s.top ≡ some t
      → u64 s.count ≡ u64 count
      → Simulated s (popped (some t)) (record s {
        top = nx;
        count = s.count + 1;
        out = update s.out t true;
        phases = update s.phases i idle;
      })
  popping i t nx count timely e top same =
      let o = Chain-Top t v.chain top in
      let fresh =
        current s xs i v t nx count (subst (Knows s.top s.count s.next) e (v.knows i))
          (timely i count (ap count_of e)) same in
      record {
        before = xs;
        after = o.below;
        chain = v.chain;
        inv = pop_swap-Inv s xs i v t nx o fresh;
        lifo = pops t o.split;
      }

Step-Simulated :
    {s t : System} {l : Label} (xs : List ℕ) → Inv s xs → IsTimely s → Step s l t → Simulated s l t
Step-Simulated {s = s} xs v timely (Step.push i n e o) = record {
  before = xs;
  after = xs;
  chain = v.chain;
  inv = push-Inv s xs i n v o;
  lifo = hidden refl;
}
Step-Simulated {s = s} xs v timely (Step.push_load i n c e) =
    by_phase s xs v i (push_loaded n s.top c) silent (inr (sym (ap node_of e)))
      (loaded-push s xs v i n c e) (hidden refl)
Step-Simulated {s = s} xs v timely (Step.link i n t c e) = record {
  before = xs;
  after = xs;
  chain = v.chain;
  inv = link-Inv s xs i v n t c e;
  lifo = hidden refl;
}
Step-Simulated {s = s} xs v timely (Step.push_swap i n t c e top same) = record {
  before = xs;
  after = n ∷ xs;
  chain = v.chain;
  inv = push_swap-Inv s xs i v n t c e top;
  lifo = pushes n refl;
}
Step-Simulated {s = s} xs v timely (Step.push_again i n t c e) =
    by_phase s xs v i (push_loaded n s.top s.count) silent (inr (sym (ap node_of e)))
      (has_push (omega arith) (λ _. refl)) (hidden refl)
Step-Simulated {s = s} xs v timely (Step.pop i e) =
    by_phase s xs v i (pop_counted s.count) silent (inl refl) (at_pop (omega arith)) (hidden refl)
Step-Simulated {s = s} xs v timely (Step.pop_load i c e) =
    by_phase s xs v i (round s.top c) (round_label s.top) (inl (node_of-round s.top c))
      (round-Knows s s.top c (counted s xs v i c e) refl) (round-Lifo s xs s.top refl v)
Step-Simulated {s = s} xs v timely (Step.read_next i t c e) =
    by_phase s xs v i (pop_read t (s.next t) c) silent (inl refl) (read-pop s xs v i t c e)
      (hidden refl)
Step-Simulated {s = s} xs v timely (Step.pop_swap i t nx c e top same) =
    popping s xs v i t nx c timely e top same
Step-Simulated {s = s} xs v timely (Step.pop_again i t nx c e) =
    by_phase s xs v i (round s.top s.count) (round_label s.top) (inl (node_of-round s.top s.count))
      (round-Knows s s.top s.count (omega arith) refl) (round-Lifo s xs s.top refl v)

-- Every state of the run but the last one is timely.
abbrev pub TimelyRun : {cells : ℕ → Option ℕ} {s : System} → Reach cells s → Type 0
TimelyRun initial = 0 ≤ 0
TimelyRun (later {s} l r step) = TimelyRun r × IsTimely s

Reach-Inv :
    {cells : ℕ → Option ℕ} {s : System} (r : Reach cells s) → TimelyRun r → (xs : List ℕ) × Inv s xs
Reach-Inv initial timely = (
  [],
  record {
    chain = end;
    inside = λ x e. absurd (ground arith);
    given = λ i n e. absurd (ground arith);
    apart = λ i j n a b. absurd (ground arith);
    knows = λ i. nothing;
  },
)
Reach-Inv (later l r step) (before, now) =
    let (xs, v) = Reach-Inv r before in let m = Step-Simulated xs v now step in (m.after, m.inv)

-- With any number of threads at work on the stack at the same time, each step is an operation of the
-- abstract stack that happens at once, or does not show: a push puts its node on top, a pop takes the top
-- node off, and a pop that returns NULL has found the stack empty; afterwards the nodes are still linked
-- in this order, and no two pushes have one node. No thread may sleep while the count goes round the
-- 64 bits.
pub stack_linear :
    {cells : ℕ → Option ℕ} {s t : System} {l : Label} (r : Reach cells s)
    → TimelyRun r
    → IsTimely s
    → Step s l t
    → Simulated s l t
stack_linear r timely now step = let (xs, v) = Reach-Inv r timely in Step-Simulated xs v now step
