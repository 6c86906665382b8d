-- ===== src/Stack/Moves.antt =====
-- The steps of a stack keep the invariant.
use libfev.Base.{
  ℕ, ◌+◌, ◌^◌, ◌<◌, ◌==◌, ◌≡◌, ◌≢◌, ◌⊎◌, inl, inr, refl, sym, ap, ◌∙◌, arith, true, false, Option,
  none, some, List, [], ◌∷◌, elem, update, update-all, update_self, Bool-cases, subst,
}
use libfev.Stack.{u64, Phase, idle, push_counted, push_loaded, push_linked, pop_read, System}
use libfev.Stack.Inv.{
  Chain, end, cell, node_of, Knows, nothing, at_push, has_push, linked_push, read_pop, Inv,
  Chain-kept, Knows-counted, Knows-written,
}

pub Chain-bare :
    {next : ℕ → Option ℕ} {xs : List ℕ} {top : Option ℕ} → Chain next top xs → top ≡ none → xs ≡ []
Chain-bare end e = refl
Chain-bare (cell out rest) e = absurd (ground arith)

-- A thread that moves on by itself.
pub phase-Inv :
    (s : System) (xs : List ℕ) (i : ℕ) (p : Phase)
    → Inv s xs
    → (node_of p ≡ none) ⊎ (node_of p ≡ node_of (s.phases i))
    → Knows s.top s.count s.next p
    → Inv (record s { phases = update s.phases i p }) xs
phase-Inv s xs i p v same k = record {
  chain = v.chain;
  inside = v.inside;
  given = λ j n e. v.given j n (old j n e);
  apart = λ j k n a b. v.apart j k n (old j n a) (old k n b);
  knows = update-all (λ j q. Knows s.top s.count s.next q) s.phases i p (λ j ne. v.knows j) k;
}
  where
    old : (j n : ℕ) → node_of (update s.phases i p j) ≡ some n → node_of (s.phases j) ≡ some n
    old j n =
        update-all (λ j q. node_of q ≡ some n → node_of (s.phases j) ≡ some n) s.phases i p
          (λ j ne e. e)
          (λ e. elim same [ inl z ↦ absurd (ground (arith, z, e)) | inr z ↦ sym z ∙ e ]) j

pub push-Inv :
    (s : System) (xs : List ℕ) (i n : ℕ)
    → Inv s xs
    → s.out n ≡ true
    → Inv
        (record s {
          out = update s.out n false;
          phases = update s.phases i (push_counted n s.count);
        })
        xs
push-Inv s xs i n v e = record {
  chain = v.chain;
  inside = λ x m.
      update-all (λ x b. elem x xs ≡ true → b ≡ false) s.out n false (λ x ne. v.inside x)
        (λ _. refl) x m;
  given = λ j m.
      update-all
        (λ j q. node_of q ≡ some m → (update s.out n false m ≡ false) × (elem m xs ≡ false))
        s.phases i (push_counted n s.count)
        (λ j ne f. let (o, q) = v.given j m f in (ground (arith, o), q))
        (λ f.
          let same : n ≡ m = ground (arith, f) in
          (ground (arith, same), subst (λ m. elem m xs ≡ false) same fresh))
        j;
  apart = λ j k m a b. one j k m a b;
  knows =
      update-all (λ j q. Knows s.top s.count s.next q) s.phases i (push_counted n s.count)
        (λ j ne. v.knows j) (at_push (omega arith));
}
  where
    fresh : elem n xs ≡ false
    fresh = elim (Bool-cases (elem n xs)) [
      | inl m ↦ absurd (ground (arith, e, v.inside n m))
      | inr f ↦ f
    ]

    -- the node was out, so no other push has it
    mine : (j : ℕ) → node_of (update s.phases i (push_counted n s.count) j) ≡ some n → i ≡ j
    mine =
        update-all (λ j q. node_of q ≡ some n → i ≡ j) s.phases i (push_counted n s.count)
          (λ j ne f. absurd (ground (arith, e, (v.given j n f).0))) (λ _. refl)

    other :
        (j m : ℕ)
        → n ≢ m
        → node_of (update s.phases i (push_counted n s.count) j) ≡ some m
        → node_of (s.phases j) ≡ some m
    other j m ne =
        update-all (λ j q. node_of q ≡ some m → node_of (s.phases j) ≡ some m) s.phases i
          (push_counted n s.count) (λ j _ f. f) (λ f. absurd (ground (arith, f, ne))) j

    one :
        (j k m : ℕ)
        → node_of (update s.phases i (push_counted n s.count) j) ≡ some m
        → node_of (update s.phases i (push_counted n s.count) k) ≡ some m
        → j ≡ k
    one j k m a b = elim (Bool-cases (n == m)) [
      | inl t ↦
          let same : n ≡ m = ground arith in
          sym (mine j (a ∙ ap some (sym same))) ∙ mine k (b ∙ ap some (sym same))
      | inr f ↦ v.apart j k m (other j m (ground arith) a) (other k m (ground arith) b)
    ]

Chain-first :
    {next : ℕ → Option ℕ} {xs : List ℕ} {top : Option ℕ} (x : ℕ)
    → Chain next top xs
    → top ≡ some x
    → elem x xs ≡ true
Chain-first x end e = absurd (ground arith)
Chain-first x (cell out rest) e = ground arith

pub record Top (next : ℕ → Option ℕ) (x : ℕ) (xs : List ℕ) : Type 0 where
  pub below : List ℕ
  pub split : xs ≡ x ∷ below
  pub out : elem x below ≡ false
  pub rest : Chain next (next x) below

pub Chain-Top :
    {next : ℕ → Option ℕ} {xs : List ℕ} {top : Option ℕ} (x : ℕ)
    → Chain next top xs
    → top ≡ some x
    → Top next x xs
Chain-Top x end e = absurd (ground arith)
Chain-Top {next = next} x (cell {x = y} {xs = ys} out rest) e =
    let same : y ≡ x = ground arith in
    record {
      below = ys;
      split = ap (λ z. z ∷ ys) same;
      out = subst (λ z. elem z ys ≡ false) same out;
      rest = subst (λ z. Chain next (next z) ys) same rest;
    }

module _ (s : System) (xs : List ℕ) (i : ℕ) (v : Inv s xs) where
  -- What is left of the pushes when this thread is idle.
  rested : Inv (record s { phases = update s.phases i idle }) xs
  rested = phase-Inv s xs i idle v (inl refl) nothing

  pub link-Inv :
      (n : ℕ) (t : Option ℕ) (c : ℕ)
      → s.phases i ≡ push_loaded n t c
      → Inv
          (record s { next = update s.next n t; phases = update s.phases i (push_linked n t c) })
          xs
  link-Inv n t c e =
      let mine : node_of (s.phases i) ≡ some n = ap node_of e in
      let (_, fresh) = v.given i n mine in
      let w =
        phase-Inv s xs i (push_counted n s.count) v (inr (sym mine)) (at_push (omega arith)) in
      let not_top : some n ≢ s.top = λ q. ground (arith, fresh, Chain-first n v.chain (sym q)) in
      record {
        chain = Chain-kept n t fresh v.chain;
        inside = v.inside;
        given = λ j m f. v.given j m (old j m f);
        apart = λ j k m a b. v.apart j k m (old j m a) (old k m b);
        knows =
            update-all (λ j q. Knows s.top s.count (update s.next n t) q) s.phases i
              (push_linked n t c)
              (λ j ne.
                Knows-written n t (s.phases j) not_top (λ q. ne (v.apart i j n mine (sym q)))
                  (v.knows j))
              (linked (subst (Knows s.top s.count s.next) e (v.knows i)));
      }
    where
      old :
          (j m : ℕ)
          → node_of (update s.phases i (push_linked n t c) j) ≡ some m
          → node_of (s.phases j) ≡ some m
      old j m =
          update-all (λ j q. node_of q ≡ some m → node_of (s.phases j) ≡ some m) s.phases i
            (push_linked n t c) (λ j ne f. f) (λ f. ap node_of e ∙ f) j

      linked :
          Knows s.top s.count s.next (push_loaded n t c)
          → Knows s.top s.count (update s.next n t) (push_linked n t c)
      linked (has_push le a) = linked_push le a (update_self s.next n t)

  pushed-Chain :
      (n : ℕ) (t : Option ℕ) (c : ℕ)
      → s.top ≡ t
      → elem n xs ≡ false
      → Knows s.top s.count s.next (push_linked n t c)
      → Chain s.next (some n) (n ∷ xs)
  pushed-Chain n t c top fresh (linked_push le a b) =
      cell fresh (subst (λ z. Chain s.next z xs) (top ∙ sym b) v.chain)

  pub push_swap-Inv :
      (n : ℕ) (t : Option ℕ) (c : ℕ)
      → s.phases i ≡ push_linked n t c
      → s.top ≡ t
      → Inv
          (record s { top = some n; count = s.count + 1; phases = update s.phases i idle })
          (n ∷ xs)
  push_swap-Inv n t c e top =
      let mine : node_of (s.phases i) ≡ some n = ap node_of e in
      let (gone, fresh) = v.given i n mine in
      record {
        chain = pushed-Chain n t c top fresh (subst (Knows s.top s.count s.next) e (v.knows i));
        inside = λ x m. elim (Bool-cases (x == n)) [
          | inl same ↦ subst (λ z. s.out z ≡ false) (sym (eq x n same)) gone
          | inr ne ↦ v.inside x (ground arith)
        ];
        given =
            update-all
              (λ j q. (m : ℕ) → node_of q ≡ some m → (s.out m ≡ false) × (elem m (n ∷ xs) ≡ false))
              s.phases i idle
              (λ j ne m f.
                let (o, q) = v.given j m f in
                let differ : m ≢ n = λ z. ne (v.apart i j n mine (f ∙ ap some z)) in
                (o, ground (arith, q, differ)))
              (λ m f. absurd (ground (arith, f)));
        apart = rested.apart;
        knows =
            update-all (λ j q. Knows (some n) (s.count + 1) s.next q) s.phases i idle
              (λ j ne. Knows-counted (some n) (s.phases j) (v.knows j)) nothing;
      }
    where
      eq : (x n : ℕ) → (x == n) ≡ true → x ≡ n
      eq x n e = ground arith

  pub pop_swap-Inv :
      (t : ℕ) (nx : Option ℕ)
      → (o : Top s.next t xs) → nx ≡ s.next t
      → Inv
          (record s {
            top = nx;
            count = s.count + 1;
            out = update s.out t true;
            phases = update s.phases i idle;
          })
          o.below
  pop_swap-Inv t nx o e = record {
    chain = subst (λ z. Chain s.next z o.below) (sym e) o.rest;
    inside =
        update-all (λ x b. elem x o.below ≡ true → b ≡ false) s.out t true
          (λ x ne m. v.inside x (subst (λ l. elem x l ≡ true) (sym o.split) (ground (arith, m))))
          (λ m. absurd (ground (arith, m, o.out)));
    given =
        update-all
          (λ j q.
            (m : ℕ)
            → node_of q ≡ some m
            → (update s.out t true m ≡ false) × (elem m o.below ≡ false))
          s.phases i idle
          (λ j ne m f.
            let (out, q) = v.given j m f in
            let q' : elem m (t ∷ o.below) ≡ false = subst (λ l. elem m l ≡ false) o.split q in
            (ground (arith, out, q'), ground (arith, q')))
          (λ m f. absurd (ground (arith, f)));
    apart = rested.apart;
    knows =
        update-all (λ j q. Knows nx (s.count + 1) s.next q) s.phases i idle
          (λ j ne. Knows-counted nx (s.phases j) (v.knows j)) nothing;
  }

  pub current :
      (t : ℕ) (nx : Option ℕ) (c : ℕ)
      → Knows s.top s.count s.next (pop_read t nx c)
      → s.count < c + 2 ^ 64
      → u64 s.count ≡ u64 c
      → nx ≡ s.next t
  current t nx c (read_pop le a b) timely same = b (omega arith)
