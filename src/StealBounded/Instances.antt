-- ===== src/StealBounded/Instances.antt =====
-- The two kinds of run queues, and stealing with each.
use libfev.Base.{
  ℕ, zero, suc, ◌+◌, ◌^◌, ◌≤◌, ◌<◌, ◌≡◌, inl, inr, refl, sym, ap, ◌∙◌, Bool, true, false, some,
  List, [], ◌∷◌, ◌++◌, length, take, drop, Gives, gives, Gives-weaken, arith, ltb, Bool-cases,
}
use mathlib.Core.List.{append-nil}
use libfev.Queues.Window.{fifo_push}
use libfev.StealBounded.{Ops, Fallback, store_own, store_or_fallback, steal}
use libfev.StealBounded.Laws as RunQueue
use libfev.StealBounded.Laws.{Laws, PushedOne, IsCounted, Stored}
use libfev.StealBounded.Thief.{Stolen, thief_lem}
use libfev.Queues.Spmc
use libfev.Queues.Spmc.View as SpmcView
use libfev.Queues.Spmc.Pop.{pop_refines}
use libfev.Queues.Spmc.Push.{push_refines, push_stq_lem}
use libfev.Queues.Mpmc
use libfev.Queues.Mpmc.View as MpmcView
use libfev.Queues.Mpmc.Pop.{mpmc_pop_refines}
use libfev.Queues.Mpmc.Push.{mpmc_push_refines, mpmc_push_stq_lem}

-- `spurious` is how often each weak compare-exchange fails.
abbrev pub spmc_ops : (spurious : ℕ) → Ops Spmc.Queue
spmc_ops spurious = record {
  pop = λ q. some (Spmc.pop spurious q);
  push = λ q x. some (Spmc.push q x);
  push_stq = λ q stqh. some (Spmc.push_stq q stqh (length stqh));
}

-- A call that makes more than one push finds another queue in each.
abbrev pub mpmc_ops : (spurious : Mpmc.Queue → ℕ) → Ops Mpmc.Queue
mpmc_ops spurious = record {
  pop = λ q. Mpmc.pop (spurious q) q;
  push = λ q x. Mpmc.push (spurious q) q x;
  push_stq = Mpmc.push_stq spurious;
}

-- A test that decides between two results, read off the pair.
PushedOne-fifo :
    {Q : Type 0} (IsValid : Q → Type 0) (contents : Q → List ℕ) (size : ℕ) (q : Q) (x : ℕ)
    (r : Bool × Q)
    → (r.0, contents r.1) ≡ fifo_push size (contents q) x
    → IsValid r.1
    → PushedOne IsValid contents q x r
unfolding fifo_push
PushedOne-fifo IsValid contents size q x r e v =
    elim (Bool-cases (ltb (length (contents q)) size)) [
      | inl t ↦
          let e' : (r.0, contents r.1) ≡ (true, contents q ++ x ∷ []) = e ∙ rw t refl in
          (rw (ap (λ p. p.0) e') (ap (λ p. p.1) e'), v)
      | inr f ↦
          let e' : (r.0, contents r.1) ≡ (false, contents q) = e ∙ rw f refl in
          (rw (ap (λ p. p.0) e') (ap (λ p. p.1) e'), v)
    ]

pub mpmc_Laws :
    (spurious : Mpmc.Queue → ℕ) → Laws (mpmc_ops spurious) MpmcView.IsValid MpmcView.contents
mpmc_Laws spurious = record {
  pop_law = λ q v. mpmc_pop_refines (spurious q) q v;
  push_law = λ q x v. Gives-weaken (mpmc_push_refines (spurious q) q x v) λ r (e, w, k).
      PushedOne-fifo MpmcView.IsValid MpmcView.contents (MpmcView.capacity q) q x r e w;
  push_stq_law = λ q stqh v. Gives-weaken (mpmc_push_stq_lem spurious q stqh v) λ r b. record {
    taken = b.taken;
    split = b.split;
    appended = b.appended;
    counted = b.counted ∙ omega arith;
    valid = b.valid;
  };
}

take-all : (xs : List ℕ) → take (length xs) xs ≡ xs
take-all [] = refl
take-all (x ∷ xs) = ap (λ l. x ∷ l) (take-all xs)

drop-all : (xs : List ℕ) → drop (length xs) xs ≡ []
drop-all [] = refl
drop-all (x ∷ xs) = drop-all xs

take-drop : (n : ℕ) (xs : List ℕ) → xs ≡ take n xs ++ drop n xs
take-drop zero xs = refl
take-drop (suc n) [] = refl
take-drop (suc n) (x ∷ xs) = ap (λ l. x ∷ l) (take-drop n xs)

length-take : (n : ℕ) (xs : List ℕ) → n ≤ length xs → length (take n xs) ≡ n
length-take zero xs le = refl
length-take (suc n) [] le = absurd (omega arith)
length-take (suc n) (x ∷ xs) le = omega (arith, length-take n xs (omega arith))

pop-capacity : (n : ℕ) (q : Spmc.Queue) → SpmcView.capacity (Spmc.pop n q).1 ≡ SpmcView.capacity q
unfolding Spmc.pop
pop-capacity zero q = ground arith
pop-capacity (suc n) q = ground (arith, pop-capacity n q)

push-capacity : (q : Spmc.Queue) (x : ℕ) → SpmcView.capacity (Spmc.push q x).1 ≡ SpmcView.capacity q
unfolding Spmc.push
push-capacity q x = ground arith

push_loop-capacity :
    (n : ℕ) (q : Spmc.Queue) (xs : List ℕ)
    → SpmcView.capacity (Spmc.push_loop n q xs).0 ≡ SpmcView.capacity q
unfolding Spmc.push_loop
push_loop-capacity zero q xs = refl
push_loop-capacity (suc n) q [] = refl
push_loop-capacity (suc n) q (x ∷ xs) = push_loop-capacity n _ xs

push_stq-capacity :
    (q : Spmc.Queue) (xs : List ℕ) (n : ℕ)
    → SpmcView.capacity (Spmc.push_stq q xs n).0 ≡ SpmcView.capacity q
unfolding Spmc.push_stq
push_stq-capacity q xs n = push_loop-capacity _ q xs

-- A valid queue of the capacity that the scheduler gives it.
abbrev pub IsOf : (size : ℕ) → Spmc.Queue → Type 0
IsOf size q = SpmcView.IsValid q × (SpmcView.capacity q ≡ size)

pub spmc_Laws : (spurious size : ℕ) → Laws (spmc_ops spurious) (IsOf size) SpmcView.contents
spmc_Laws spurious size = record {
  pop_law = λ q (v, k).
      let (e, w) = pop_refines spurious q v in gives (e, (w, pop-capacity spurious q ∙ k));
  push_law = λ q x (v, k).
      let (e, w) = push_refines q x v in
      gives (
        PushedOne-fifo (IsOf size) SpmcView.contents (SpmcView.capacity q) q x (Spmc.push q x) e
          (w, push-capacity q x ∙ k));
  push_stq_law = λ q stqh (v, k).
      let m = (Spmc.push_stq q stqh (length stqh)).2 in
      let (n, e, r, w) = push_stq_lem q stqh v in
      gives (record {
        taken = take m stqh;
        split = take-drop m stqh ∙ ap (λ l. take m stqh ++ l) (sym r);
        appended = e;
        counted = sym (length-take m stqh (omega (arith, n)));
        valid = (w, push_stq-capacity q stqh (length stqh) ∙ k);
      });
}

-- Stealing by `fev_sched_steal` with bounded MPMC queues ends, however often the compare-exchanges
-- fail. Either no queue has changed its fibers; or the thief, whose queue was empty, and the fallback
-- queue behind it got the first fibers of one victim, in order, and the victim keeps the others; no
-- other queue changes, and the fallback queue's length counts its fibers.
pub mpmc_steal_lem :
    (spurious : Mpmc.Queue → ℕ) (steal_count rnd num_workers w : ℕ) (queues : ℕ → Mpmc.Queue)
    (fb : Fallback)
    → ((j : ℕ) → MpmcView.IsValid (queues j))
    → MpmcView.contents (queues w) ≡ []
    → IsCounted fb
    → length fb.queue + steal_count < 2 ^ 32
    → Gives (Stolen MpmcView.IsValid MpmcView.contents w queues fb) (
        steal
          (mpmc_ops spurious)
          (store_or_fallback (mpmc_ops spurious))
          steal_count
          rnd
          num_workers
          w
          queues
          fb)
unfolding store_or_fallback
mpmc_steal_lem spurious steal_count rnd num_workers w queues fb valid idle counted fits =
    Gives-weaken
      (thief_lem (mpmc_ops spurious) MpmcView.IsValid MpmcView.contents (mpmc_Laws spurious)
        (store_or_fallback (mpmc_ops spurious)) steal_count rnd num_workers w fb (λ b. Unit) tt
        (λ q fibers v e le.
          Gives-weaken
            (RunQueue.push_stq_lem (mpmc_ops spurious) MpmcView.IsValid MpmcView.contents
              (mpmc_Laws spurious) q fb fibers v counted (omega arith))
            (λ s t. (t, tt)))
        queues valid idle)
      (λ r e. e.0)

-- An empty queue takes all the fibers, if it has the capacity: the assertion of `fev_sched_steal`.
pub spmc_takes_all :
    (q : Spmc.Queue) (fibers : List ℕ)
    → SpmcView.IsValid q
    → SpmcView.contents q ≡ []
    → length fibers ≤ SpmcView.capacity q
    → (Spmc.push_stq q fibers (length fibers)).2 ≡ length fibers
spmc_takes_all q fibers v idle le =
    let (n, e, r, w) = push_stq_lem q fibers v in omega (arith, n, ap length idle)

store_own_lem :
    (spurious size : ℕ) (q : Spmc.Queue) (fb : Fallback) (fibers : List ℕ)
    → IsOf size q
    → SpmcView.contents q ≡ []
    → length fibers ≤ size
    → IsCounted fb
    → Gives
        (λ s.
          Stored
            (spmc_ops spurious)
            (IsOf size)
            SpmcView.contents
            (spmc_Laws spurious size)
            q
            fb
            fibers
            s
          × (s.1 ≡ fb))
        (store_own (spmc_ops spurious) q fb fibers)
unfolding store_own
store_own_lem spurious size q fb fibers (v, k) idle le counted =
    let (n, e, r, w) = push_stq_lem q fibers v in
    let all = spmc_takes_all q fibers v idle (omega arith) in
    gives (
      record {
        taken = fibers;
        rest = [];
        split = sym (append-nil fibers);
        own =
            e ∙ ap (λ l. SpmcView.contents q ++ l) (ap (λ m. take m fibers) all ∙ take-all fibers);
        fallback = sym (append-nil fb.queue);
        counted = counted;
        valid = (w, push_stq-capacity q fibers (length fibers) ∙ k);
      },
      refl,
    )

-- Stealing by `fev_sched_steal` with bounded SPMC queues of a capacity of at least `steal_count` ends.
-- Either no queue has changed its fibers; or the thief, whose queue was empty, got the first fibers of
-- one victim, in order, into its own queue, and the victim keeps the others; no other queue changes its
-- fibers, and the fallback queue is as it was.
pub spmc_steal_lem :
    (spurious size steal_count rnd num_workers w : ℕ) (queues : ℕ → Spmc.Queue) (fb : Fallback)
    → ((j : ℕ) → IsOf size (queues j))
    → SpmcView.contents (queues w) ≡ []
    → IsCounted fb
    → steal_count ≤ size
    → Gives
        (λ r. Stolen (IsOf size) SpmcView.contents w queues fb r × (r.1 ≡ fb))
        (steal
          (spmc_ops spurious)
          (store_own (spmc_ops spurious))
          steal_count
          rnd
          num_workers
          w
          queues
          fb)
spmc_steal_lem spurious size steal_count rnd num_workers w queues fb valid idle counted fits =
    thief_lem (spmc_ops spurious) (IsOf size) SpmcView.contents (spmc_Laws spurious size)
      (store_own (spmc_ops spurious)) steal_count rnd num_workers w fb (λ b. b ≡ fb) refl
      (λ q fibers v e le. store_own_lem spurious size q fb fibers v e (omega arith) counted) queues
      valid idle
