-- ===== src/Timers/Heap/Links.antt =====
-- The links between the slots of the heap and the `index` fields of the timers, and the moves that
-- keep them.
use libfev.Base.{
  ℕ, ◌≤◌, ◌<◌, ◌≡◌, ◌≢◌, ◌↔◌, ◌⊎◌, refl, ◌∙◌, inl, inr, arith, update, leb, ltb, is_nonpos, is_neg,
}
use native.Mathlib.Decide.{ℕ_discrete}
use libfev.Time.{IsValid}
use libfev.Time.Laws.{ns, is_nonpos-cmp, is_neg-cmp}
use libfev.Timers.{Mem, put, timers_cmp}

abbrev pub index : Mem → ℕ → ℕ
index m x = (m.timers x).index

abbrev pub key : Mem → ℕ → ℕ
key m x = ns (m.timers x).abs_time

-- the key of the timer in each slot
abbrev pub keys : Mem → ℕ → ℕ
keys m i = key m (m.heap i)

-- Every timer holds a valid time.
abbrev pub HasTimes : Mem → Type 0
HasTimes m = (x : ℕ) → IsValid (m.timers x).abs_time

-- The timer in each slot below `n`, but for the hole `h`, knows its slot.
abbrev pub IsLinked : Mem → ℕ → ℕ → Type 0
IsLinked m n h = (i : ℕ) → i < n → i ≢ h → index m (m.heap i) ≡ i

-- The timer `x` stands in a slot below `n` other than `h`.
abbrev pub Holds : Mem → ℕ → ℕ → ℕ → Type 0
Holds m n h x = (index m x < n) × (index m x ≢ h) × (m.heap (index m x) ≡ x)

module _ (m : Mem) (i t : ℕ) where
  pub heap-put : (j : ℕ) → (put m i t).heap j ≡ update m.heap i t j
  unfolding put
  heap-put j = refl

  pub index-put : (x : ℕ) → index (put m i t) x ≡ update (index m) t i x
  unfolding put
  index-put x = ground arith

  pub abs_time-put : (x : ℕ) → ((put m i t).timers x).abs_time ≡ (m.timers x).abs_time
  unfolding put
  abs_time-put x = ground arith

  pub waiter-put : (x : ℕ) → ((put m i t).timers x).waiter ≡ (m.timers x).waiter
  unfolding put
  waiter-put x = ground arith

pub keys-put : (m : Mem) (i t j : ℕ) → keys (put m i t) j ≡ update (keys m) i (key m t) j
keys-put m i t j =
    ground (arith, heap-put m i t j, abs_time-put m i t t, abs_time-put m i t (m.heap j))

pub is_nonpos-timers_cmp :
    (m : Mem) (x y : ℕ) → HasTimes m → is_nonpos (timers_cmp m x y) ≡ leb (key m x) (key m y)
unfolding timers_cmp
is_nonpos-timers_cmp m x y v = is_nonpos-cmp _ _ (v x) (v y)

pub is_neg-timers_cmp :
    (m : Mem) (x y : ℕ) → HasTimes m → is_neg (timers_cmp m x y) ≡ ltb (key m x) (key m y)
unfolding timers_cmp
is_neg-timers_cmp m x y v = is_neg-cmp _ _ (v x) (v y)

-- What the functions leave alone: the times and waiters of all timers, the slots from `n` on, and
-- the index of the timers that do not stand below `n`.
pub record Kept (n h t : ℕ) (m m' : Mem) : Type 0 where
  pub abs_time : (x : ℕ) → (m'.timers x).abs_time ≡ (m.timers x).abs_time
  pub waiter : (x : ℕ) → (m'.timers x).waiter ≡ (m.timers x).waiter
  pub slots : (i : ℕ) → n ≤ i → m'.heap i ≡ m.heap i
  pub others : (x : ℕ) → x ≢ t → ¬ Holds m n h x → index m' x ≡ index m x

-- From the hole `h` to the hole `h'`, the same timers stand below `n`, and know their slots.
pub record Moved (n h h' : ℕ) (m m' : Mem) : Type 0 where
  pub linked : IsLinked m' n h'
  pub same : (x : ℕ) → Holds m n h x ↔ Holds m' n h' x
  pub abs_time : (x : ℕ) → (m'.timers x).abs_time ≡ (m.timers x).abs_time
  pub waiter : (x : ℕ) → (m'.timers x).waiter ≡ (m.timers x).waiter
  pub slots : (i : ℕ) → n ≤ i → m'.heap i ≡ m.heap i
  pub others : (x : ℕ) → ¬ Holds m n h x → index m' x ≡ index m x

pub Moved-refl : (n h : ℕ) (m : Mem) → IsLinked m n h → Moved n h h m m
Moved-refl n h m l = record {
  linked = l;
  same = λ x. (λ a. a, λ a. a);
  abs_time = λ x. refl;
  waiter = λ x. refl;
  slots = λ i p. refl;
  others = λ x p. refl;
}

pub Moved-trans :
    {n h h' h'' : ℕ} {m m' m'' : Mem}
    → Moved n h h' m m'
    → Moved n h' h'' m' m''
    → Moved n h h'' m m''
Moved-trans a b = record {
  linked = b.linked;
  same = λ x. (λ p. (b.same x).0 ((a.same x).0 p), λ p. (a.same x).1 ((b.same x).1 p));
  abs_time = λ x. b.abs_time x ∙ a.abs_time x;
  waiter = λ x. b.waiter x ∙ a.waiter x;
  slots = λ i p. b.slots i p ∙ a.slots i p;
  others = λ x p. b.others x (λ q. p ((a.same x).1 q)) ∙ a.others x p;
}

-- Moving the timer of the slot `p` into the hole makes `p` the hole.
pub Moved-put :
    (m : Mem) (n h p : ℕ)
    → IsLinked m n h
    → h < n
    → p < n
    → p ≢ h
    → Moved n h p m (put m h (m.heap p))
Moved-put m n h p l hn pn ne = record {
  linked =
      λ i q r. ground (arith, l i, l p, heap-put m h t i, index-put m h t ((put m h t).heap i));
  same = λ x. (
    λ (a, b, c). ground (arith, heap-put m h t (index (put m h t) x), index-put m h t x, l p),
    λ (a, b, c). ground (arith, heap-put m h t (index (put m h t) x), index-put m h t x, l p),
  );
  abs_time = abs_time-put m h t;
  waiter = waiter-put m h t;
  slots = λ i q. ground (arith, heap-put m h t i);
  others = λ x q. ground (arith, index-put m h t x, l p);
}
  where
    t : ℕ
    t = m.heap p

-- The timer `t` is placed in the hole `h`, and the other timers below `n` stay, each in a slot that
-- it knows.
pub record Placed (n h t : ℕ) (m m' : Mem) : Type 0 where
  pub linked : IsLinked m' n n
  pub same : (x : ℕ) → Holds m' n n x ↔ ((x ≡ t) ⊎ Holds m n h x)
  pub abs_time : (x : ℕ) → (m'.timers x).abs_time ≡ (m.timers x).abs_time
  pub waiter : (x : ℕ) → (m'.timers x).waiter ≡ (m.timers x).waiter
  pub slots : (i : ℕ) → n ≤ i → m'.heap i ≡ m.heap i
  pub others : (x : ℕ) → x ≢ t → ¬ Holds m n h x → index m' x ≡ index m x

pub Moved-place :
    (n h h' t : ℕ) (m m' : Mem)
    → Moved n h h' m m'
    → h' < n
    → ¬ Holds m n h t
    → Placed n h t m (put m' h' t)
Moved-place n h h' t m m' v hn fresh = record {
  linked = λ i q r.
      ground
        (arith, v.linked i, heap-put m' h' t i, index-put m' h' t ((put m' h' t).heap i), new i);
  same = λ x. (
    λ (a, b, c). split x (ℕ_discrete x t) a c,
    λ d. elim d [
      | inl e ↦ ground (arith, index-put m' h' t x, heap-put m' h' t (index (put m' h' t) x))
      | inr held ↦ keep x ((v.same x).0 held)
    ],
  );
  abs_time = λ x. abs_time-put m' h' t x ∙ v.abs_time x;
  waiter = λ x. waiter-put m' h' t x ∙ v.waiter x;
  slots = λ i q. ground (arith, heap-put m' h' t i, v.slots i);
  others = λ x ne q. ground (arith, index-put m' h' t x, v.others x q);
}
  where
    new : (i : ℕ) → i < n → i ≢ h' → m'.heap i ≢ t
    new i p q e = fresh ((v.same t).1 (ground (arith, v.linked i)))

    split :
        (x : ℕ)
        → Dec (x ≡ t)
        → index (put m' h' t) x < n
        → (put m' h' t).heap (index (put m' h' t) x) ≡ x
        → (x ≡ t) ⊎ Holds m n h x
    split x (yes e) a c = inl e
    split x (no e) a c = inr (
        (v.same x).1
          (ground (arith, index-put m' h' t x, heap-put m' h' t (index (put m' h' t) x))))

    keep : (x : ℕ) → Holds m' n h' x → Holds (put m' h' t) n n x
    keep x (a, b, c) =
        ground
          (arith, index-put m' h' t x, heap-put m' h' t (index (put m' h' t) x), new (index m' x))
