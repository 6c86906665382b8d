-- ===== src/Timers/Heap/Order.antt =====
-- The heap order, on the keys `k` of the slots: it does not depend on the timers' addresses.
use libfev.Base.{ℕ, zero, suc, ◌+◌, ◌-◌, ◌*◌, ◌/◌, ◌≤◌, ◌<◌, ◌≡◌, ◌≢◌, ◌⊎◌, arith, update}

abbrev pub parent : ℕ → ℕ
parent c = (c - 1) / 2

-- No slot below `n` has a key below its parent's.
abbrev pub IsHeap : (ℕ → ℕ) → ℕ → Type 0
IsHeap k n = (c : ℕ) → 0 < c → c < n → k (parent c) ≤ k c

-- The edges round the hole `h`, from its parent to its children, are in order.
abbrev pub IsBridged : (ℕ → ℕ) → ℕ → ℕ → Type 0
IsBridged k n h = (c : ℕ) → 0 < c → c < n → parent c ≡ h → 0 < h → k (parent h) ≤ k c

-- The edges that do not touch the hole are in order.
abbrev pub IsHoled : (ℕ → ℕ) → ℕ → ℕ → Type 0
IsHoled k n h = (c : ℕ) → 0 < c → c < n → c ≢ h → parent c ≢ h → k (parent c) ≤ k c

-- `v` may go up from the hole: it is no later than what is below.
pub record UpOrder (k : ℕ → ℕ) (n h v : ℕ) : Type 0 where
  pub inside : h < n
  pub edges : IsHoled k n h
  pub below : (c : ℕ) → 0 < c → c < n → parent c ≡ h → v ≤ k c
  pub bridged : IsBridged k n h

pub UpOrder-step :
    (k : ℕ → ℕ) (n h v : ℕ)
    → UpOrder k n h v
    → 0 < h
    → v < k (parent h)
    → UpOrder (update k h (k (parent h))) n (parent h) v
UpOrder-step k n h v u pos lt = record {
  inside = omega arith;
  edges = λ c p q r s. ground (arith, u.edges c p q, u.bridged c p q);
  below = λ c p q r. ground (arith, u.edges c p q);
  bridged = λ c p q r s. ground (arith, u.edges c p q, u.edges (parent h));
}

pub UpOrder-stop :
    (k : ℕ → ℕ) (n h v : ℕ) → UpOrder k n h v → (0 < h → k (parent h) ≤ v) → IsHeap (update k h v) n
UpOrder-stop k n h v u top = λ c p q. ground (arith, u.edges c p q, u.below c p q, top)

-- `v` may go down from the hole `h`, where it came from `start`.
pub record DownOrder (k : ℕ → ℕ) (n start h v : ℕ) : Type 0 where
  pub inside : h < n
  pub from : start ≤ h
  pub edges : IsHoled k n h
  pub above : h ≢ start → k (parent h) ≤ v
  pub bridged : IsBridged k n h

-- `m` is the child of `h` with the lower key.
pub record IsSmallerChild (k : ℕ → ℕ) (n h m : ℕ) : Type 0 where
  pub inside : m < n
  pub child : (m ≡ h * 2 + 1) ⊎ (m ≡ h * 2 + 2)
  pub least : (c : ℕ) → 0 < c → c < n → parent c ≡ h → k m ≤ k c

pub DownOrder-step :
    (k : ℕ → ℕ) (n start h m v : ℕ)
    → DownOrder k n start h v
    → IsSmallerChild k n h m
    → k m < v
    → DownOrder (update k h (k m)) n start m v
DownOrder-step k n start h m v d s lt = record {
  inside = s.inside;
  from = ground arith;
  edges = λ c p q r t. ground (arith, d.edges c p q, d.bridged m, s.least c p q);
  above = λ e. ground arith;
  bridged = λ c p q r t. ground (arith, d.edges c p q);
}

-- What a sift down from `start` leaves: only the edge above `start` may be out of order, and the
-- keys below `start` are no lower than the one above it.
pub record SunkOrder (k : ℕ → ℕ) (n start : ℕ) : Type 0 where
  pub edges : (c : ℕ) → 0 < c → c < n → c ≢ start → k (parent c) ≤ k c
  pub bridged : IsBridged k n start

pub DownOrder-stop :
    (k : ℕ → ℕ) (n start h v : ℕ)
    → DownOrder k n start h v
    → ((c : ℕ) → 0 < c → c < n → parent c ≡ h → v ≤ k c)
    → SunkOrder (update k h v) n start
DownOrder-stop k n start h v d low = record {
  edges = λ c p q r. ground (arith, d.edges c p q, low c p q, d.above);
  bridged = λ c p q r s.
      ground (arith, d.edges c p q, low c p q, d.above, d.bridged c p q, d.edges start);
}

root_least_below : (b : ℕ) (k : ℕ → ℕ) (n i : ℕ) → IsHeap k n → i < b → i < n → k 0 ≤ k i
root_least_below zero k n i h f p = absurd (omega arith)
root_least_below (suc b) k n i h f p = ground (arith, h i, root_least_below b k n (parent i) h)

-- The root of a heap has the lowest key.
pub root_least : (k : ℕ → ℕ) (n i : ℕ) → IsHeap k n → i < n → k 0 ≤ k i
root_least k n i h p = root_least_below (suc i) k n i h (omega arith) p
