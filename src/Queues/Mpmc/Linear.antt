-- ===== src/Queues/Mpmc/Linear.antt =====
-- Each run of a queue with any number of threads is a run of the abstract queue.
use libfev.Base.{ℕ, ◌+◌, ◌-◌, ◌^◌, ◌≤◌, ◌≡◌, refl, ◌∙◌, arith, none, [], subst}
use Prim.Native.Nat.{◌∣◌}
use libfev.Queues.Mpmc.Steps.{System, capacity, Label, Step, init, Reach, initial, later}
use libfev.Queues.Mpmc.Entries.{Entry, ready, Abstract, Allowed}
use libfev.Queues.Mpmc.Known.{free, nothing, Inv}
use native.Mathlib.Nat.{mod-eq_of_lt, mod-lt}
use libfev.Queues.Mpmc.Moves.{Shows, shows, Simulated, IsTimely, Step-Simulated}

-- Every state of the run but the last one is timely.
abbrev pub TimelyRun : {values : ℕ → ℕ} {size : ℕ} {s : System} → Reach values size s → Type 0
TimelyRun initial = 0 ≤ 0
TimelyRun (later {s} l r step) = TimelyRun r × IsTimely s

abbrev pub empty : Abstract
empty = record { queue = []; hands = λ i. none }

-- The run of the abstract queue that goes with a run of the queue, step by step.
pub data History (values : ℕ → ℕ) (size : ℕ)
    : (s : System) → Reach values size s → Abstract → Type 0 where
  starts : History values size (init values size) initial empty
  goes :
      {s t : System} {l : Label} {r : Reach values size s} {step : Step s l t} {a b : Abstract}
      → History values size s r a
      → Allowed size a b l
      → History values size t (later l r step) b

-- A run of the queue, with its abstract run, at the end of which the queue shows the abstract one.
pub record Refinement {values : ℕ → ℕ} {size : ℕ} {s : System} (r : Reach values size s)
    : Type 0 where
  pub abstract_end : Abstract
  pub history : History values size s r abstract_end
  pub shown : Shows s abstract_end

Step-capacity : {s t : System} {l : Label} → Step s l t → capacity t ≡ capacity s
Step-capacity (Step.pop i at) = refl
Step-capacity (Step.pop_look i h at) = refl
Step-capacity (Step.pop_reload i at) = refl
Step-capacity (Step.pop_swap i h at w) = refl
Step-capacity (Step.pop_swap_fails i h at) = refl
Step-capacity (Step.read_value i h at) = refl
Step-capacity (Step.free_cell i h x at) = refl
Step-capacity (Step.push i x at) = refl
Step-capacity (Step.push_look i x t at) = refl
Step-capacity (Step.push_reload i x at) = refl
Step-capacity (Step.push_swap i x t at w) = refl
Step-capacity (Step.push_swap_fails i x t at) = refl
Step-capacity (Step.write_value i x t at) = refl
Step-capacity (Step.publish i x t at) = refl

Reach-capacity :
    {values : ℕ → ℕ} {size : ℕ} {s : System} → 2 ≤ size → Reach values size s → capacity s ≡ size
Reach-capacity big initial = omega arith
Reach-capacity big (later l r step) = Step-capacity step ∙ Reach-capacity big r

bare : ℕ → Entry
bare p = ready 0

init-Inv :
    (values : ℕ → ℕ) (size : ℕ)
    → 2 ≤ size
    → size ≤ 2 ^ 30
    → size ∣ 2 ^ 32
    → Inv (init values size) bare (λ i. none)
init-Inv values size big small power =
    let e : size - 1 + 1 ≡ size = omega arith in
    record {
      power = rw e power;
      big = omega arith;
      proper = omega arith;
      order = omega arith;
      bound = omega arith;
      used = λ p a b. absurd (omega arith);
      room = λ p a b. free (rw e (mod-eq_of_lt (omega (arith, b))));
      past = λ p a. absurd (omega arith);
      upper = λ p. rw e (let h = mod-lt p {m = size} (omega arith) in omega arith);
      knows = λ i. nothing;
    }

step_from :
    {size : ℕ} {s t : System} {l : Label} (a : Abstract)
    → capacity s ≡ size
    → Shows s a
    → IsTimely s
    → Step s l t
    → Simulated size a l t
step_from {s = s} {t = t} {l = l} a at (shows e hands v) timely step =
    subst (λ n. Simulated n a l t) at (Step-Simulated s e hands v timely step)

-- With any number of threads that push and pop at the same time, each run of the queue is a run of the
-- abstract queue, whose entries stand in the order of the pushes' compare-exchanges: a push adds its
-- pending entry at the end, at a time when at most as many entries as the capacity are there, and makes
-- that entry ready when it stores the sequence number; a pop takes the first entry, which is ready, and
-- then returns exactly its item. A pop fails only while the queue is empty or the first entry is pending,
-- a push only while the queue is full or a pop still holds its item. The capacity is a power of two
-- between 2 and 2 ^ 30, and no thread sleeps while the positions go half round the 32 bits.
pub mpmc_linear :
    {values : ℕ → ℕ} {size : ℕ} {s : System}
    → 2 ≤ size
    → size ≤ 2 ^ 30
    → size ∣ 2 ^ 32
    → (r : Reach values size s) → TimelyRun r
    → Refinement r
mpmc_linear {values} {size} big small power initial timely = record {
  abstract_end = empty;
  history = starts;
  shown = shows bare (λ i. none) (init-Inv values size big small power);
}
mpmc_linear big small power (later l r step) (before, now) =
    let past = mpmc_linear big small power r before in
    let next = step_from past.abstract_end (Reach-capacity big r) past.shown now step in
    record {
      abstract_end = next.after;
      history = goes past.history next.allowed;
      shown = next.shown_after;
    }
