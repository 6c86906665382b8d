-- ===== src/Queues/Spmc/Linear.antt =====
-- The owner and the thieves of a queue, interleaved, keep to the abstract queue: each step is either
-- invisible or one atomic operation of it.
use libfev.Base.{
  ℕ, ◌+◌, ◌-◌, ◌^◌, ◌≤◌, ◌<◌, ◌≡◌, refl, sym, ap, ◌∙◌, arith, some, [], ◌∷◌, update, subst,
}
use Prim.Native.Nat.{◌∣◌}
use libfev.Queues.Window.{u32, window, length-window, fifo_pop}
use libfev.Queues.Spmc.Steps.{
  Thief, idle, at_loop, reads, swaps, System, capacity, slot, Label, popped, looked, Step, Reach,
  initial, later,
}
use libfev.Queues.Spmc.Known.{
  contents, held_head, IsTimely, Knows, nothing, old, some_item, first, Inv, Fifo, thief-Inv,
  slot-mod, looking, look-Fifo, swap-Fifo, swap-Inv,
}
use libfev.Queues.Spmc.Owned.{
  words-apart, start-Inv, taken_fits, wrote, write-contents, write-Inv, store-Inv, store-Fifo,
}

Knows-old : (s : System) (i head : ℕ) → Inv s → s.thieves i ≡ at_loop head → head ≤ s.head
Knows-old s i head v e = bounded (subst (Knows s) e (v.knows i))
  where
    bounded : Knows s (at_loop head) → head ≤ s.head
    bounded (old le) = le

Knows-read :
    (s : System) (i head : ℕ)
    → Inv s
    → s.thieves i ≡ reads head
    → Knows s (swaps head (s.buffer (slot s head)))
Knows-read s i head v e = with_item (subst (Knows s) e (v.knows i))
  where
    with_item : Knows s (reads head) → Knows s (swaps head (s.buffer (slot s head)))
    with_item (some_item le lt) = first le lt (λ q. ap s.buffer (slot-mod s head v))

Knows-swap :
    (s : System) (i head item : ℕ)
    → Inv s
    → s.thieves i ≡ swaps head item
    → Knows s (swaps head item)
Knows-swap s i head item v e = subst (Knows s) e (v.knows i)

in_time :
    (s : System) (i head : ℕ) (p : Thief)
    → IsTimely s
    → s.thieves i ≡ p
    → held_head p ≡ some head
    → s.tail < head + 2 ^ 32
in_time s i head p timely e h = timely i head (ap held_head e ∙ h)

-- The queue is not empty when a compare-exchange succeeds.
swap-order :
    (s : System) (head item : ℕ) → Knows s (swaps head item) → head ≡ s.head → s.head < s.tail
swap-order s head item (first le lt g) at = omega arith

pub Step-Inv : {s t : System} {l : Label} → Inv s → IsTimely s → Step s l t → Inv t
unfolding wrote
Step-Inv {s = s} v timely (Step.load_head i e) =
    thief-Inv s i (at_loop s.head) v (old (omega arith))
Step-Inv {s = s} v timely (Step.load_tail i head e) =
    thief-Inv s i _ v (looking s head v (in_time s i head _ timely e refl) (Knows-old s i head v e))
Step-Inv {s = s} v timely (Step.read i head e) = thief-Inv s i _ v (Knows-read s i head v e)
Step-Inv {s = s} v timely (Step.swap i head item e same) =
    let k = Knows-swap s i head item v e in
    let (at, _) = swap-Fifo s i head item v (in_time s i head _ timely e refl) same k in
    swap-Inv s i v (swap-order s head item k at)
Step-Inv {s = s} v timely (Step.swap_fails i head item e) =
    thief-Inv s i (at_loop s.head) v (old (omega arith))
Step-Inv {s = s} v timely (Step.push fiber e room) =
    start-Inv s (fiber ∷ []) v (ground (arith, room, words-apart s v, v.order))
Step-Inv {s = s} v timely (Step.push_fails fiber e room) = v
Step-Inv {s = s} v timely (Step.push_stq fibers e) = start-Inv s _ v (taken_fits s fibers v)
Step-Inv {s = s} v timely (Step.write written fiber todo e) = write-Inv s written fiber todo v e
Step-Inv {s = s} v timely (Step.store_tail written e) = store-Inv s written v e

swap-pops :
    (s : System) (i head item : ℕ)
    → Inv s
    → s.tail < head + 2 ^ 32
    → u32 s.head ≡ u32 head
    → Knows s (swaps head item)
    → Fifo
        (capacity s)
        (popped (some item))
        (contents s)
        (contents (record s { head = s.head + 1; thieves = update s.thieves i idle }))
unfolding fifo_pop
swap-pops s i head item v timely same k =
    let (at, e) = swap-Fifo s i head item v timely same k in
    let less : s.tail - s.head - 1 ≡ s.tail - (s.head + 1) = omega arith in
    Fifo.pops (some item)
      (rw e (ap (λ n. (some item, window s.buffer (capacity s) (s.head + 1) n)) (sym less)))

pub Step-Fifo :
    {s t : System} {l : Label}
    → Inv s
    → IsTimely s
    → Step s l t
    → Fifo (capacity s) l (contents s) (contents t)
unfolding wrote
Step-Fifo v timely (Step.load_head i e) = Fifo.nothing refl
Step-Fifo {s = s} v timely (Step.load_tail i head e) =
    look-Fifo s (record s { thieves = update s.thieves i (looked head s.tail) }) head v
      (in_time s i head _ timely e refl) (Knows-old s i head v e) refl
Step-Fifo v timely (Step.read i head e) = Fifo.nothing refl
Step-Fifo {s = s} v timely (Step.swap i head item e same) =
    swap-pops s i head item v (in_time s i head _ timely e refl) same (Knows-swap s i head item v e)
Step-Fifo v timely (Step.swap_fails i head item e) = Fifo.nothing refl
Step-Fifo v timely (Step.push fiber e room) = Fifo.nothing refl
Step-Fifo {s = s} v timely (Step.push_fails fiber e room) = Fifo.is_full refl (
    ground (
      arith,
      room,
      words-apart s v,
      v.order,
      v.bound,
      length-window s.buffer (capacity s) s.head (s.tail - s.head),
    ))
Step-Fifo v timely (Step.push_stq fibers e) = Fifo.nothing refl
Step-Fifo {s = s} v timely (Step.write written fiber todo e) =
    Fifo.nothing (write-contents s written fiber todo v e)
Step-Fifo {s = s} v timely (Step.store_tail written e) = store-Fifo s written v e

-- Every state of the run but the last one is timely.
abbrev pub TimelyRun : {cells : ℕ → ℕ} {size : ℕ} {s : System} → Reach cells size s → Type 0
TimelyRun initial = 0 ≤ 0
TimelyRun (later {s} l r step) = TimelyRun r × IsTimely s

Reach-Inv :
    {cells : ℕ → ℕ} {size : ℕ} {s : System}
    → 2 ≤ size
    → size ≤ 2 ^ 31
    → size ∣ 2 ^ 32
    → (r : Reach cells size s) → TimelyRun r
    → Inv s
Reach-Inv {size = size} big small power initial timely =
    let e : size - 1 + 1 ≡ size = omega arith in
    record {
      power = rw e power;
      proper = omega arith;
      order = omega arith;
      bound = omega arith;
      ahead = refl;
      knows = λ i. nothing;
    }
Reach-Inv big small power (later l r step) (before, now) =
    Step-Inv (Reach-Inv big small power r before) now step

Step-capacity : {s t : System} {l : Label} → Step s l t → capacity t ≡ capacity s
Step-capacity (Step.load_head i e) = refl
Step-capacity (Step.load_tail i head e) = refl
Step-capacity (Step.read i head e) = refl
Step-capacity (Step.swap i head item e same) = refl
Step-capacity (Step.swap_fails i head item e) = refl
Step-capacity (Step.push fiber e room) = refl
Step-capacity (Step.push_fails fiber e room) = refl
Step-capacity (Step.push_stq fibers e) = refl
Step-capacity (Step.write written fiber todo e) = refl
Step-capacity (Step.store_tail written e) = refl

Reach-capacity :
    {cells : ℕ → ℕ} {size : ℕ} {s : System} → 2 ≤ size → Reach cells size s → capacity s ≡ size
Reach-capacity big initial = omega arith
Reach-capacity big (later l r step) = Step-capacity step ∙ Reach-capacity big r

-- With the owner and any number of thieves at work on the queue at the same time, each step is an
-- operation of the abstract queue that happens at once, or does not show: a thief that gets a fiber
-- takes the first one, a thief that leaves without one leaves at an empty queue, the fibers of a push
-- come to the end all together and fit in, and a push is refused by a full queue. No thief may sleep while
-- the positions go round the 32 bits.
pub spmc_linear :
    {cells : ℕ → ℕ} {size : ℕ} {s t : System} {l : Label}
    → 2 ≤ size
    → size ≤ 2 ^ 31
    → size ∣ 2 ^ 32
    → (r : Reach cells size s) → TimelyRun r
    → IsTimely s
    → Step s l t
    → Fifo size l (contents s) (contents t)
spmc_linear {s = s} {t = t} {l = l} big small power r timely now step =
    subst (λ n. Fifo n l (contents s) (contents t)) (Reach-capacity big r)
      (Step-Fifo (Reach-Inv big small power r timely) now step)
