-- ===== src/Timers/Wait/Settled.antt =====
-- `fev_timed_wait` takes its timer off the bucket before it returns.
use libfev.Base.{
  ℕ, ◌*◌, ◌/◌, ◌≤◌, ◌<◌, ◌≡◌, ◌≢◌, inl, ◌==◌, refl, sym, ap, ◌∙◌, arith, true, ◌&&◌, not,
  if◌then◌else◌, Option, none, some, List, [], ◌∷◌, Ret, Gives, gives, Gives-bind, Gives-if,
  Gives-weaken, update, update_ne, update-all,
}
use libfev.Time.{Timespec}
use libfev.Timers.{Bucket, Timer, size_max, timer_is_expired}
use libfev.Time.Laws.{ns}
use libfev.Timers.Heap.Order.{parent}
use libfev.Timers.Heap.Links.{index}
use libfev.Timers.Buckets.Valid.{InBucket}
use libfev.Timers.Service.{timers_del}
use libfev.Timers.Service.Shown.{
  IsShown, set_min-IsValid, TimerAdded, accepted, out_of_memory, timers_add_lem, timers_del_lem,
}
use libfev.Timers.Expire.{process}
use libfev.Timers.Expire.Due.{wake_expired_lem}
use libfev.Timers.Expire.Process.{process_lem, show_min_lem}
use libfev.Timers.Wait.{Outcome, with_timer, is_err, after_wait, timed_wait}
use libfev.Waiter.{WakeResult}

-- The timer is in the bucket, or was expired.
pub data Pending (b : Bucket) (t : ℕ) : Type 0 where
  inside : InBucket b t → Pending b t
  expired : ¬ InBucket b t → index b.mem t ≡ size_max → Pending b t

-- What others leave of the bucket when a wait for the timer returns: it is in the bucket or was expired,
-- and it was expired when the reason says so.
pub record Waits (t : ℕ) (r : Bucket × ℕ) : Type 0 where
  pub shown : IsShown r.0
  pub pending : Pending r.0 t
  pub no_check : r.1 ≡ 3 → ¬ InBucket r.0 t

-- The bucket and the poller have forgotten the timer.
pub record Settled (t : ℕ) (o : Outcome) : Type 0 where
  pub shown : IsShown o.bucket
  pub outside : ¬ InBucket o.bucket t
  pub unseen : o.bucket.min ≢ some t

-- A timer that the poller sees is in the bucket.
unseen_outside : (b : Bucket) (t : ℕ) → IsShown b → ¬ InBucket b t → b.min ≢ some t
unseen_outside b t v out seen = out (ground (arith, v.shown, seen, v.valid.linked 0))

-- The stack's timer, before it is in the bucket.
module _ (b : Bucket) (t : ℕ) (timer : Timer) (v : IsShown b) (out : ¬ InBucket b t) where
  slot-ne : (i : ℕ) → i < b.len → t ≢ b.mem.heap i
  slot-ne i lt e = let at = v.valid.linked i lt (omega arith) in out (ground (arith, at, e))

  slot-same :
      (i : ℕ) → i < b.len → update b.mem.timers t timer (b.mem.heap i) ≡ b.mem.timers (b.mem.heap i)
  slot-same i lt = update_ne b.mem.timers t (b.mem.heap i) timer (slot-ne i lt)

  with_timer-IsShown : libfev.Time.IsValid timer.abs_time → IsShown (with_timer b t timer)
  with_timer-IsShown good = record {
    valid = record {
      linked = λ i lt ne. ap (λ z. z.index) (slot-same i lt) ∙ v.valid.linked i lt ne;
      order = λ c p q. omega (
        arith,
        v.valid.order c p q,
        ap (λ z. ns z.abs_time) (slot-same c q),
        ap (λ z. ns z.abs_time) (slot-same (parent c) (omega arith)),
      );
      times =
          update-all (λ x z. libfev.Time.IsValid z.abs_time) b.mem.timers t timer
            (λ x ne. v.valid.times x) good;
      room = v.valid.room;
      small = v.valid.small;
    };
    shown = v.shown;
  }

  with_timer-outside : ¬ InBucket (with_timer b t timer) t
  with_timer-outside h = slot-ne (index (with_timer b t timer).mem t) h.0 (sym h.2)

-- Processing a timer that was expired already.
process_expired :
    (now : Timespec) (outcome : ℕ → WakeResult) (next : Option ℕ) (b : Bucket) (t : ℕ)
    → libfev.Time.IsValid now
    → IsShown b
    → ¬ InBucket b t
    → index b.mem t ≡ size_max
    → Gives (λ r. IsShown r.0.0 × ¬ InBucket r.0.0 t) (process now outcome next b t)
unfolding process timer_is_expired
process_expired now outcome next b t now_valid v out gone =
    let c : Bucket = record b { min = none } in
    Gives-bind (wake_expired_lem now outcome now_valid c (set_min-IsValid b none v.valid)) λ r w.
      let still = w.others t out ∙ gone in
      Gives-if (not (timer_is_expired (r.0.mem.timers t)))
        (λ early. absurd (ground (arith, still, early)))
        (λ late.
          let (shown, same) = show_min_lem r.0 w.valid w.min in
          gives (shown, λ h. out ((w.same t).0 ((same t).0 h)).0))

settled :
    (t : ℕ) (b : Bucket) (answer : Ret (Unit {0})) (timeouts : List (Option Timespec))
    (fibers : List ℕ)
    → IsShown b
    → ¬ InBucket b t
    → Settled t (record { bucket = b; answer = answer; timeouts = timeouts; fibers = fibers })
settled t b answer timeouts fibers v out = record {
  shown = v;
  outside = out;
  unseen = unseen_outside b t v out;
}

module _ (now : Timespec) (outcome : ℕ → WakeResult) (next : Option ℕ)
    (now_valid : libfev.Time.IsValid now) where
  deleted-Pending :
      (b : Bucket) (t : ℕ)
      → IsShown b
      → Pending b t
      → Gives (λ r. IsShown r.0 × ¬ InBucket r.0 t) (timers_del b t)
  unfolding timers_del timer_is_expired
  deleted-Pending b t v (inside h) =
      Gives-weaken (timers_del_lem b t v h) λ r d. (d.shown, λ k. ((d.same t).0 k).0 refl)
  deleted-Pending b t v (expired out gone) = rw (gone) (gives (v, out))

  processed-Pending :
      (b : Bucket) (t : ℕ)
      → IsShown b
      → Pending b t
      → Gives (λ r. IsShown r.0.0 × ¬ InBucket r.0.0 t) (process now outcome next b t)
  processed-Pending b t v (inside h) =
      Gives-weaken (process_lem now outcome next b t now_valid v h)
        λ r p. (p.shown, λ k. ((p.same t).0 k).0 refl)
  processed-Pending b t v (expired out gone) =
      process_expired now outcome next b t now_valid v out gone

  after_wait-Settled :
      (t : ℕ) (timeout : Option Timespec) (r : Bucket × ℕ)
      → Waits t r
      → Gives (Settled t) (after_wait now outcome next t timeout r)
  unfolding after_wait
  after_wait-Settled t timeout (b, reason) w =
      Gives-if (reason == 1)
        (λ ready.
          Gives-bind (deleted-Pending b t w.shown w.pending)
            λ r (v, out). gives (settled t r.0 _ _ _ v out))
        (λ not_ready.
          Gives-if (reason == 3)
            (λ no_check. gives (settled t b _ _ _ w.shown (w.no_check (ground arith))))
            (λ check.
              Gives-bind (processed-Pending b t w.shown w.pending)
                λ r (v, out). gives (settled t r.0.0 _ _ _ v out)))

  -- A wait with a deadline ends, and then the timer on the stack of the fiber is not in the bucket and is not
  -- the one that the poller sees: after ENOMEM, a wake-up, a timeout, and where another fiber has expired
  -- the timer. The bucket, its timers and the clock are valid, the timer is not in the bucket before, and
  -- what others do during the wait keeps the bucket valid and leaves the timer in it or marks it expired.
  pub timed_wait-Settled :
      (grown : Option (ℕ → ℕ)) (wait : Bucket → Bucket × ℕ) (b : Bucket) (t : ℕ)
      (abs_time : Timespec) (waiter : ℕ)
      → libfev.Time.IsValid abs_time
      → IsShown b
      → ¬ InBucket b t
      → 2 * b.capacity ≤ size_max / 8
      → ((c : Bucket) → IsShown c → InBucket c t → Waits t (wait c))
      → Gives (Settled t) (timed_wait true grown wait now outcome next b t abs_time waiter)
  unfolding timed_wait
  timed_wait-Settled grown wait b t abs_time waiter good v out fits waits =
      let timer : Timer = record { abs_time = abs_time; index = 0; waiter = waiter } in
      let c = with_timer b t timer in
      Gives-bind
        (timers_add_lem grown c t (with_timer-IsShown b t timer v out good)
          (with_timer-outside b t timer v out) fits)
        λ r a.
          ends c r (with_timer-IsShown b t timer v out good) (with_timer-outside b t timer v out) a
    where
      ends :
          (c : Bucket) (r : Bucket × Ret (Unit {0}) × Option Timespec)
          → IsShown c
          → ¬ InBucket c t
          → TimerAdded c t r
          → Gives (Settled t) (
              if true && is_err r.1
              then some (record { bucket = r.0; answer = r.1; timeouts = r.2 ∷ []; fibers = [] })
              else after_wait now outcome next t r.2 (wait r.0))
      ends c r v out (accepted {b' = b'} w same timeout) =
          after_wait-Settled t _ (wait b') (waits b' w ((same t).1 (inl refl)))
      ends c r v out out_of_memory = gives (settled t c _ _ _ v out)
