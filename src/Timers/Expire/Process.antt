-- ===== src/Timers/Expire/Process.antt =====
-- `fev_timers_process`: the bucket that it leaves and the answer that it gives.
use libfev.Base.{
  ℕ, ◌<◌, ◌≡◌, ◌≢◌, ◌↔◌, inl, inr, ◌==◌, refl, ◌∙◌, arith, Bool, true, false, not, Option, none,
  List, Gives, gives, Gives-bind, Gives-if, leb, Bool-cases, subst,
}
use native.Mathlib.Decide.{dec_lt}
use libfev.Time.{Timespec, IsValid}
use libfev.Time.Laws.{ns}
use libfev.Timers.{Bucket, timer_is_expired, timers_bucket_empty, timers_bucket_min}
use libfev.Timers.Heap.Links.{key}
use libfev.Timers.Buckets.Valid.{InBucket}
use libfev.Timers.Buckets.Del.{DelEnds, timers_bucket_del_lem}
use libfev.Timers.Service.Shown.{IsShown, set_min-IsValid}
use libfev.Timers.Expire.{show_min, process}
use libfev.Timers.Expire.Due.{Expired, wake_expired_lem}
use libfev.Waiter.{WakeResult}

-- What processing the timer `t` at the time `now` leads to.
pub record Processed (now : Timespec) (b : Bucket) (t : ℕ)
    (r : (Bucket × Option Timespec) × Bool × List ℕ) : Type 0 where
  pub shown : IsShown r.0.0
  pub same : (x : ℕ) → InBucket r.0.0 x ↔ ((x ≢ t) × InBucket b x × (ns now < key b.mem x))
  pub answer : r.1 ≡ leb (key b.mem t) (ns now)

pub show_min_lem :
    (b : Bucket)
    → libfev.Timers.Buckets.Valid.IsValid b
    → b.min ≡ none
    → IsShown (show_min b).0 × ((x : ℕ) → InBucket (show_min b).0 x ↔ InBucket b x)
unfolding timers_bucket_min timers_bucket_empty
show_min_lem b v e = elim (Bool-cases (b.len == 0)) [
  | inl z ↦ rw z (record { valid = v; shown = ground arith }, λ x. (λ h. h, λ h. h))
  | inr z ↦
      rw z (record { valid = set_min-IsValid b _ v; shown = ground arith }, λ x. (λ h. h, λ h. h))
]

module _ (now : Timespec) (b : Bucket) (t : ℕ) (held : InBucket b t) where
  Processed-late :
      (r : Bucket × List ℕ)
      → b.min ≡ none
      → Expired now b r
      → timer_is_expired (r.0.mem.timers t) ≡ true
      → (fibers : List ℕ) → Processed now b t (show_min r.0, true, fibers)
  unfolding timer_is_expired
  Processed-late r e w x fibers =
      let (shown, same) = show_min_lem r.0 w.valid (w.min ∙ e) in
      let out : ¬ InBucket r.0 t = λ h. ground (arith, w.valid.room, w.valid.small, h, x) in
      record {
        shown = shown;
        same = λ y. (
          λ h.
              let (k, l) = (w.same y).0 ((same y).0 h) in
              (λ q. out (subst (InBucket r.0) q ((same y).0 h)), k, l),
          λ (ne, k, l). (same y).1 ((w.same y).1 (k, l)),
        );
        answer = elim (dec_lt (ns now) (key b.mem t)) [
          | yes l ↦ absurd (out ((w.same t).1 (held, l)))
          | no l ↦ ground arith
        ];
      }

  Processed-early :
      (r : Bucket × List ℕ) (d : Bucket × Bool)
      → b.min ≡ none
      → Expired now b r
      → timer_is_expired (r.0.mem.timers t) ≡ false
      → DelEnds r.0 t d
      → (fibers : List ℕ) → Processed now b t (show_min d.0, false, fibers)
  unfolding timer_is_expired
  Processed-early r d e w x g fibers =
      let (shown, same) = show_min_lem d.0 g.deleted.valid (g.deleted.frame.min ∙ w.min ∙ e) in
      record {
        shown = shown;
        same = λ y. (
          λ h.
              let (ne, k) = (g.deleted.same y).0 ((same y).0 h) in
              let (i, l) = (w.same y).0 k in (ne, i, l),
          λ (ne, i, l). (same y).1 ((g.deleted.same y).1 (ne, (w.same y).1 (i, l))),
        );
        answer = elim (dec_lt (ns now) (key b.mem t)) [
          | yes l ↦ ground arith
          | no l ↦ absurd (ground (arith, w.marked t held (omega arith), x))
        ];
      }

  still_held :
      (r : Bucket × List ℕ)
      → Expired now b r
      → timer_is_expired (r.0.mem.timers t) ≡ false
      → InBucket r.0 t
  unfolding timer_is_expired
  still_held r w x = elim (dec_lt (ns now) (key b.mem t)) [
    | yes l ↦ (w.same t).1 (held, l)
    | no l ↦ absurd (ground (arith, w.marked t held (omega arith), x))
  ]

-- Processing a timer of the bucket ends. The poller then sees the least of the timers that are left:
-- those later than now, without this one; the answer is whether this one was due.
pub process_lem :
    (now : Timespec) (outcome : ℕ → WakeResult) (next : Option ℕ) (b : Bucket) (t : ℕ)
    → IsValid now
    → IsShown b
    → InBucket b t
    → Gives (Processed now b t) (process now outcome next b t)
unfolding process
process_lem now outcome next b t now_valid v held =
    let c : Bucket = record b { min = none } in
    Gives-bind (wake_expired_lem now outcome now_valid c (set_min-IsValid b none v.valid)) λ r w.
      Gives-if (not (timer_is_expired (r.0.mem.timers t)))
        (λ early.
          let x : timer_is_expired (r.0.mem.timers t) ≡ false = ground arith in
          Gives-bind (timers_bucket_del_lem r.0 t w.valid (still_held now c t held r w x))
            λ d g. gives (again (Processed-early now c t held r d refl w x g _)))
        (λ late. gives (again (Processed-late now c t held r refl w (ground arith) _)))
  where
    again :
        {r : (Bucket × Option Timespec) × Bool × List ℕ}
        → Processed now (record b { min = none }) t r
        → Processed now b t r
    again p = record { shown = p.shown; same = p.same; answer = p.answer }
