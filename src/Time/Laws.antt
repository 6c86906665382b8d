-- ===== src/Time/Laws.antt =====
-- src/fev_time.h against the plain reading of a time as a number of nanoseconds.
use libfev.Base.{ℕ, ◌+◌, ◌-◌, ◌*◌, ◌^◌, ◌<◌, ◌≡◌, min, arith, is_neg, is_nonpos, leb, ltb}
use libfev.Time.{
  Timespec, IsValid, uint64_max, timespec_cmp, timespec_abs_to_rel, get_abs_time_since_now,
  timespec_to_ns,
}

-- the time in nanoseconds, with no bound
abbrev pub ns : Timespec → ℕ
ns ts = ts.tv_sec * 1000000000 + ts.tv_nsec

pub is_nonpos-cmp :
    (a b : Timespec) → IsValid a → IsValid b → is_nonpos (timespec_cmp a b) ≡ leb (ns a) (ns b)
unfolding timespec_cmp
is_nonpos-cmp a b va vb = ground arith

pub is_neg-cmp :
    (a b : Timespec) → IsValid a → IsValid b → is_neg (timespec_cmp a b) ≡ ltb (ns a) (ns b)
unfolding timespec_cmp
is_neg-cmp a b va vb = ground arith

-- For valid times the comparison is negative exactly when the first time is earlier, and it is not
-- positive exactly when the first time is not later.
pub cmp_order :
    (a b : Timespec)
    → IsValid a
    → IsValid b
    → (is_neg (timespec_cmp a b) ≡ ltb (ns a) (ns b))
      × (is_nonpos (timespec_cmp a b) ≡ leb (ns a) (ns b))
cmp_order a b va vb = (is_neg-cmp a b va vb, is_nonpos-cmp a b va vb)

-- The relative time is valid, and it is the distance from now to the absolute time, or zero when
-- that time has passed.
pub abs_to_rel_lem :
    (now abs_time : Timespec)
    → IsValid now
    → IsValid abs_time
    → IsValid (timespec_abs_to_rel now abs_time)
      × (ns (timespec_abs_to_rel now abs_time) ≡ ns abs_time - ns now)
unfolding timespec_abs_to_rel
abs_to_rel_lem now abs_time v w = ground arith

-- The absolute time is valid and lies the relative time after now; its seconds stay within a signed
-- 64-bit `time_t` when the two numbers of seconds leave room for one carry.
pub since_now_lem :
    (now rel : Timespec)
    → IsValid now
    → IsValid rel
    → now.tv_sec + rel.tv_sec + 1 < 2 ^ 63
    → IsValid (get_abs_time_since_now now rel)
      × (ns (get_abs_time_since_now now rel) ≡ ns now + ns rel)
      × ((get_abs_time_since_now now rel).tv_sec < 2 ^ 63)
unfolding get_abs_time_since_now
since_now_lem now rel v w h = omega arith

-- Taking the absolute time after `rel` from now, and then the time that is left until it, gives
-- `rel` back, when the seconds, with one carry, fit a signed 64-bit `time_t`.
pub abs_to_rel-since_now :
    (now rel : Timespec)
    → IsValid now
    → IsValid rel
    → now.tv_sec + rel.tv_sec + 1 < 2 ^ 63
    → timespec_abs_to_rel now (get_abs_time_since_now now rel) ≡ rel
unfolding timespec_abs_to_rel get_abs_time_since_now
abs_to_rel-since_now now rel v w fits = ground arith

-- For a valid time whose seconds fit a 64-bit `time_t`, the number of nanoseconds saturates at
-- UINT64_MAX and is exact below.
pub to_ns_saturates :
    (ts : Timespec) → IsValid ts → ts.tv_sec < 2 ^ 63 → timespec_to_ns ts ≡ min (ns ts) uint64_max
unfolding timespec_to_ns
to_ns_saturates ts v h = ground arith
