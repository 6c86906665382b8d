-- ===== src/Time.antt =====
-- src/fev_time.h: `struct timespec` and its arithmetic. The fields are natural numbers, since
-- `fev_timespec_assert_valid` asserts that they are not negative; what `fev_clock_get_time` reads
-- is the argument `now`. `time_t` and `long` are signed 64-bit: the bounds of a result are stated
-- in Time/Laws.antt.
pub mod Laws
mod Tests
use libfev.Base.{
  ℕ, ◌+◌, ◌-◌, ◌*◌, ◌/◌, ◌%◌, ◌^◌, ◌<◌, ltb, if◌then◌else◌, not, ℤ, pos, negsuc, sub_ℕ, is_neg,
  is_zero,
}

pub record Timespec : Type 0 where
  pub tv_sec : ℕ
  pub tv_nsec : ℕ

abbrev pub nsecs_per_sec : ℕ
nsecs_per_sec = 1000 * 1000 * 1000

abbrev pub uint64_max : ℕ
uint64_max = 2 ^ 64 - 1

abbrev pub IsValid : Timespec → Type 0
IsValid ts = ts.tv_nsec < nsecs_per_sec

-- The sign tells the order; the seconds are subtracted where `time_t` is `long`.
unfoldable pub timespec_cmp : Timespec → Timespec → ℤ
timespec_cmp lhs rhs =
    let sec_cmp = sub_ℕ lhs.tv_sec rhs.tv_sec in
    if not (is_zero sec_cmp) then sec_cmp else sub_ℕ lhs.tv_nsec rhs.tv_nsec

-- The nanoseconds of the difference, with the borrow from the seconds when they are negative.
borrow : ℕ → ℤ → Timespec
borrow sec (pos n) = record { tv_sec = sec; tv_nsec = n }
borrow sec (negsuc n) = record { tv_sec = sec - 1; tv_nsec = nsecs_per_sec - (n + 1) }

unfoldable pub timespec_abs_to_rel : (now abs_time : Timespec) → Timespec
unfolding timespec_cmp borrow
timespec_abs_to_rel now abs_time =
    if not (is_neg (timespec_cmp now abs_time))
    then record { tv_sec = 0; tv_nsec = 0 }
    else borrow (abs_time.tv_sec - now.tv_sec) (sub_ℕ abs_time.tv_nsec now.tv_nsec)

-- The seconds are added in a signed 64-bit `time_t`; past its end the code's addition is undefined, and the
-- theorems take the bound.
unfoldable pub get_abs_time_since_now : (now rel_time : Timespec) → Timespec
get_abs_time_since_now now rel_time = record {
  tv_sec = now.tv_sec + (rel_time.tv_sec + (now.tv_nsec + rel_time.tv_nsec) / nsecs_per_sec);
  tv_nsec = (now.tv_nsec + rel_time.tv_nsec) % nsecs_per_sec;
}

unfoldable pub timespec_to_ns : Timespec → ℕ
timespec_to_ns ts =
    let sec = ts.tv_sec % 2 ^ 64 in
    let nsec = ts.tv_nsec % 2 ^ 64 in
    let x = if ltb (uint64_max / nsecs_per_sec) sec then uint64_max else sec * nsecs_per_sec in
    let ret = (x + nsec) % 2 ^ 64 in if ltb ret x then uint64_max else ret
