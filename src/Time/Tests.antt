-- ===== src/Time/Tests.antt =====
-- src/fev_time.h at concrete times.
use libfev.Base.{ℕ, ◌≡◌, refl, leb, ltb, arith, is_neg, is_nonpos}
use libfev.Time.{Timespec, timespec_cmp, timespec_abs_to_rel, get_abs_time_since_now}
use libfev.Time.Laws.{ns, cmp_order, abs_to_rel-since_now}

abbrev at : ℕ → ℕ → Timespec
at s n = record { tv_sec = s; tv_nsec = n }

cmp_order_example :
    (is_neg (timespec_cmp (at 3 999) (at 4 2)) ≡ ltb (ns (at 3 999)) (ns (at 4 2)))
    × (is_nonpos (timespec_cmp (at 3 999) (at 4 2)) ≡ leb (ns (at 3 999)) (ns (at 4 2)))
cmp_order_example = cmp_order (at 3 999) (at 4 2) (omega arith) (omega arith)

borrow_test : timespec_abs_to_rel (at 3 999) (at 5 2) ≡ at 1 999999003
unfolding timespec_abs_to_rel
borrow_test = refl

carry_test : get_abs_time_since_now (at 7 999999999) (at 1 2) ≡ at 9 1
unfolding get_abs_time_since_now
carry_test = refl

abs_to_rel-since_now_example :
    timespec_abs_to_rel (at 7 999999999) (get_abs_time_since_now (at 7 999999999) (at 1 2)) ≡ at 1 2
abs_to_rel-since_now_example =
    abs_to_rel-since_now (at 7 999999999) (at 1 2) (omega arith) (omega arith) (omega arith)
