-- ===== src/Time.antt =====
-- `timespec_diff_ms` and `timespec_add_ms` of lib.c. Seconds are an `int64_t`, and what does not fit
-- wraps round; nanoseconds are those after the second, so not negative.
pub mod Laws
mod Tests
use can_utils.Base.{ℕ, ◌+◌, ◌-◌, ◌*◌, ◌/◌, ◌%◌, ◌^◌, ltb, if◌then◌else◌}
use can_utils.Base.Int.{ℤ, pos, negsuc, pos_part, neg_part, sub_ℕ}

pub record Timespec : Type 0 where
  pub tv_sec : ℤ
  pub tv_nsec : ℕ

-- An integer as a `uint64_t`, and back as an `int64_t`.
abbrev pub as_uint64 : ℤ → ℕ
as_uint64 (pos n) = n % 2 ^ 64
as_uint64 (negsuc n) = 2 ^ 64 - 1 - n % 2 ^ 64

abbrev pub as_int64 : ℕ → ℤ
as_int64 w = if ltb w (2 ^ 63) then pos w else negsuc (2 ^ 64 - 1 - w)

unfoldable pub int64 : ℤ → ℤ
int64 z = as_int64 (as_uint64 z)

-- The quotient rounds towards zero, as that of C does.
unfoldable pub timespec_diff_ms : Timespec → Timespec → ℤ
unfolding int64
timespec_diff_ms ts1 ts2 =
    let sec = int64 (
      sub_ℕ (pos_part ts1.tv_sec + neg_part ts2.tv_sec)
        (neg_part ts1.tv_sec + pos_part ts2.tv_sec)) in
    let diff = int64 (sub_ℕ (pos_part sec * 1000) (neg_part sec * 1000)) in
    let nsec = sub_ℕ ts1.tv_nsec ts2.tv_nsec in
    int64
      (sub_ℕ (pos_part diff + pos_part nsec / 1000000) (neg_part diff + neg_part nsec / 1000000))

unfoldable pub timespec_add_ms : Timespec → ℕ → Timespec
unfolding int64
timespec_add_ms ts milliseconds =
    let total_ns = (ts.tv_nsec + milliseconds * 1000000 % 2 ^ 64) % 2 ^ 64 in
    record {
      tv_sec = int64 (sub_ℕ (pos_part ts.tv_sec + total_ns / 1000000000) (neg_part ts.tv_sec));
      tv_nsec = total_ns % 1000000000;
    }
