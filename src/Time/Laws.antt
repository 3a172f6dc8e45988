-- ===== src/Time/Laws.antt =====
-- Sums and differences of times.
use can_utils.Base.{ℕ, ◌+◌, ◌-◌, ◌*◌, ◌/◌, ◌%◌, ◌^◌, ◌≤◌, ◌<◌, ◌≡◌, ◌∙◌, ap, refl, arith}
use can_utils.Base.Int.{ℤ, pos, negsuc, pos_part, neg_part, sub_ℕ, sub_ℕ_parts}
use can_utils.Time.{Timespec, int64, timespec_diff_ms, timespec_add_ms}

-- The seconds are an `int64_t`, and the nanoseconds are less than a second.
pub record IsTimespec (ts : Timespec) : Type 0 where
  pub after : pos_part ts.tv_sec < 2 ^ 63
  pub before : neg_part ts.tv_sec ≤ 2 ^ 63
  pub nsec : ts.tv_nsec < 1000000000

-- What fits does not wrap.
int64_fits : (z : ℤ) → pos_part z < 2 ^ 63 → neg_part z ≤ 2 ^ 63 → int64 z ≡ z
unfolding int64
int64_fits (pos n) h k = ground arith
int64_fits (negsuc n) h k = ground arith

int64-sub_ℕ :
    (a b : ℕ)
    → a < b + 2 ^ 63
    → b ≤ a + 2 ^ 63
    → (pos_part (int64 (sub_ℕ a b)) ≡ a - b) × (neg_part (int64 (sub_ℕ a b)) ≡ b - a)
int64-sub_ℕ a b h k =
    let parts = sub_ℕ_parts a b in
    let same = int64_fits (sub_ℕ a b) (omega (arith, parts.0)) (omega (arith, parts.1)) in
    (ap pos_part same ∙ parts.0, ap neg_part same ∙ parts.1)

parts-pos : (z : ℤ) (m : ℕ) → pos_part z ≡ m → neg_part z ≡ 0 → z ≡ pos m
parts-pos (pos n) m h k = ap pos h
parts-pos (negsuc n) m h k = absurd (omega arith)

-- The terms of the difference of the seconds that count for the first time.
abbrev pub secs : Timespec → Timespec → ℕ
secs ts1 ts2 = pos_part ts1.tv_sec + neg_part ts2.tv_sec

-- 9 * 10^15 seconds; their milliseconds fit an `int64_t`.
abbrev pub limit : ℕ
limit = 9000000000000000

-- The milliseconds of the difference that count for the first time.
abbrev millis : Timespec → Timespec → ℕ
millis ts1 ts2 = (secs ts1 ts2 - secs ts2 ts1) * 1000 + (ts1.tv_nsec - ts2.tv_nsec) / 1000000

with_nsec :
    (sec nsec : ℤ) (a b c d : ℕ)
    → (pos_part sec ≡ a - b) × (neg_part sec ≡ b - a)
    → (pos_part nsec ≡ c - d) × (neg_part nsec ≡ d - c)
    → a < b + limit
    → b < a + limit
    → c < 1000000000
    → d < 1000000000
    → let diff = int64 (sub_ℕ (pos_part sec * 1000) (neg_part sec * 1000)) in
      let sum = int64 (
        sub_ℕ
          (pos_part diff + pos_part nsec / 1000000)
          (neg_part diff + neg_part nsec / 1000000)) in
      let x : ℕ = (a - b) * 1000 + (c - d) / 1000000 in
      let y : ℕ = (b - a) * 1000 + (d - c) / 1000000 in
      (pos_part sum ≡ x - y) × (neg_part sum ≡ y - x)
with_nsec sec nsec a b c d s n h k hc hd =
    let diff = int64 (sub_ℕ (pos_part sec * 1000) (neg_part sec * 1000)) in
    let parts =
      int64-sub_ℕ (pos_part sec * 1000) (neg_part sec * 1000) (omega (arith, s))
        (omega (arith, s)) in
    let sum =
      int64-sub_ℕ (pos_part diff + pos_part nsec / 1000000)
        (neg_part diff + neg_part nsec / 1000000) (omega (arith, s, n, parts))
        (omega (arith, s, n, parts)) in
    (omega (arith, s, n, parts, sum), omega (arith, s, n, parts, sum))

timespec_diff_ms_parts :
    (ts1 ts2 : Timespec)
    → ts1.tv_nsec < 1000000000
    → ts2.tv_nsec < 1000000000
    → secs ts1 ts2 < secs ts2 ts1 + limit
    → secs ts2 ts1 < secs ts1 ts2 + limit
    → (pos_part (timespec_diff_ms ts1 ts2) ≡ millis ts1 ts2 - millis ts2 ts1)
      × (neg_part (timespec_diff_ms ts1 ts2) ≡ millis ts2 ts1 - millis ts1 ts2)
unfolding timespec_diff_ms
timespec_diff_ms_parts ts1 ts2 n1 n2 h k =
    let parts =
      int64-sub_ℕ (secs ts1 ts2) (neg_part ts1.tv_sec + pos_part ts2.tv_sec) (omega arith)
        (omega arith) in
    with_nsec _ _ (secs ts1 ts2) (secs ts2 ts1) ts1.tv_nsec ts2.tv_nsec
      (omega (arith, parts.0), omega (arith, parts.1)) (sub_ℕ_parts ts1.tv_nsec ts2.tv_nsec) h k n1
      n2

module _ (ts : Timespec) (milliseconds : ℕ) (v : IsTimespec ts)
    (fits : ts.tv_nsec + milliseconds * 1000000 < 2 ^ 64)
    (early : pos_part ts.tv_sec + (ts.tv_nsec + milliseconds * 1000000) / 1000000000 < 2 ^ 63) where
  add_parts :
      let q = (ts.tv_nsec + milliseconds * 1000000) / 1000000000 in
      let r = timespec_add_ms ts milliseconds in
      (pos_part r.tv_sec ≡ pos_part ts.tv_sec + q - neg_part ts.tv_sec)
      × (neg_part r.tv_sec ≡ neg_part ts.tv_sec - (pos_part ts.tv_sec + q))
      × (r.tv_nsec ≡ (ts.tv_nsec + milliseconds * 1000000) % 1000000000)
  unfolding timespec_add_ms
  add_parts =
      let total : ℕ = (ts.tv_nsec + milliseconds * 1000000 % 2 ^ 64) % 2 ^ 64 in
      let sum : total ≡ ts.tv_nsec + milliseconds * 1000000 = omega (arith, fits) in
      rw sum (
        let parts =
          int64-sub_ℕ (pos_part ts.tv_sec + (ts.tv_nsec + milliseconds * 1000000) / 1000000000)
            (neg_part ts.tv_sec) (omega (arith, early)) (omega (arith, v.before)) in
        (parts.0, parts.1, refl))

  -- A time with milliseconds added is a time again, and differs from the first by exactly these
  -- milliseconds, if their nanoseconds with those of the time fit 64 bits and the seconds of the sum
  -- an `int64_t`.
  pub timespec_diff_ms-timespec_add_ms :
      IsTimespec (timespec_add_ms ts milliseconds)
      × (timespec_diff_ms (timespec_add_ms ts milliseconds) ts ≡ pos milliseconds)
  timespec_diff_ms-timespec_add_ms =
      let r = add_parts in
      let sum : Timespec = timespec_add_ms ts milliseconds in
      let valid : IsTimespec sum = record {
        after = omega (arith, r, early);
        before = omega (arith, r, v.before);
        nsec = omega (arith, r.2);
      } in
      let parts =
        timespec_diff_ms_parts sum ts valid.nsec v.nsec (omega (arith, r, fits))
          (omega (arith, r, fits)) in
      (
        valid,
        parts-pos (timespec_diff_ms sum ts) milliseconds (omega (arith, parts.0, r, v.nsec))
            (omega (arith, parts.1, r, v.nsec)),
      )

-- The time in nanoseconds, by the terms that count for the first of two times.
abbrev pub in_ns : Timespec → Timespec → ℕ
in_ns ts1 ts2 = secs ts1 ts2 * 1000000000 + ts1.tv_nsec

-- For two times whose seconds are less than 9 * 10^15 apart, on either side of the epoch, nothing
-- wraps round: the difference is less than a millisecond away from that of their nanoseconds.
pub timespec_diff_ms_near :
    (ts1 ts2 : Timespec)
    → IsTimespec ts1
    → IsTimespec ts2
    → secs ts1 ts2 < secs ts2 ts1 + limit
    → secs ts2 ts1 < secs ts1 ts2 + limit
    → (pos_part (timespec_diff_ms ts1 ts2) * 1000000 + in_ns ts2 ts1
        < neg_part (timespec_diff_ms ts1 ts2) * 1000000 + in_ns ts1 ts2 + 1000000)
      × (neg_part (timespec_diff_ms ts1 ts2) * 1000000 + in_ns ts1 ts2
          < pos_part (timespec_diff_ms ts1 ts2) * 1000000 + in_ns ts2 ts1 + 1000000)
timespec_diff_ms_near ts1 ts2 v w h k =
    let parts = timespec_diff_ms_parts ts1 ts2 v.nsec w.nsec h k in
    (omega (arith, parts), omega (arith, parts))
