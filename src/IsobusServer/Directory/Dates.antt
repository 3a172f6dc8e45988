-- ===== src/IsobusServer/Directory/Dates.antt =====
-- The file dates and times of isobusfs/isobusfs_srv_fa.c, read back.
use can_utils.Base.{
  ℕ, ◌+◌, ◌*◌, ◌/◌, ◌%◌, ◌^◌, ◌≤◌, ◌<◌, ◌≡◌, refl, ap, ◌∙◌, bit_or, Option, none, some, arith, inl,
  inr, Bool, Bool-cases, false, ltb, ◌-◌, if◌then◌else◌,
}
use can_utils.Base.Int.{ℤ, pos, negsuc}
use can_utils.Base.Bits.{bit_or_fields}
use can_utils.IsobusServer.Directory.{
  Tm, file_year, date_word, time_word, convert_to_file_date, convert_to_file_time,
}

-- What localtime gives is a date and a time of day.
abbrev pub IsTime : Option Tm → Type 0
IsTime none = Unit {0}
IsTime (some t) =
    (t.tm_mon < 12) × (t.tm_mday < 32) × (t.tm_hour < 24) × (t.tm_min < 60) × (t.tm_sec ≤ 60)

-- A date from 1980 to 2107, by the years since 1900; others cannot be written.
abbrev pub since_1980 : ℤ → ℕ → ℕ → ℕ × ℕ × ℕ
since_1980 (pos n) month day =
    if ltb n 80 then (0, 0, 0) else if ltb 207 n then (0, 0, 0) else (n - 80, month, day)
since_1980 (negsuc n) month day = (0, 0, 0)

-- The date as it stands in the word: year from 1980, month and day.
abbrev pub date_of : Option Tm → ℕ × ℕ × ℕ
date_of none = (0, 0, 0)
date_of (some t) = since_1980 t.tm_year (t.tm_mon + 1) t.tm_mday

abbrev pub time_of : Option Tm → ℕ × ℕ × ℕ
time_of none = (0, 0, 0)
time_of (some t) = (t.tm_hour, t.tm_min, t.tm_sec / 2)

date_word-fields : (y m d : ℕ) → y < 128 → m < 16 → d < 32 → date_word y m d ≡ y * 512 + m * 32 + d
date_word-fields y m d hy hm hd =
    ap (λ (x : ℕ). bit_or x d % 2 ^ 16) (bit_or_fields 9 y (m * 2 ^ 5) (omega arith))
    ∙ ap (λ (x : ℕ). bit_or x d % 2 ^ 16) (regroup)
    ∙ ap (λ (x : ℕ). x % 2 ^ 16) (bit_or_fields 5 (y * 16 + m) d hd)
    ∙ omega arith
  where
    regroup : y * 2 ^ 9 + m * 2 ^ 5 ≡ (y * 16 + m) * 2 ^ 5
    regroup = omega arith

time_word-fields : (h m s : ℕ) → h < 32 → m < 64 → s < 32 → time_word h m s ≡ h * 2048 + m * 32 + s
time_word-fields h m s hh hm hs =
    ap (λ (x : ℕ). bit_or x s % 2 ^ 16) (bit_or_fields 11 h (m * 2 ^ 5) (omega arith))
    ∙ ap (λ (x : ℕ). bit_or x s % 2 ^ 16) regroup
    ∙ ap (λ (x : ℕ). x % 2 ^ 16) (bit_or_fields 5 (h * 64 + m) s hs)
    ∙ omega arith
  where
    regroup : h * 2 ^ 11 + m * 2 ^ 5 ≡ (h * 64 + m) * 2 ^ 5
    regroup = omega arith

-- The word below 2^16, and the fields of ISO 11783-13, B.24 and B.25.
abbrev pub Dated : ℕ → ℕ × ℕ × ℕ → Type 0
Dated w f = (w < 2 ^ 16) × (w / 512 ≡ f.0) × (w / 32 % 16 ≡ f.1) × (w % 32 ≡ f.2)

abbrev pub Timed : ℕ → ℕ × ℕ × ℕ → Type 0
Timed w f = (w < 2 ^ 16) × (w / 2048 ≡ f.0) × (w / 32 % 64 ≡ f.1) × (w % 32 ≡ f.2)

date_word-Dated : (y m d : ℕ) → y < 128 → m < 16 → d < 32 → Dated (date_word y m d) (y, m, d)
date_word-Dated y m d hy hm hd =
    rw (date_word-fields y m d hy hm hd) (omega arith, omega arith, omega arith, omega arith)

year-Dated :
    (z : ℤ) (m d : ℕ)
    → m < 16
    → d < 32
    → Dated (elim (file_year z) [ none ↦ 0 | some year ↦ date_word year m d ]) (since_1980 z m d)
year-Dated (negsuc n) m d hm hd = (omega arith, refl, refl, refl)
year-Dated (pos n) m d hm hd = elim (Bool-cases (ltb n 80)) [
  | inl early ↦ rw early (omega arith, refl, refl, refl)
  | inr late ↦ elim (Bool-cases (ltb 207 n)) [
    | inl out ↦ rw (late, out, past out late) (omega arith, refl, refl, refl)
    | inr in_range ↦
        rw (late, in_range, past in_range late)
          (date_word-Dated (n - 80) m d (ground (arith, in_range)) hm hd)
  ]
]
  where
    past : {b : Bool} → ltb 207 n ≡ b → ltb n 80 ≡ false → ltb 127 (n - 80) ≡ b
    past e late = same late ∙ e
      where
        same : ltb n 80 ≡ false → ltb 127 (n - 80) ≡ ltb 207 n
        same l = ground (arith, l)

pub file_date-Dated : (t : Option Tm) → IsTime t → Dated (convert_to_file_date t) (date_of t)
unfolding convert_to_file_date
file_date-Dated none h = (omega arith, refl, refl, refl)
file_date-Dated (some t) h = year-Dated t.tm_year (t.tm_mon + 1) t.tm_mday (omega arith) h.1

pub file_time-Timed : (t : Option Tm) → IsTime t → Timed (convert_to_file_time t) (time_of t)
unfolding convert_to_file_time
file_time-Timed none h = (omega arith, refl, refl, refl)
file_time-Timed (some t) h =
    rw
      (time_word-fields t.tm_hour t.tm_min (t.tm_sec / 2) (omega arith) (omega arith) (omega arith))
      (omega arith, omega arith, omega arith, omega arith)
