-- ===== src/SlcanPty/Room.antt =====
-- The room that the line of a frame takes.
use can_utils.Base.{
  ℕ, zero, suc, ◌+◌, ◌*◌, ◌/◌, ◌%◌, ◌^◌, ◌≤◌, ◌<◌, List, [], ◌∷◌, All, Option, none, some, ◌∙◌, ◌≡◌,
  refl, ap, arith, length, length-append, get_or, bit_and,
}
use can_utils.Base.Bits.{bit_and_mask}
use can_utils.Frame.{can_eff_mask, can_sff_mask}
use can_utils.Hex.{print_hex}
use can_utils.Hex.Laws.{print_hex_fits, length-put_id}
use can_utils.SlcanPty.{SlcFrame}
use can_utils.SlcanPty.Print.{put_decimal, put_bytes, put_head, put_stamp, can2pty, slc_mtu}

length-print_hex : (w x : ℕ) → x < 2 ^ (w * 4) → length (print_hex w x) ≡ w
length-print_hex w x h = ap length (print_hex_fits w x h) ∙ length-put_id w x [] ∙ omega arith

get_or-lt : (bs : List ℕ) (i : ℕ) → All (λ b. b < 256) bs → get_or bs i 0 < 256
get_or-lt [] i h = omega arith
get_or-lt (b ∷ bs) zero h = h.0
get_or-lt (b ∷ bs) (suc i) h = get_or-lt bs i h.1

length-put_bytes :
    (f : SlcFrame) (i n : ℕ) → All (λ b. b < 256) f.bytes → length (put_bytes f i n) ≡ 2 * n
unfolding put_bytes
length-put_bytes f i zero h = refl
length-put_bytes f i (suc n) h = omega (
  arith,
  length-append (print_hex 2 (get_or f.bytes i 0)) (put_bytes f (i + 1) n),
  length-print_hex 2 (get_or f.bytes i 0) (get_or-lt f.bytes i h),
  length-put_bytes f (i + 1) n h,
)

put_head-le : (f : SlcFrame) → length (put_head f) ≤ 9
unfolding put_head
put_head-le f = ground (
  arith,
  length-print_hex 8 (bit_and f.can_id can_eff_mask) (omega (arith, bit_and_mask 29 f.can_id)),
  length-print_hex 3 (bit_and f.can_id can_sff_mask) (omega (arith, bit_and_mask 11 f.can_id)),
)

-- The microseconds of a time stamp are less than a second.
abbrev pub IsTime : Option (ℕ × ℕ) → Type 0
IsTime none = Unit
IsTime (some time) = time.1 < 1000000

put_stamp-le : (time : Option (ℕ × ℕ)) → IsTime time → length (put_stamp time) ≤ 4
unfolding put_stamp
put_stamp-le none h = omega arith
put_stamp-le (some (tv_sec, tv_usec)) h =
    omega (arith, length-print_hex 4 (tv_sec % 60 * 1000 + tv_usec / 1000) (omega (arith, h)))

put_decimal-le : (n : ℕ) → n ≤ 8 → length (put_decimal n) ≤ 1
unfolding put_decimal
put_decimal-le n h = ground arith

-- Of a frame with at most eight data bytes and a time whose microseconds are less than a second,
-- the line fits the buffer of `can2pty` with its terminating NUL, whatever the identifier.
pub can2pty_fits :
    (f : SlcFrame) (time : Option (ℕ × ℕ))
    → f.can_dlc ≤ 8
    → All (λ b. b < 256) f.bytes
    → IsTime time
    → length (can2pty f time) + 1 ≤ slc_mtu
unfolding can2pty
can2pty_fits f time dlc byte h = omega (
  arith,
  length-append (put_head f) _,
  length-append (put_decimal f.can_dlc) _,
  length-append (put_bytes f 0 f.can_dlc) _,
  length-append (put_stamp time) (b'\r' ∷ []),
  put_head-le f,
  put_decimal-le f.can_dlc dlc,
  length-put_bytes f 0 f.can_dlc byte,
  put_stamp-le time h,
  dlc,
)
