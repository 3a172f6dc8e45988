-- ===== src/SlcanPty/Digits.antt =====
-- `strtoul` reads back the digits of an identifier, and `scan_data` those of the data.
use can_utils.Base.{
  ℕ, zero, suc, ◌+◌, ◌*◌, ◌/◌, ◌%◌, ◌^◌, ◌≤◌, ◌<◌, List, [], ◌∷◌, All, Bool, true, false, not, ◌&&◌,
  ◌==◌, ltb, ◌≡◌, refl, ap, arith, length, ◌∙◌, all_below, all_below_sound, subst,
}
use native.Mathlib.Nat.{mod-lt, one-le-pow, lt_of_lt_of_le}
use can_utils.Base.Spells.{Spells}
use can_utils.Hex.{hex_asc_upper_lo, put_id, put_hex_byte}
use can_utils.Hex.Laws.{
  lo-mod, asc2nibble-lo, put_id_high, pow_nibble, mod-mul_16, hi-lo, byte_back,
}
use can_utils.Hex.Strings.{hex_text}
use can_utils.SlcanPty.{Buffer}
use can_utils.SlcanPty.Strtoul.{
  is_space, skip_spaces, skip_prefix, digits_value, limited, with_sign, strtoul16,
}
use can_utils.SlcanPty.Command.{good, scan_data}

-- A digit is no space, no sign and no x.
abbrev plain : ℕ → Bool
plain c =
    not (is_space c)
    && (not (c == b'-') && (not (c == b'+') && (not (c == b'x') && not (c == b'X'))))

plain_table : all_below 16 (λ d. plain (hex_asc_upper_lo d)) ≡ true
unfolding all_below hex_asc_upper_lo
plain_table = refl

plain-lo : (x : ℕ) → plain (hex_asc_upper_lo x) ≡ true
plain-lo x =
    ap plain (lo-mod x)
    ∙ all_below_sound 16 (λ d. plain (hex_asc_upper_lo d)) (x % 16) plain_table (omega arith)

digits_value-put_id :
    (n acc v : ℕ) → digits_value acc (put_id n v []) ≡ acc * 2 ^ (n * 4) + v % 2 ^ (n * 4)
unfolding digits_value put_id
digits_value-put_id zero acc v = omega arith
digits_value-put_id (suc n) acc v =
    rw (put_id_high n v [], asc2nibble-lo, digit, digits_value-put_id n (acc * 16 + d) v)
      (omega (
        arith,
        mod-mul_16 p v,
        ap (λ (t : ℕ). v % t) (pow_nibble n),
        ap (λ (t : ℕ). acc * t) (pow_nibble n),
      ))
  where
    p : ℕ
    p = 2 ^ (n * 4)

    d : ℕ
    d = v / p % 16

    digit : ltb d 16 ≡ true
    digit = ground arith

strtoul16-plain :
    (a b c : ℕ) (s : List ℕ)
    → plain a ≡ true
    → plain b ≡ true
    → digits_value 0 (a ∷ b ∷ c ∷ s) < 2 ^ 64
    → strtoul16 (a ∷ b ∷ c ∷ s) ≡ digits_value 0 (a ∷ b ∷ c ∷ s)
unfolding strtoul16 skip_spaces with_sign skip_prefix limited
strtoul16-plain a b c s ha hb small = ground (arith, ha, hb, small)

-- The digits of an identifier of three or eight digits.
pub strtoul16-put_id :
    (n v : ℕ)
    → 2 ^ (suc (suc (suc n)) * 4) ≤ 2 ^ 64
    → strtoul16 (put_id (suc (suc (suc n))) v []) ≡ v % 2 ^ (suc (suc (suc n)) * 4)
strtoul16-put_id n v fits =
    rw (put_id_high (suc (suc n)) v [], put_id_high (suc n) v [], put_id_high n v [])
      (strtoul16-plain a b c s (plain-lo _) (plain-lo _) (rw value small) ∙ value)
  where
    p : ℕ
    p = 2 ^ (suc (suc (suc n)) * 4)

    a : ℕ
    a = hex_asc_upper_lo (v / 2 ^ (suc (suc n) * 4))

    b : ℕ
    b = hex_asc_upper_lo (v / 2 ^ (suc n * 4))

    c : ℕ
    c = hex_asc_upper_lo (v / 2 ^ (n * 4))

    s : List ℕ
    s = put_id n v []

    split : put_id (suc (suc (suc n))) v [] ≡ a ∷ b ∷ c ∷ s
    split = rw (put_id_high (suc (suc n)) v [], put_id_high (suc n) v [], put_id_high n v []) refl

    value : digits_value 0 (a ∷ b ∷ c ∷ s) ≡ v % p
    value = rw (← split, digits_value-put_id (suc (suc (suc n))) 0 v) (omega arith)

    small : v % p < 2 ^ 64
    small = lt_of_lt_of_le (mod-lt v (one-le-pow (suc (suc (suc n)) * 4) 2 (omega arith))) fits

small_digit : (x : ℕ) → ltb 15 (x % 16) ≡ false
small_digit x = ground arith

pub scan_data-hex_text :
    (buf : Buffer) (ptr : ℕ) (bytes : List ℕ)
    → All (λ b. b < 256) bytes
    → Spells buf ptr (hex_text bytes)
    → scan_data buf ptr (length bytes) ≡ good bytes (ptr + 2 * length bytes)
unfolding scan_data put_hex_byte
scan_data-hex_text buf ptr [] small h = ap (good []) (omega arith)
scan_data-hex_text buf ptr (b ∷ bytes) small (hi, (lo, rest)) =
    let next : scan_data buf (ptr + 2) (length bytes) ≡ good bytes (ptr + 2 + 2 * length bytes) =
      scan_data-hex_text buf (ptr + 2) bytes small.1
        (subst (λ k. Spells buf k (hex_text bytes)) {x = ptr + 1 + 1} (omega arith) rest) in
    rw
      (
        hi,
        lo,
        hi-lo,
        asc2nibble-lo,
        asc2nibble-lo,
        next,
        byte_back b small.0,
        small_digit,
        small_digit,
      )
      (ap (good (b ∷ bytes)) (omega arith))
