-- ===== src/Hex/Laws.antt =====
-- What the digits mean: a digit that is printed reads back.
use can_utils.Base.{
  ℕ, zero, suc, ◌+◌, ◌*◌, ◌/◌, ◌%◌, ◌^◌, ◌≤◌, ◌<◌, max, List, [], ◌∷◌, some, true, ◌≡◌, refl, ap,
  ◌∙◌, arith, ◌==◌, ==_iff, bit_and, bit_or, all_below, all_below_sound, length, get_or,
}
use native.Mathlib.Nat.{div-div-eq-div-mul, div-add-mod}
use native.Mathlib.Numerals.{towards_suc}
use can_utils.Base.Bits.{bit_and_mask, bit_and_field, bit_or_fields}
use can_utils.Hex.{
  hex_asc_upper_lo, hex_asc_upper_hi, put_id, significant, print_hex, nibble, asc2nibble,
  hex_asc_upper,
}

digit_table : all_below 16 (λ x. asc2nibble (hex_asc_upper_lo x) == x) ≡ true
unfolding all_below asc2nibble hex_asc_upper_lo
digit_table = refl

pub lo-mod : (x : ℕ) → hex_asc_upper_lo x ≡ hex_asc_upper_lo (x % 16)
unfolding hex_asc_upper_lo
lo-mod x = ap (λ k. get_or hex_asc_upper k 0) same
  where
    same : bit_and x 0x0F ≡ bit_and (x % 16) 0x0F
    same = omega (arith, bit_and_mask 4 x, bit_and_mask 4 (x % 16))

pub asc2nibble-lo : (x : ℕ) → asc2nibble (hex_asc_upper_lo x) ≡ x % 16
asc2nibble-lo x =
    ap asc2nibble (lo-mod x)
    ∙ (==_iff _ _).0 (all_below_sound 16 _ (x % 16) digit_table (omega arith))

-- A printed digit reads back.
pub nibble-lo : (x : ℕ) → nibble (hex_asc_upper_lo x) ≡ some (x % 16)
unfolding nibble
nibble-lo x = rw asc2nibble-lo (ground arith)

pub hi-lo : (x : ℕ) → hex_asc_upper_hi x ≡ hex_asc_upper_lo (x / 16)
unfolding hex_asc_upper_lo hex_asc_upper_hi
hi-lo x = ap (λ k. get_or hex_asc_upper k 0) same
  where
    same : bit_and x 0xF0 / 2 ^ 4 ≡ bit_and (x / 16) 0x0F
    same = omega (arith, bit_and_field 4 4 x, bit_and_mask 4 (x / 16))

pub pow_nibble : (n : ℕ) → 2 ^ (suc n * 4) ≡ 2 ^ (n * 4) * 16
pow_nibble n = ap (λ k. 2 ^ k) exponent ∙ simp towards_suc (omega arith)
  where
    exponent : suc n * 4 ≡ n * 4 + 4
    exponent = omega arith

pub mod-mul_16 : (p v : ℕ) → v % (p * 16) ≡ v / p % 16 * p + v % p
mod-mul_16 p v =
    let split : v / p ≡ 16 * (v / p / 16) + v / p % 16 = omega arith in
    omega (
      arith,
      div-add-mod v p,
      div-add-mod v (p * 16),
      ap (λ (t : ℕ). p * 16 * t) (div-div-eq-div-mul v p 16),
      ap (λ (t : ℕ). p * t) split,
    )

div_nibble : (n x : ℕ) → x / 16 / 2 ^ (n * 4) ≡ x / 2 ^ (suc n * 4)
div_nibble n x = rw (div-div-eq-div-mul, pow_nibble) (ap (λ k. x / k) (omega arith))

-- The digits come highest first.
pub put_id_high :
    (n id : ℕ) (out : List ℕ)
    → put_id (suc n) id out ≡ hex_asc_upper_lo (id / 2 ^ (n * 4)) ∷ put_id n id out
unfolding put_id
put_id_high zero id out = ap (λ k. hex_asc_upper_lo k ∷ out) (omega arith)
put_id_high (suc n) id out =
    put_id_high n (id / 16) (hex_asc_upper_lo id ∷ out)
    ∙ ap (λ k. hex_asc_upper_lo k ∷ put_id n (id / 16) (hex_asc_upper_lo id ∷ out))
        (div_nibble n id)

pub length-put_id : (n id : ℕ) (out : List ℕ) → length (put_id n id out) ≡ n + length out
unfolding put_id
length-put_id zero id out = omega arith
length-put_id (suc n) id out =
    omega (arith, length-put_id n (id / 2 ^ 4) (hex_asc_upper_lo id ∷ out))

significant-le : (f w x : ℕ) → x < 2 ^ (w * 4) → significant f x ≤ w
unfolding significant
significant-le zero w x h = omega arith
significant-le (suc f) zero x h = ground arith
significant-le (suc f) (suc w) x h = ground (arith, pow_nibble w, significant-le f w (x / 16))

-- A number that fits the width is printed at the width.
pub print_hex_fits : (w x : ℕ) → x < 2 ^ (w * 4) → print_hex w x ≡ put_id w x []
unfolding print_hex
print_hex_fits w x h = ap (λ k. put_id k x []) width
  where
    width : max w (significant 8 x) ≡ w
    width = omega (arith, significant-le 8 w x h)

-- The two nibbles of a byte, joined again.
pub byte_back : (b : ℕ) → b < 256 → bit_or (b / 16 % 16 * 2 ^ 4 % 2 ^ 8) (b % 16) ≡ b
byte_back b h = omega (arith, bit_or_fields 4 (b / 16) (b % 16) (omega arith), same)
  where
    same : bit_or (b / 16 % 16 * 2 ^ 4 % 2 ^ 8) (b % 16) ≡ bit_or (b / 16 * 2 ^ 4) (b % 16)
    same = ap (λ k. bit_or k (b % 16)) (omega arith)
