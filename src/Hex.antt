-- ===== src/Hex.antt =====
-- Hex digits: the tables and helpers at the top of lib.c.
pub mod Laws
pub mod Strings
mod Tests
use can_utils.Base.{
  ℕ, zero, suc, ◌+◌, ◌-◌, ◌*◌, ◌/◌, ◌%◌, List, [], ◌∷◌, ◌++◌, Bool, true, false, ◌&&◌, ◌||◌, Option,
  none, some, ◌^◌, bit_and, bit_or, ltb, leb, ◌==◌, if◌then◌else◌, length, get_or, is_set, max,
  ◌>>=◌,
}

-- `hex_asc_upper`
abbrev pub hex_asc_upper : List ℕ
hex_asc_upper =
    b'0' ∷ b'1' ∷ b'2' ∷ b'3' ∷ b'4' ∷ b'5' ∷ b'6' ∷ b'7' ∷ b'8' ∷ b'9' ∷ b'A' ∷ b'B' ∷ b'C' ∷ b'D'
    ∷ b'E' ∷ b'F' ∷ []

unfoldable pub hex_asc_upper_lo : ℕ → ℕ
hex_asc_upper_lo x = get_or hex_asc_upper (bit_and x 0x0F) 0

unfoldable pub hex_asc_upper_hi : ℕ → ℕ
hex_asc_upper_hi x = get_or hex_asc_upper (bit_and x 0xF0 / 2 ^ 4) 0

-- The two characters that `put_hex_byte` writes.
unfoldable pub put_hex_byte : ℕ → List ℕ
unfolding hex_asc_upper_hi hex_asc_upper_lo
put_hex_byte byte = hex_asc_upper_hi byte ∷ hex_asc_upper_lo byte ∷ []

-- `_put_id` from its last position down, with `n` positions left: what stands behind them is `out`.
unfoldable pub put_id : ℕ → ℕ → List ℕ → List ℕ
unfolding hex_asc_upper_lo
put_id zero id out = out
put_id (suc n) id out = put_id n (id / 2 ^ 4) (hex_asc_upper_lo id ∷ out)

-- 3 digits and 8 digits.
unfoldable pub put_sff_id : ℕ → List ℕ
unfolding put_id
put_sff_id id = put_id 3 id []

unfoldable pub put_eff_id : ℕ → List ℕ
unfolding put_id
put_eff_id id = put_id 8 id []

-- The digits of a number that are not leading zeros, at most `n`.
unfoldable pub significant : ℕ → ℕ → ℕ
significant zero x = 0
significant (suc n) x = elim (x == 0) [ true ↦ 0 | false ↦ suc (significant n (x / 16)) ]

-- The conversion `%0wX` of printf at an `unsigned int`: at least `w` upper-case digits.
unfoldable pub print_hex : ℕ → ℕ → List ℕ
unfolding put_id significant
print_hex w x = put_id (max w (significant 8 x)) x []

unfoldable pub asc2nibble : ℕ → ℕ
asc2nibble c =
    if leb b'0' c && leb c b'9'
    then c - b'0'
    else if leb b'A' c && leb c b'F'
    then c - b'A' + 10
    else if leb b'a' c && leb c b'f'
    then c - b'a' + 10
    else 16

-- `(tmp = asc2nibble(c)) > 0x0F` is an error wherever lib.c reads a digit.
unfoldable pub nibble : ℕ → Option ℕ
unfolding asc2nibble
nibble c = let tmp = asc2nibble c in if ltb 0x0F tmp then none else some tmp

-- The loop of `hexstring2data` over the pairs that are left: `none` is its error return. An odd
-- end is never reached, since the length is tested first.
unfoldable pub hex_pairs : List ℕ → Option (List ℕ)
unfolding nibble
hex_pairs (a ∷ b ∷ s) = do
  hi ← nibble a
  lo ← nibble b
  bytes ← hex_pairs s
  some (bit_or (hi * 2 ^ 4 % 2 ^ 8) lo ∷ bytes)
hex_pairs _ = some []

-- `hexstring2data`: the bytes before the zeros that `memset` leaves behind them, or the error.
unfoldable pub hexstring2data : List ℕ → ℕ → Option (List ℕ)
unfolding hex_pairs
hexstring2data arg maxdlen =
    let len = length arg in
    if len == 0 || is_set (len % 2) || ltb (maxdlen * 2) len then none else hex_pairs arg
