-- ===== src/SlcanPty/Strtoul.antt =====
-- `strtoul` of the C library, in base 16, as `pty2can` calls it: on the characters before the
-- terminating NUL.
use can_utils.Base.{
  ℕ, ◌+◌, ◌-◌, ◌*◌, ◌%◌, ◌^◌, List, [], ◌∷◌, Bool, true, false, ◌&&◌, ◌||◌, ◌==◌, ltb, leb,
  if◌then◌else◌,
}
use can_utils.Hex.{asc2nibble}

-- A space, or one of the characters 9 to 13.
abbrev pub is_space : ℕ → Bool
is_space c = c == b' ' || (leb 9 c && leb c 13)

unfoldable pub skip_spaces : List ℕ → List ℕ
skip_spaces [] = []
skip_spaces (c ∷ s) = if is_space c then skip_spaces s else c ∷ s

abbrev pub is_digit : ℕ → Bool
is_digit c = ltb (asc2nibble c) 16

-- The prefix 0x, if a digit follows.
unfoldable pub skip_prefix : List ℕ → List ℕ
skip_prefix (a ∷ b ∷ c ∷ s) =
    if a == b'0' && ((b == b'x' || b == b'X') && is_digit c) then c ∷ s else a ∷ b ∷ c ∷ s
skip_prefix s = s

unfoldable pub digits_value : ℕ → List ℕ → ℕ
digits_value acc [] = acc
digits_value acc (c ∷ s) =
    let rest = digits_value (acc * 16 + asc2nibble c) s in if is_digit c then rest else acc

-- An unsigned long of 64 bits; a value that does not fit is ULONG_MAX, and a minus negates.
unfoldable pub limited : Bool → ℕ → ℕ
limited negative v =
    if leb (2 ^ 64) v then 2 ^ 64 - 1 else if negative then (2 ^ 64 - v) % 2 ^ 64 else v

unfoldable pub with_sign : List ℕ → ℕ
with_sign [] = 0
with_sign (c ∷ s) =
    if c == b'-'
    then limited true (digits_value 0 (skip_prefix s))
    else if c == b'+'
    then limited false (digits_value 0 (skip_prefix s))
    else limited false (digits_value 0 (skip_prefix (c ∷ s)))

unfoldable pub strtoul16 : List ℕ → ℕ
strtoul16 s = with_sign (skip_spaces s)
