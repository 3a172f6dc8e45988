-- ===== src/Hex/Tests.antt =====
-- The hex texts of lib.c at concrete inputs.
use can_utils.Base.{ℕ, List, ◌*◌, ◌≤◌, ◌<◌, [], ◌∷◌, All, some, none, ◌≡◌, ◌≢◌, refl, arith, length}
use can_utils.Base.Text.{codes}
use can_utils.Hex.{hexstring2data, hex_pairs, nibble, asc2nibble}
use can_utils.Hex.Strings.{hex_text, hexstring2data-hex_text, hexstring2data_fits}

odd_refused : hexstring2data (codes "123") 8 ≡ none
unfolding hexstring2data hex_pairs nibble asc2nibble
odd_refused = refl

lower_case : hexstring2data (codes "aB01") 8 ≡ some (0xAB ∷ 1 ∷ [])
unfolding hexstring2data hex_pairs nibble asc2nibble
lower_case = refl

abbrev bytes : List ℕ
bytes = 0xAB ∷ 1 ∷ []

two_bytes : bytes ≢ []
two_bytes = ground arith

two_fit : length bytes ≤ 8
two_fit = omega arith

two_small : All (λ b. b < 256) bytes
two_small = ground arith

hexstring2data-hex_text_example : hexstring2data (hex_text bytes) 8 ≡ some bytes
hexstring2data-hex_text_example = hexstring2data-hex_text bytes 8 two_bytes two_fit two_small

hexstring2data_fits_example :
    (length (codes "aB01") ≡ 2 * length bytes)
    × (0 < length bytes)
    × (length bytes ≤ 8)
    × All (λ b. b < 256) bytes
hexstring2data_fits_example = hexstring2data_fits (codes "aB01") 8 lower_case
