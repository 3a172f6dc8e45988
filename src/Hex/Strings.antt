-- ===== src/Hex/Strings.antt =====
-- `hexstring2data`: what it accepts, and that it reads back what `put_hex_byte` writes.
use can_utils.Base.{
  ℕ, ◌+◌, ◌*◌, ◌/◌, ◌%◌, ◌^◌, ◌≤◌, ◌<◌, List, [], ◌∷◌, ◌++◌, All, some, Bool, ◌≡◌, ◌≢◌, refl, ap,
  ◌⊎◌, inl, inr, arith, length, bit_or, ◌||◌, ltb, ◌==◌, is_set, Bool-cases, subst, false, Option,
  none, ◌>>=◌,
}
use mathlib.Core.Option.{some-injective}
use can_utils.Base.Bits.{bit_or_fields}
use can_utils.Hex.{put_hex_byte, hex_pairs, hexstring2data, nibble}
use can_utils.Hex.Laws.{nibble-lo, hi-lo, byte_back}

nibble-lt : (c d : ℕ) → nibble c ≡ some d → d < 16
unfolding nibble
nibble-lt c d h = ground arith

joined-lt : (hi lo : ℕ) → hi < 16 → lo < 16 → bit_or (hi * 2 ^ 4 % 2 ^ 8) lo < 256
joined-lt hi lo h l = omega (arith, bit_or_fields 4 hi lo l, same)
  where
    same : bit_or (hi * 2 ^ 4 % 2 ^ 8) lo ≡ bit_or (hi * 2 ^ 4) lo
    same = ap (λ k. bit_or k lo) (omega arith)

-- The text of a list of bytes.
abbrev pub hex_text : List ℕ → List ℕ
hex_text [] = []
hex_text (b ∷ bs) = put_hex_byte b ++ hex_text bs

pub length-hex_text : (bs : List ℕ) → length (hex_text bs) ≡ 2 * length bs
unfolding put_hex_byte
length-hex_text [] = refl
length-hex_text (b ∷ bs) = omega (arith, length-hex_text bs)

hex_pairs-hex_text : (bs : List ℕ) → All (λ b. b < 256) bs → hex_pairs (hex_text bs) ≡ some bs
unfolding hex_pairs put_hex_byte
hex_pairs-hex_text [] h = refl
hex_pairs-hex_text (b ∷ bs) h =
    rw (hi-lo b, nibble-lo (b / 16), nibble-lo b, hex_pairs-hex_text bs h.1)
      (ap (λ k. some (k ∷ bs)) (byte_back b h.0))

-- One or more bytes that fit the buffer, however many, come back from their hex digits.
pub hexstring2data-hex_text :
    (bs : List ℕ) (maxdlen : ℕ)
    → bs ≢ []
    → length bs ≤ maxdlen
    → All (λ b. b < 256) bs
    → hexstring2data (hex_text bs) maxdlen ≡ some bs
unfolding hexstring2data
hexstring2data-hex_text [] maxdlen ne fits h = absurd (ne refl)
hexstring2data-hex_text (b ∷ bs) maxdlen ne fits h =
    rw (hex_pairs-hex_text (b ∷ bs) h) (ground (arith, length-hex_text (b ∷ bs)))

record Decoded (arg bs : List ℕ) : Type 0 where
  pub half : (length arg ≡ 2 * length bs) ⊎ (length arg ≡ 2 * length bs + 1)
  pub bytes : All (λ b. b < 256) bs

Decoded-cons :
    (a b hi lo : ℕ) (s rest bs : List ℕ)
    → nibble a ≡ some hi
    → nibble b ≡ some lo
    → Decoded s rest
    → bit_or (hi * 2 ^ 4 % 2 ^ 8) lo ∷ rest ≡ bs
    → Decoded (a ∷ b ∷ s) bs
Decoded-cons a b hi lo s rest bs eh el d e = subst (Decoded (a ∷ b ∷ s)) e (record {
  half = omega (arith, d.half);
  bytes = (joined-lt hi lo (nibble-lt a hi eh) (nibble-lt b lo el), d.bytes);
})

pairs_inv :
    (first second : Option ℕ) (others : Option (List ℕ)) (bs : List ℕ)
    → (do hi ← first; lo ← second; rest ← others; some (bit_or (hi * 2 ^ 4 % 2 ^ 8) lo ∷ rest))
      ≡ some bs
    → (hi : ℕ) × (lo : ℕ) × (rest : List ℕ) × (first ≡ some hi)
      × (second ≡ some lo)
      × (others ≡ some rest)
      × (bit_or (hi * 2 ^ 4 % 2 ^ 8) lo ∷ rest ≡ bs)
pairs_inv none second others bs h = cc
pairs_inv (some hi) none others bs h = cc
pairs_inv (some hi) (some lo) none bs h = cc
pairs_inv (some hi) (some lo) (some rest) bs h =
    (hi, lo, rest, refl, refl, refl, some-injective _ _ h)

hex_pairs-Decoded : (arg : List ℕ) {bs : List ℕ} → hex_pairs arg ≡ some bs → Decoded arg bs
unfolding hex_pairs
hex_pairs-Decoded [] h = ground arith
hex_pairs-Decoded (a ∷ []) h = ground arith
hex_pairs-Decoded (a ∷ b ∷ s) {bs} h =
    let (hi, lo, rest, eh, el, er, m) = pairs_inv (nibble a) (nibble b) (hex_pairs s) bs h in
    Decoded-cons a b hi lo s rest bs eh el (hex_pairs-Decoded s er) m

rejects : ℕ → ℕ → Bool
rejects len maxdlen = len == 0 || is_set (len % 2) || ltb (maxdlen * 2) len

accepted :
    (len maxdlen : ℕ)
    → rejects len maxdlen ≡ false
    → (0 < len) × (len % 2 ≡ 0) × (len ≤ maxdlen * 2)
unfolding rejects
accepted len maxdlen h = ground arith

-- What is accepted has two digits for each byte, fits the buffer, and holds bytes.
pub hexstring2data_fits :
    (arg : List ℕ) (maxdlen : ℕ) {bs : List ℕ}
    → hexstring2data arg maxdlen ≡ some bs
    → (length arg ≡ 2 * length bs) × (0 < length bs) × (length bs ≤ maxdlen) × All (λ b. b < 256) bs
unfolding hexstring2data rejects
hexstring2data_fits arg maxdlen h = elim (Bool-cases (rejects (length arg) maxdlen)) [
  | inl bad ↦ cc (rw bad at h)
  | inr good ↦
      let facts = accepted (length arg) maxdlen good in
      let pairs = hex_pairs-Decoded arg (rw good at h) in
      (
        omega (arith, facts, pairs.half),
        omega (arith, facts, pairs.half),
        omega (arith, facts, pairs.half),
        pairs.bytes,
      )
]
