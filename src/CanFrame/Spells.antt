-- ===== src/CanFrame/Spells.antt =====
-- What stands where in a string: the bridge from a printed text to the indexed reads of the parser.
use can_utils.Base.{
  ℕ, zero, suc, ◌+◌, ◌*◌, ◌/◌, ◌%◌, ◌^◌, ◌≤◌, ◌<◌, List, [], ◌∷◌, ◌++◌, All, none, some, ◌≡◌, ◌≢◌,
  refl, ap, subst, ◌⊎◌, inl, inr, arith, length, length-append, bit_or,
}
use native.Mathlib.Nat.{one-le-pow}
use can_utils.Base.Bits.{bit_or_fields}
use can_utils.Hex.{hex_asc_upper_lo, nibble, put_id}
use can_utils.Hex.Laws.{nibble-lo, put_id_high, pow_nibble, mod-mul_16}
use can_utils.CanFrame.Parse.{char_at, read_digits}
use can_utils.Base.Spells.{Spells-shift}
pub use can_utils.Base.Spells.{Spells, Spells-append, Spells-drop}

shifted :
    (s : List ℕ) (after : ℕ → ℕ) (c k : ℕ) → char_at (c ∷ s) after (1 + k) ≡ char_at s after (0 + k)
unfolding char_at
shifted s after c k = ap (char_at (c ∷ s) after) {y = suc (0 + k)} (omega arith)

pub Spells-char_at : (s : List ℕ) (after : ℕ → ℕ) → Spells (char_at s after) 0 s
unfolding char_at
Spells-char_at [] after = tt
Spells-char_at (c ∷ s) after =
    (refl, Spells-shift _ (char_at s after) 1 0 s (shifted s after c) (Spells-char_at s after))

pub char_at_end : (s : List ℕ) (after : ℕ → ℕ) → char_at s after (length s) ≡ 0
unfolding char_at
char_at_end [] after = refl
char_at_end (c ∷ s) after = char_at_end s after

pub front-Spells : (p s : List ℕ) (after : ℕ → ℕ) → Spells (char_at (p ++ s) after) 0 p
front-Spells p s after = (Spells-append _ 0 p s (Spells-char_at (p ++ s) after)).0

pub behind-Spells : (p s : List ℕ) (after : ℕ → ℕ) → Spells (char_at (p ++ s) after) (length p) s
behind-Spells p s after =
    subst (λ k. Spells (char_at (p ++ s) after) k s) {x = 0 + length p} (omega arith)
      (Spells-append _ 0 p s (Spells-char_at (p ++ s) after)).1

pub nul_behind : (p s : List ℕ) (after : ℕ → ℕ) → char_at (p ++ s) after (length p + length s) ≡ 0
nul_behind p s after = rw (← length-append p s) (char_at_end (p ++ s) after)

-- A property of the NUL and of every character behind `p` holds of every read from there on; a
-- read past the NUL needs it of the memory too.
module _ {ℓ} (P : ℕ → Type ℓ) (after : ℕ → ℕ) where
  char_at-All_here :
      (s : List ℕ) (i : ℕ)
      → P 0
      → All P s
      → (i ≤ length s) ⊎ ((j : ℕ) → P (after j))
      → P (char_at s after i)
  unfolding char_at
  char_at-All_here [] zero nul h reach = nul
  char_at-All_here [] (suc i) nul h (inl near) = absurd (omega arith)
  char_at-All_here [] (suc i) nul h (inr far) = far i
  char_at-All_here (c ∷ s) zero nul h reach = h.0
  char_at-All_here (c ∷ s) (suc i) nul h (inl near) =
      char_at-All_here s i nul h.1 (inl (omega arith))
  char_at-All_here (c ∷ s) (suc i) nul h (inr far) = char_at-All_here s i nul h.1 (inr far)

  pub char_at-All :
      (p s : List ℕ) (i : ℕ)
      → P 0
      → All P s
      → (i ≤ length s) ⊎ ((j : ℕ) → P (after j))
      → P (char_at (p ++ s) after (length p + i))
  unfolding char_at
  char_at-All [] s i nul h reach =
      subst (λ k. P (char_at s after k)) (omega arith) (char_at-All_here s i nul h reach)
  char_at-All (c ∷ p) s i nul h reach =
      subst (λ k. P (char_at (c ∷ (p ++ s)) after k)) {x = suc (length p + i)} (omega arith)
        (char_at-All p s i nul h reach)

-- A digit is no other character.
pub lo-ne : (x c : ℕ) → nibble c ≡ none → hex_asc_upper_lo x ≢ c
lo-ne x c h e = cc (nibble-lo x, ap nibble e)

below_digit : (d p : ℕ) → d < 16 → 1 ≤ p → d * p < p * 16
below_digit d p small pos = grind arith

-- Digits that were printed read back, behind what was read before.
pub read_digits-put_id :
    (cs : ℕ → ℕ) (i n q v : ℕ)
    → Spells cs i (put_id n v [])
    → read_digits cs i n (q * 2 ^ (n * 4)) ≡ some (q * 2 ^ (n * 4) + v % 2 ^ (n * 4))
unfolding read_digits
read_digits-put_id cs i zero q v h = ap some (omega arith)
read_digits-put_id cs i (suc n) q v h =
    rw (found.0, nibble-lo, joined, read_digits-put_id cs (i + 1) n (q * 16 + d) v found.1)
      (ap some (omega (arith, widened, mod-mul_16 p v, ap (λ (t : ℕ). v % t) (pow_nibble n))))
  where
    p : ℕ
    p = 2 ^ (n * 4)

    d : ℕ
    d = v / p % 16

    found : Spells cs i (hex_asc_upper_lo (v / p) ∷ put_id n v [])
    found = rw (put_id_high n v []) at h

    widened : q * 2 ^ (suc n * 4) ≡ q * 16 * p
    widened = omega (arith, ap (λ (t : ℕ). q * t) (pow_nibble n))

    fits : d * p < 2 ^ (suc n * 4)
    fits = rw pow_nibble (below_digit d p (omega arith) (one-le-pow (n * 4) 2 (omega arith)))

    joined : bit_or (q * 2 ^ (suc n * 4)) (d * p) ≡ (q * 16 + d) * p
    joined = omega (arith, bit_or_fields (suc n * 4) q (d * p) fits, widened)
