-- ===== src/Base/Bits.antt =====
-- `&`, `|` and `^` on words of any width: masks of low bits, single flags, disjoint fields.
-- The native operations are a recursion on binary digits with fuel; `Bits/Digits.antt` drops it.
mod Digits
use Digits.{bit_and_step, bit_or_step}
pub use Digits.{bit_xor_step}
use Prim.Native.Nat.{
  ℕ, zero, suc, ◌+◌, ◌-◌, ◌*◌, ◌/◌, ◌%◌, ◌^◌, ◌≤◌, ◌<◌, bit_and, bit_or, bit_or-bitwise,
}
use mathlib.Core.Path.{◌≡◌, refl, ap}
use native.Mathlib.Nat.{pow-succ', one-le-pow, div-div-eq-div-mul, div-add-mod}
use native.Mathlib.Omega.{arith}

bit_and-zero_below : (n a : ℕ) → a < n → bit_and a 0 ≡ 0
bit_and-zero_below zero a h = absurd (omega arith)
bit_and-zero_below (suc n) zero h = refl
bit_and-zero_below (suc n) (suc a) h =
    omega (arith, bit_and_step (suc a) 0, bit_and-zero_below n (suc a / 2) (omega arith))

pub bit_and-zero : (a : ℕ) → bit_and a 0 ≡ 0
bit_and-zero a = bit_and-zero_below (suc a) a (omega arith)

bit_or-zero_below : (n a : ℕ) → a < n → bit_or a 0 ≡ a
bit_or-zero_below zero a h = absurd (omega arith)
bit_or-zero_below (suc n) zero h = refl
bit_or-zero_below (suc n) (suc a) h =
    omega (arith, bit_or_step (suc a) 0, bit_or-zero_below n (suc a / 2) (omega arith))

pub bit_or-zero : (a : ℕ) → bit_or a 0 ≡ a
bit_or-zero a = bit_or-zero_below (suc a) a (omega arith)

div_pow_suc : (k a : ℕ) → a / 2 ^ suc k ≡ a / 2 / 2 ^ k
div_pow_suc k a = rw (pow-succ', ← div-div-eq-div-mul)

mod_pow_suc : (k a : ℕ) → a % 2 ^ suc k ≡ a / 2 % 2 ^ k * 2 + a % 2
mod_pow_suc k a = omega (
  arith,
  pow-succ' 2 k,
  ap (λ (t : ℕ). t * (a / 2 / 2 ^ k)) (pow-succ' 2 k),
  ap (λ (t : ℕ). 2 ^ suc k * t) (div_pow_suc k a),
  div-add-mod a (2 ^ suc k),
  div-add-mod (a / 2) (2 ^ k),
)

mul_pow_suc : (k q : ℕ) → q * 2 ^ suc k ≡ 2 * (q * 2 ^ k)
mul_pow_suc k q = omega (arith, ap (λ (t : ℕ). q * t) (pow-succ' 2 k))

zero-bit_or : (a : ℕ) → bit_or 0 a ≡ a
zero-bit_or a = bit_or-bitwise 0 a

-- A mask of `k` low bits is a remainder.
pub bit_and_mask : (k a : ℕ) → bit_and a (2 ^ k - 1) ≡ a % 2 ^ k
bit_and_mask zero a = omega (arith, bit_and-zero a)
bit_and_mask (suc k) a = ground (
  arith,
  bit_and_step a (2 ^ suc k - 1),
  one-le-pow k 2,
  pow-succ' 2 k,
  mod_pow_suc k a,
  bit_and_mask k (a / 2),
)

-- A test of the bit `k`.
pub bit_and_flag : (k a : ℕ) → bit_and a (2 ^ k) ≡ a / 2 ^ k % 2 * 2 ^ k
bit_and_flag zero a = omega (arith, bit_and_step a 1, bit_and-zero (a / 2))
bit_and_flag (suc k) a = ground (
  arith,
  bit_and_step a (2 ^ suc k),
  pow-succ' 2 k,
  div_pow_suc k a,
  mul_pow_suc k (a / 2 / 2 ^ k % 2),
  bit_and_flag k (a / 2),
)

-- Setting a bit that is clear adds it.
pub bit_or_flag : (k a : ℕ) → a / 2 ^ k % 2 ≡ 0 → bit_or a (2 ^ k) ≡ a + 2 ^ k
bit_or_flag zero a h = omega (arith, bit_or_step a 1, bit_or-zero (a / 2))
bit_or_flag (suc k) a h =
    ground (arith, bit_or_step a (2 ^ suc k), pow-succ' 2 k, div_pow_suc k a, bit_or_flag k (a / 2))

-- `(q << k) | r` is a sum when `r` fits `k` bits.
pub bit_or_fields : (k q r : ℕ) → r < 2 ^ k → bit_or (q * 2 ^ k) r ≡ q * 2 ^ k + r
bit_or_fields zero q r h = ground (arith, bit_or-zero q)
bit_or_fields (suc k) q r h = ground (
  arith,
  bit_or_step (q * 2 ^ suc k) r,
  mul_pow_suc k q,
  pow-succ' 2 k,
  bit_or_fields k q (r / 2),
)

-- The same with the low field first.
pub bit_or_fields_low : (k q r : ℕ) → r < 2 ^ k → bit_or r (q * 2 ^ k) ≡ r + q * 2 ^ k
bit_or_fields_low zero q zero h = omega (arith, bit_or_step 0 (q * 1), zero-bit_or (q * 1 / 2))
bit_or_fields_low zero q (suc r) h = absurd (omega arith)
bit_or_fields_low (suc k) q r h = ground (
  arith,
  bit_or_step r (q * 2 ^ suc k),
  mul_pow_suc k q,
  pow-succ' 2 k,
  bit_or_fields_low k q (r / 2),
)

-- A mask of `m` bits at bit `k`.
pub bit_and_field : (k m a : ℕ) → bit_and a ((2 ^ m - 1) * 2 ^ k) ≡ a / 2 ^ k % 2 ^ m * 2 ^ k
bit_and_field zero m a = ground (arith, bit_and_mask m a)
bit_and_field (suc k) m a = ground (
  arith,
  bit_and_step a ((2 ^ m - 1) * 2 ^ suc k),
  mul_pow_suc k (2 ^ m - 1),
  div_pow_suc k a,
  mul_pow_suc k (a / 2 / 2 ^ k % 2 ^ m),
  bit_and_field k m (a / 2),
)
