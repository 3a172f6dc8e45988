-- ===== src/Base/Bits/Digits.antt =====
-- One equation for the lowest digit of each bitwise operation.
use Prim.Native.Nat.{ℕ, zero, suc, ◌+◌, ◌-◌, ◌*◌, ◌/◌, ◌%◌, ◌≤◌, min, max, differ, digits, bitwise}
use Prim.Native.Nat.{bit_and, bit_or, bit_xor}
use Prim.Native.Nat.{bit_and-bitwise, bit_or-bitwise, bit_xor-bitwise}
use mathlib.Core.Path.{◌≡◌, refl, ap, ◌∙◌}
use native.Mathlib.Omega.{arith}

module _ (rest : ℕ → ℕ) (op : ℕ → ℕ → ℕ) where
  -- A number needs no more rounds than itself.
  one_more : (f x y : ℕ) → x ≤ f → digits rest op (suc f) x y ≡ digits rest op f x y
  one_more zero zero y h = refl
  one_more (suc f) zero y h = refl
  one_more (suc f) (suc x) y h = omega (arith, one_more f (suc x / 2) (y / 2) (omega arith))
  one_more zero (suc x) y h = absurd (omega arith)

  spare : (d x y : ℕ) → digits rest op (d + x) x y ≡ bitwise rest op x y
  spare zero x y = ap (λ f. digits rest op f x y) {y = x} (omega arith)
  spare (suc d) x y =
      ap (λ f. digits rest op f x y) {y = suc (d + x)} (omega arith)
      ∙ one_more (d + x) x y (omega arith)
      ∙ spare d x y

  lowest :
      (x y : ℕ)
      → bitwise rest op (suc x) y ≡ op (suc x % 2) (y % 2) + 2 * bitwise rest op (suc x / 2) (y / 2)
  lowest x y =
      let half : ℕ = suc x / 2 in
      let fuel : digits rest op x half (y / 2) ≡ bitwise rest op half (y / 2) =
        ap (λ f. digits rest op f half (y / 2)) {y = x - half + half} (omega arith)
        ∙ spare (x - half) half (y / 2) in
      omega (arith, fuel)

pub bit_and_step : (x y : ℕ) → bit_and x y ≡ min (x % 2) (y % 2) + 2 * bit_and (x / 2) (y / 2)
bit_and_step (suc x) y = simp bit_and-bitwise (lowest (λ k. 0) min x y)
bit_and_step zero y = simp bit_and-bitwise (omega arith)

pub bit_xor_step : (x y : ℕ) → bit_xor x y ≡ differ (x % 2) (y % 2) + 2 * bit_xor (x / 2) (y / 2)
bit_xor_step (suc x) y = simp bit_xor-bitwise (lowest (λ k. k) differ x y)
bit_xor_step zero y = simp bit_xor-bitwise (omega arith)

pub bit_or_step : (x y : ℕ) → bit_or x y ≡ max (x % 2) (y % 2) + 2 * bit_or (x / 2) (y / 2)
bit_or_step (suc x) y = simp bit_or-bitwise (lowest (λ k. k) max x y)
bit_or_step zero y = simp bit_or-bitwise (omega arith)
