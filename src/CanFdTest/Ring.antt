-- ===== src/CanFdTest/Ring.antt =====
-- Positions in a ring of `k` slots.
use can_utils.Base.{ℕ, ◌+◌, ◌-◌, ◌%◌, ◌≤◌, ◌<◌, ◌≡◌, ◌≢◌, ap, arith, ◌∙◌, ◌⊎◌, inl, inr}
use native.Mathlib.Nat.{mod-lt, mod-add-mod, mod-eq_of_lt, mod-eq-sub-mod}

-- A number that is less than `k` larger has another slot.
pub slot_differs : (k x y : ℕ) → x < y → y < x + k → x % k ≢ y % k
slot_differs k x y less near same = elim cases [
  | inl low ↦ absurd (omega (arith, same, moved, mod-eq_of_lt low))
  | inr high ↦ absurd (omega (arith, same, moved, mod-eq-sub-mod high, mod-eq_of_lt (wrapped high)))
]
  where
    d : ℕ
    d = y - x

    below : x % k < k
    below = mod-lt x (omega arith)

    moved : (x % k + d) % k ≡ y % k
    moved = mod-add-mod x k d ∙ ap (λ t. t % k) (omega arith)

    cases : (x % k + d < k) ⊎ (k ≤ x % k + d)
    cases = omega arith

    wrapped : k ≤ x % k + d → x % k + d - k < k
    wrapped high = omega (arith, below)

pub next_slot : (k x : ℕ) → (x % k + 1) % k ≡ (x + 1) % k
next_slot k x = mod-add-mod x k 1
