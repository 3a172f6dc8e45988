-- ===== src/FrameLen/Stuff.antt =====
-- The loop of `cfl_exact` that counts stuff bits, over the bits of the prepared bitmap.
pub mod Count
pub mod Reference
pub mod Window
pub mod Exact
use can_utils.Base.{
  ℕ, zero, suc, ◌+◌, ◌-◌, ◌*◌, ◌/◌, ◌%◌, ◌^◌, ◌≤◌, ◌<◌, List, [], ◌∷◌, Bool, true, false, ◌≡◌, ◌≢◌,
  refl, arith, ◌⊎◌, inl, inr, if◌then◌else◌, is_set, ◌==◌, ltb, leb, bit_and, bit_or, bit_xor,
  get_or, Option, none, some, Bool-cases,
}

-- The leading zeros of a number of 5 bits.
abbrev clz : List ℕ
clz =
    5 ∷ 4 ∷ 3 ∷ 3 ∷ 2 ∷ 2 ∷ 2 ∷ 2 ∷ 1 ∷ 1 ∷ 1 ∷ 1 ∷ 1 ∷ 1 ∷ 1 ∷ 1 ∷ 0 ∷ 0 ∷ 0 ∷ 0 ∷ 0 ∷ 0 ∷ 0 ∷ 0
    ∷ 0 ∷ 0 ∷ 0 ∷ 0 ∷ 0 ∷ 0 ∷ 0 ∷ 0 ∷ []

-- Five bits of the bitmap from bit `i` on, with what stands above them in the 16 bit window.
unfoldable pub window : List ℕ → ℕ → ℕ
window bitmap i =
    bit_or (get_or bitmap (i / 8) 0 * 2 ^ 8) (get_or bitmap (i / 8 + 1) 0) / 2 ^ (16 - 5 - i % 8)

-- The variables of the loop.
pub record Scan : Type 0 where
  pub mask : ℕ
  pub lookfor : ℕ
  pub i : ℕ
  pub stuffed : ℕ

-- The initial values of the variables of the loop.
abbrev pub scan_start : ℕ → Scan
scan_start start = record { mask = 0x1f; lookfor = 0; i = start; stuffed = 0 }

-- One round: a change ends the run of equal bits, five or four equal bits are followed by a
-- stuffed one.
unfoldable pub scan_step : List ℕ → ℕ → Scan → Scan
scan_step bitmap end s =
    let lookfor = if is_set s.lookfor then 0 else s.mask in
    let change = bit_xor (bit_and (window bitmap s.i) s.mask) lookfor in
    let i = s.i + (if s.mask == 0x1f then 5 else 4) in
    if is_set change
    then record {
      mask = 0x1f;
      lookfor = lookfor;
      i = s.i + get_or clz change 0;
      stuffed = s.stuffed;
    }
    else if leb i end
    then record { mask = 0x1e; lookfor = lookfor; i = i; stuffed = s.stuffed + 1 }
    else record { mask = s.mask; lookfor = lookfor; i = i; stuffed = s.stuffed }

-- `while (i < end)`; `none` means that the fuel ran out.
unfoldable pub scan : ℕ → List ℕ → ℕ → Scan → Option ℕ
scan zero bitmap end s = none
scan (suc fuel) bitmap end s =
    let rest = scan fuel bitmap end (scan_step bitmap end s) in
    if ltb s.i end then rest else some s.stuffed
