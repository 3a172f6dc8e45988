-- ===== src/FrameLen/Stuff/Exact.antt =====
-- The loop of `cfl_exact` against the rule of bit stuffing.
use mathlib.Core.Option.{some-injective}
use can_utils.Base.{
  ℕ, zero, suc, ◌+◌, ◌-◌, ◌≤◌, ◌<◌, List, Bool, true, false, not, ◌≡◌, refl, ap, arith, ◌∙◌, inl,
  inr, if◌then◌else◌, is_set, ◌==◌, ltb, leb, get_or, some, Bool-cases, All, ltb→lt, subst, sym,
}
use can_utils.FrameLen.Stuff.{clz, window, Scan, scan_step, scan, scan_start}
use can_utils.FrameLen.Stuff.Count.{IsMask, change, scan_start-count}
use can_utils.Frame.{bytes_get_or}
use can_utils.FrameLen.Stuff.Reference.{bits_from, stuff_bits, stuff_end, stuff_change, stuff_full}
use can_utils.FrameLen.Stuff.Window.{value, run_of, same_bits, Sees, sees}

value-not : (looked : Bool) → 1 - value looked ≡ value (not looked)
value-not true = refl
value-not false = refl

value-differs : (looked : Bool) → (value (not looked) == value looked) ≡ false
value-differs true = refl
value-differs false = refl

run_of-lt : (m : ℕ) → run_of m < 5
run_of-lt m = ground arith

module _ (bitmap : List ℕ) (end : ℕ) where
  -- The stuff bits that are counted, and those that the rule still has.
  left : ℕ → Bool → ℕ → ℕ → ℕ
  left m looked i stuffed =
      stuffed + stuff_bits (value looked) (run_of m) (bits_from bitmap i (end - i))

  left_end : (m : ℕ) (looked : Bool) (i stuffed : ℕ) → end ≤ i → left m looked i stuffed ≡ stuffed
  unfolding left bits_from stuff_bits
  left_end m looked i stuffed h =
      let none_left : end - i ≡ 0 = omega arith in rw none_left (omega arith)

  module _ (m c i stuffed : ℕ) (looked : Bool) (s : Sees bitmap i m looked c) (more : i < end) where
    short-left :
        end < i + same_bits m c + 1 → run_of m + (end - i) < 5 → stuffed ≡ left m looked i stuffed
    unfolding left
    short-left h few = omega (
      arith,
      stuff_end bitmap (value looked) (run_of m) i (end - i) (λ j l. s.equal j (omega (arith, h)))
          few,
    )

    change-left :
        (c == 0) ≡ false
        → left 0x1f (not looked) (i + same_bits m c) stuffed ≡ left m looked i stuffed
    unfolding left
    change-left ne = elim (Bool-cases (ltb (i + same_bits m c) end)) [
      | inl inside ↦
          let rest : end - (i + same_bits m c) ≡ suc (end - (i + same_bits m c) - 1) =
            ground (arith, inside) in
          rw rest (
            ap (λ (x : ℕ). stuffed + x)
              (sym (
                stuff_change bitmap (value looked) (same_bits m c) (run_of m) i (end - i)
                  (i + same_bits m c) (end - (i + same_bits m c) - 1) (value (not looked)) s.equal
                  refl (ground (arith, inside)) (s.other ne).0 (s.other ne).1
                  (value-differs looked))))
      | inr outside ↦
          left_end 0x1f (not looked) (i + same_bits m c) stuffed (ground (arith, outside))
          ∙ short-left (ground (arith, outside)) (ground (arith, outside, s.other ne))
    ]

    full-left :
        (k : ℕ)
        → same_bits m c ≡ 5 - run_of m
        → k ≡ i + same_bits m c
        → k ≤ end
        → left 0x1e (not looked) k (stuffed + 1) ≡ left m looked i stuffed
    unfolding left
    full-left k five at fits = omega (
      arith,
      ap (λ (x : ℕ). stuff_bits x 1 (bits_from bitmap k (end - k))) (value-not looked),
      stuff_full bitmap (value looked) (run_of m) i (end - i) (end - k) k
          (λ j l. s.equal j (omega (arith, l, five))) (run_of-lt m)
          (omega (arith, run_of-lt m, five, at, fits)) (omega (arith, five, at)),
    )

    over-left :
        (k m' : ℕ)
        → same_bits m c ≡ 5 - run_of m
        → k ≡ i + same_bits m c
        → end < k
        → left m' (not looked) k stuffed ≡ left m looked i stuffed
    over-left k m' five at over =
        left_end m' (not looked) k stuffed (omega arith)
        ∙ short-left (omega (arith, at)) (omega (arith, five, at, run_of-lt m))

module _ (bitmap : List ℕ) (end : ℕ) (bytes : (k : ℕ) → get_or bitmap k 0 < 256) where
  left_of : Scan → ℕ
  left_of s = left bitmap end s.mask (is_set s.lookfor) s.i s.stuffed

  lookfor_set : (m : ℕ) (looked : Bool) → IsMask m → is_set (if looked then 0 else m) ≡ not looked
  lookfor_set m true mask = refl
  lookfor_set m false (inl e) = rw e refl
  lookfor_set m false (inr e) = rw e refl

  full_run : (m : ℕ) → IsMask m → (if m == 0x1f then 5 else 4) ≡ 5 - run_of m
  full_run m (inl e) = rw e refl
  full_run m (inr e) = rw e refl

  -- A round counts the stuff bits that it passes.
  scan_step-left :
      (s : Scan) → s.i < end → IsMask s.mask → left_of (scan_step bitmap end s) ≡ left_of s
  unfolding scan_step left_of
  scan_step-left s more mask =
      let looked : Bool = is_set s.lookfor in
      let c : ℕ = change (window bitmap s.i) s.mask looked in
      let v = sees bitmap s.i s.mask looked bytes mask in
      let set = lookfor_set s.mask looked mask in
      let run = full_run s.mask mask in
      elim (Bool-cases (is_set c)) [
        | inl changed ↦
            let differs : (c == 0) ≡ false = ground (arith, changed) in
            let k : same_bits s.mask c ≡ get_or clz c 0 = rw differs refl in
            rw (changed, set)
              (subst (λ (x : ℕ). left bitmap end 0x1f (not looked) (s.i + x) s.stuffed ≡ left_of s)
                k (change-left bitmap end s.mask c s.i s.stuffed looked v more differs))
        | inr same ↦
            let zeros : (c == 0) ≡ true = ground (arith, same) in
            let five : same_bits s.mask c ≡ 5 - run_of s.mask = rw zeros refl in
            let at : s.i + (if s.mask == 0x1f then 5 else 4) ≡ s.i + same_bits s.mask c =
              omega (arith, run, five) in
            elim (Bool-cases (leb (s.i + (if s.mask == 0x1f then 5 else 4)) end)) [
              | inl fits ↦
                  rw (same, fits, set)
                    (full-left bitmap end s.mask c s.i s.stuffed looked v more _ five at
                      (ground (arith, fits)))
              | inr over ↦
                  rw (same, over, set)
                    (over-left bitmap end s.mask c s.i s.stuffed looked v more _ s.mask five at
                      (ground (arith, over)))
            ]
      ]

  scan_step-IsMask : (s : Scan) → IsMask s.mask → IsMask (scan_step bitmap end s).mask
  unfolding scan_step
  scan_step-IsMask s mask = ground arith

  scan-left :
      (fuel n : ℕ) (s : Scan) → IsMask s.mask → scan fuel bitmap end s ≡ some n → n ≡ left_of s
  unfolding scan left_of
  scan-left zero n s mask e = cc
  scan-left (suc fuel) n s mask e = elim (Bool-cases (ltb s.i end)) [
    | inl more ↦
        scan-left fuel n (scan_step bitmap end s) (scan_step-IsMask s mask) (rw more at e)
        ∙ scan_step-left s (ltb→lt s.i end more) mask
    | inr done ↦
        let counted : some s.stuffed ≡ some n = rw done at e in
        sym (some-injective _ _ counted)
        ∙ sym (left_end bitmap end s.mask (is_set s.lookfor) s.i s.stuffed (ground (arith, done)))
  ]

-- The loop counts the bits that the rule of bit stuffing adds to the bits from `start` up to `end`,
-- for every bitmap of bytes and up to 119 bits.
pub scan-stuff_bits :
    (bitmap : List ℕ) (start end : ℕ)
    → All (λ b. b < 256) bitmap
    → start ≤ end
    → end ≤ 119
    → scan 256 bitmap end (scan_start start)
      ≡ some (stuff_bits 1 0 (bits_from bitmap start (end - start)))
unfolding left left_of
scan-stuff_bits bitmap start end bytes order short =
    let (n, e, few) = scan_start-count bitmap start end order short in
    e
    ∙ ap some (
        scan-left bitmap end (λ k. bytes_get_or bitmap k bytes) 256 n (scan_start start) (inl refl)
          e
        ∙ omega arith)
