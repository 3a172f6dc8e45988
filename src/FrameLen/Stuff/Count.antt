-- ===== src/FrameLen/Stuff/Count.antt =====
-- The loop ends, and counts at most one stuff bit for each four bits after the first.
use can_utils.Base.{
  ℕ, zero, suc, ◌+◌, ◌-◌, ◌*◌, ◌%◌, ◌≤◌, ◌<◌, List, Bool, true, false, not, ◌≡◌, refl, arith, ◌∙◌,
  ◌⊎◌, inl, inr, if◌then◌else◌, is_set, ◌==◌, ltb, bit_and, bit_xor, get_or, some, Bool-cases,
  all_below, all_below_sound, ◌&&◌, ◌||◌, subst, sym, ltb→lt,
}
use can_utils.Base.Bits.{bit_and_mask, bit_and_field}
use can_utils.FrameLen.Stuff.{clz, window, Scan, scan_step, scan, scan_start}

abbrev pub IsMask : ℕ → Type 0
IsMask m = (m ≡ 0x1f) ⊎ (m ≡ 0x1e)

-- The bits that differ from the run that is looked for.
abbrev pub change : ℕ → ℕ → Bool → ℕ
change w mask looked = bit_xor (bit_and w mask) (if looked then 0 else mask)

-- What a round relies on, at every window of five bits: only a change at the first bit does not
-- advance, and then the next round looks for the other value and finds no change there.
abbrev progress : ℕ → Bool → ℕ → Bool
progress mask looked w =
    let c = change w mask looked in
    (ltb c 16 || ltb (change w 0x1f (not looked)) 16)
    && (not (ltb c 16) || c == 0 || ltb 0 (get_or clz c 0))

progress_31_true : all_below 32 (progress 0x1f true) ≡ true
unfolding all_below
progress_31_true = refl

progress_31_false : all_below 32 (progress 0x1f false) ≡ true
unfolding all_below
progress_31_false = refl

progress_30_true : all_below 32 (progress 0x1e true) ≡ true
unfolding all_below
progress_30_true = refl

progress_30_false : all_below 32 (progress 0x1e false) ≡ true
unfolding all_below
progress_30_false = refl

pub bit_and_low : (m w : ℕ) → IsMask m → bit_and w m ≡ bit_and (w % 32) m
bit_and_low m w (inl e) = rw e (bit_and_mask 5 w ∙ omega (arith, bit_and_mask 5 (w % 32)))
bit_and_low m w (inr e) = rw e (bit_and_field 1 4 w ∙ omega (arith, bit_and_field 1 4 (w % 32)))

progress_low :
    (m w : ℕ) (looked : Bool) → IsMask m → progress m looked w ≡ progress m looked (w % 32)
progress_low m w looked mask = rw (bit_and_low m w mask, bit_and_low 0x1f w (inl refl)) refl

progress_small : (m w : ℕ) (looked : Bool) → IsMask m → w < 32 → progress m looked w ≡ true
progress_small m w true (inl e) h =
    subst (λ k. progress k true w ≡ true) (sym e) (all_below_sound 32 _ w progress_31_true h)
progress_small m w false (inl e) h =
    subst (λ k. progress k false w ≡ true) (sym e) (all_below_sound 32 _ w progress_31_false h)
progress_small m w true (inr e) h =
    subst (λ k. progress k true w ≡ true) (sym e) (all_below_sound 32 _ w progress_30_true h)
progress_small m w false (inr e) h =
    subst (λ k. progress k false w ≡ true) (sym e) (all_below_sound 32 _ w progress_30_false h)

progress_at : (m w : ℕ) (looked : Bool) → IsMask m → progress m looked w ≡ true
progress_at m w looked mask =
    subst (λ b. b ≡ true) (sym (progress_low m w looked mask))
      (progress_small m (w % 32) looked mask (omega arith))

-- 1 if the next round will not advance.
stalls : List ℕ → Scan → ℕ
stalls bitmap s = if ltb (change (window bitmap s.i) s.mask (is_set s.lookfor)) 16 then 0 else 1

measure : List ℕ → ℕ → Scan → ℕ
unfolding stalls
measure bitmap end s = 2 * (end - s.i) + stalls bitmap s

module _ (bitmap : List ℕ) (start end : ℕ) where
  record Inv (s : Scan) : Type 0 where
    pub mask : IsMask s.mask
    pub four : s.mask ≡ 0x1e → 0 < s.stuffed
    pub paced :
        (s.stuffed ≡ 0) ⊎ ((4 * s.stuffed + 1 + start ≤ s.i) × (4 * s.stuffed + 1 + start ≤ end))
    pub behind : start ≤ s.i

  scan_step-Inv : (s : Scan) → s.i < end → Inv s → Inv (scan_step bitmap end s)
  unfolding scan_step
  scan_step-Inv s h v = ground arith

  scan_step-measure :
      (s : Scan)
      → s.i < end
      → IsMask s.mask
      → measure bitmap end (scan_step bitmap end s) < measure bitmap end s
  unfolding scan_step measure
  scan_step-measure s h m =
      ground (arith, progress_at s.mask (window bitmap s.i) (is_set s.lookfor) m)

  scan_count :
      (fuel : ℕ) (s : Scan)
      → Inv s
      → measure bitmap end s < fuel
      → (n : ℕ) × (scan fuel bitmap end s ≡ some n) × ((n ≡ 0) ⊎ (4 * n + 1 + start ≤ end))
  unfolding scan
  scan_count zero s v m = absurd (omega arith)
  scan_count (suc fuel) s v m = elim (Bool-cases (ltb s.i end)) [
    | inl more ↦ rw more (
        scan_count fuel (scan_step bitmap end s) (scan_step-Inv s (ltb→lt _ _ more) v)
          (omega (arith, m, scan_step-measure s (ltb→lt _ _ more) v.mask)))
    | inr done ↦ rw done (s.stuffed, refl, ground (arith, v.paced))
  ]

-- From the first bit on, the fuel is enough for a frame of up to 119 bits.
pub scan_start-count :
    (bitmap : List ℕ) (start end : ℕ)
    → start ≤ end
    → end ≤ 119
    → (n : ℕ) × (scan 256 bitmap end (scan_start start) ≡ some n)
      × ((n ≡ 0) ⊎ (4 * n + 1 + start ≤ end))
unfolding measure stalls
scan_start-count bitmap start end h short =
    scan_count bitmap start end 256 (scan_start start) (ground arith) (ground arith)
