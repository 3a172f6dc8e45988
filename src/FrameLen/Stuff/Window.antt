-- ===== src/FrameLen/Stuff/Window.antt =====
-- What the window of the loop in `cfl_exact` shows of the bitmap.
use can_utils.Base.{
  ℕ, zero, suc, ◌+◌, ◌-◌, ◌*◌, ◌/◌, ◌%◌, ◌^◌, ◌≤◌, ◌<◌, List, Bool, true, false, not, ◌≡◌, refl, ap,
  arith, ◌∙◌, inl, inr, if◌then◌else◌, ◌==◌, ltb, leb, get_or, Bool-cases, all_below,
  all_below_sound, ◌&&◌, ◌||◌, subst, sym, bit_xor, ==_iff,
}
use can_utils.Base.Bits.{bit_or_fields}
use can_utils.FrameLen.Stuff.{clz, window}
use can_utils.FrameLen.Stuff.Count.{IsMask, change, bit_and_low}
use can_utils.FrameLen.Stuff.Reference.{bit_at}

at_byte : (P : ℕ → Type 0) → P 0 → P 1 → P 2 → P 3 → P 4 → P 5 → P 6 → P 7 → (p : ℕ) → p < 8 → P p
at_byte P a b c d e f g h zero l = a
at_byte P a b c d e f g h (suc zero) l = b
at_byte P a b c d e f g h (suc (suc zero)) l = c
at_byte P a b c d e f g h (suc (suc (suc zero))) l = d
at_byte P a b c d e f g h (suc (suc (suc (suc zero)))) l = e
at_byte P a b c d e f g h (suc (suc (suc (suc (suc zero))))) l = f
at_byte P a b c d e f g h (suc (suc (suc (suc (suc (suc zero)))))) l = g
at_byte P a b c d e f g h (suc (suc (suc (suc (suc (suc (suc zero))))))) l = h
at_byte P a b c d e f g h (suc (suc (suc (suc (suc (suc (suc (suc n)))))))) l = absurd (omega arith)

-- A bit of two bytes, through the window that starts `p` bits into the first.
abbrev Seen : ℕ → ℕ → ℕ → ℕ → Type 0
Seen hi lo j p =
    (hi * 2 ^ 8 + lo) / 2 ^ (16 - 5 - p) % 32 / 2 ^ (4 - j) % 2
    ≡ (if ltb (p + j) 8 then hi / 2 ^ (7 - (p + j)) % 2 else lo / 2 ^ (15 - (p + j)) % 2)

module _ (hi lo : ℕ) (small : lo < 256) where
  seen : (j p : ℕ) → j < 5 → p < 8 → Seen hi lo j p
  seen zero p l h =
      at_byte (Seen hi lo 0) (omega arith) (omega arith) (omega arith) (omega arith) (omega arith)
        (omega arith) (omega arith) (omega arith) p h
  seen (suc zero) p l h =
      at_byte (Seen hi lo 1) (omega arith) (omega arith) (omega arith) (omega arith) (omega arith)
        (omega arith) (omega arith) (omega arith) p h
  seen (suc (suc zero)) p l h =
      at_byte (Seen hi lo 2) (omega arith) (omega arith) (omega arith) (omega arith) (omega arith)
        (omega arith) (omega arith) (omega arith) p h
  seen (suc (suc (suc zero))) p l h =
      at_byte (Seen hi lo 3) (omega arith) (omega arith) (omega arith) (omega arith) (omega arith)
        (omega arith) (omega arith) (omega arith) p h
  seen (suc (suc (suc (suc zero)))) p l h =
      at_byte (Seen hi lo 4) (omega arith) (omega arith) (omega arith) (omega arith) (omega arith)
        (omega arith) (omega arith) (omega arith) p h
  seen (suc (suc (suc (suc (suc j))))) p l h = absurd (omega arith)

-- The window shows the bits from `i` on.
window_bit :
    (bitmap : List ℕ) (i j : ℕ)
    → ((k : ℕ) → get_or bitmap k 0 < 256)
    → j < 5
    → window bitmap i % 32 / 2 ^ (4 - j) % 2 ≡ bit_at bitmap (i + j)
unfolding window
window_bit bitmap i j bytes h =
    let hi = get_or bitmap (i / 8) 0 in
    let lo = get_or bitmap (i / 8 + 1) 0 in
    rw (bit_or_fields 8 hi lo (bytes (i / 8 + 1))) (
      seen hi lo (bytes (i / 8 + 1)) j (i % 8) h (omega arith)
      ∙ elim (Bool-cases (ltb (i % 8 + j) 8)) [
        | inl same ↦
            let byte : (i + j) / 8 ≡ i / 8 = ground (arith, same) in
            let place : (i + j) % 8 ≡ i % 8 + j = ground (arith, same) in rw (same, byte, place)
        | inr next ↦
            let byte : (i + j) / 8 ≡ i / 8 + 1 = ground (arith, next) in
            let place : 7 - (i + j) % 8 ≡ 15 - (i % 8 + j) = ground (arith, next) in
            rw (next, byte, place)
      ])

-- The value that is looked for, and the bits of it that are already there.
abbrev pub value : Bool → ℕ
value looked = if looked then 0 else 1

abbrev pub run_of : ℕ → ℕ
run_of m = if m == 0x1f then 0 else 1

-- The bits of the value at the start of the window.
abbrev pub same_bits : ℕ → ℕ → ℕ
same_bits m c = if c == 0 then 5 - run_of m else get_or clz c 0

abbrev shows : ℕ → Bool → ℕ → Bool
shows m looked w =
    let c = change w m looked in
    let k = same_bits m c in
    all_below k (λ j. w / 2 ^ (4 - j) % 2 == value looked)
    && (c == 0 || (leb (run_of m + k) 4 && (w / 2 ^ (4 - k) % 2 == value (not looked))))

shows_31_true : all_below 32 (shows 0x1f true) ≡ true
unfolding all_below
shows_31_true = refl

shows_31_false : all_below 32 (shows 0x1f false) ≡ true
unfolding all_below
shows_31_false = refl

shows_30_true : all_below 32 (shows 0x1e true) ≡ true
unfolding all_below
shows_30_true = refl

shows_30_false : all_below 32 (shows 0x1e false) ≡ true
unfolding all_below
shows_30_false = refl

shows_small : (m w : ℕ) (looked : Bool) → IsMask m → w < 32 → shows m looked w ≡ true
shows_small m w true (inl e) h = rw e (all_below_sound 32 (shows 0x1f true) w shows_31_true h)
shows_small m w false (inl e) h = rw e (all_below_sound 32 (shows 0x1f false) w shows_31_false h)
shows_small m w true (inr e) h = rw e (all_below_sound 32 (shows 0x1e true) w shows_30_true h)
shows_small m w false (inr e) h = rw e (all_below_sound 32 (shows 0x1e false) w shows_30_false h)

-- What a round sees: `same_bits` bits of the value, and where there is a change, another behind.
pub record Sees (bitmap : List ℕ) (i m : ℕ) (looked : Bool) (c : ℕ) : Type 0 where
  pub few : run_of m + same_bits m c ≤ 5
  pub equal : (j : ℕ) → j < same_bits m c → bit_at bitmap (i + j) ≡ value looked
  pub other :
      (c == 0) ≡ false
      → (run_of m + same_bits m c < 5) × (bit_at bitmap (i + same_bits m c) ≡ value (not looked))

shows_parts :
    (m w : ℕ) (looked : Bool)
    → IsMask m
    → w < 32
    → let c = change w m looked in
      let k = same_bits m c in
      (all_below k (λ j. w / 2 ^ (4 - j) % 2 == value looked) ≡ true)
      × ((c == 0 || (leb (run_of m + k) 4 && (w / 2 ^ (4 - k) % 2 == value (not looked)))) ≡ true)
shows_parts m w looked mask h = both _ _ (shows_small m w looked mask h)
  where
    both : (a b : Bool) → (a && b) ≡ true → (a ≡ true) × (b ≡ true)
    both true b e = (refl, e)
    both false b e = cc

low_few :
    (m c : ℕ) (b : Bool)
    → IsMask m
    → (c == 0 || (leb (run_of m + same_bits m c) 4 && b)) ≡ true
    → run_of m + same_bits m c ≤ 5
low_few m c b (inl e) h = ground (arith, h)
low_few m c b (inr e) h = ground (arith, h)

pub sees :
    (bitmap : List ℕ) (i m : ℕ) (looked : Bool)
    → ((k : ℕ) → get_or bitmap k 0 < 256)
    → IsMask m
    → Sees bitmap i m looked (change (window bitmap i) m looked)
sees bitmap i m looked bytes mask =
    let w : ℕ = window bitmap i % 32 in
    let c : ℕ = change w m looked in
    let k : ℕ = same_bits m c in
    let (all, end) = shows_parts m w looked mask (omega arith) in
    let few = low_few m c _ mask end in
    subst (Sees bitmap i m looked)
      (ap (λ (x : ℕ). bit_xor x (if looked then 0 else m))
        (sym (bit_and_low m (window bitmap i) mask)))
      (record {
        few = few;
        equal = λ j l.
            sym (window_bit bitmap i j bytes (omega arith))
            ∙ (==_iff _ _).0 (all_below_sound k (λ j. w / 2 ^ (4 - j) % 2 == value looked) j all l);
        other = λ ne. (
          ground (arith, end, ne),
          sym (window_bit bitmap i k bytes (ground (arith, end, ne)))
              ∙ (==_iff _ _).0 (ground (arith, end, ne)),
        );
      })
