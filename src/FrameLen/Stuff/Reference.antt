-- ===== src/FrameLen/Stuff/Reference.antt =====
-- The rule of bit stuffing: behind five equal bits comes one of the other value.
use can_utils.Base.{
  ℕ, zero, suc, ◌+◌, ◌-◌, ◌/◌, ◌%◌, ◌^◌, ◌<◌, List, [], ◌∷◌, true, false, ◌≡◌, refl, ap, arith, ◌∙◌,
  ◌==◌, get_or, subst, sym, ==_refl, ne→==,
}

-- The bit `j` of the bitmap, the highest of a byte first.
abbrev pub bit_at : List ℕ → ℕ → ℕ
bit_at bitmap j = get_or bitmap (j / 8) 0 / 2 ^ (7 - j % 8) % 2

-- The bits from `i` on, `n` of them.
unfoldable pub bits_from : List ℕ → ℕ → ℕ → List ℕ
bits_from bitmap i zero = []
bits_from bitmap i (suc n) = bit_at bitmap i ∷ bits_from bitmap (i + 1) n

-- The stuff bits among what is sent, after `run` bits of the value `last`, stuff bits included.
unfoldable pub stuff_bits : ℕ → ℕ → List ℕ → ℕ
stuff_bits last run [] = 0
stuff_bits last run (b ∷ bs) = elim (b == last) [
  | false ↦ stuff_bits b 1 bs
  | true ↦ elim (run == 4) [
    | true ↦ suc (stuff_bits (1 - last) 1 bs)
    | false ↦ stuff_bits last (suc run) bs
  ]
]

next_same :
    (v r b : ℕ) (bs : List ℕ) → b ≡ v → r < 4 → stuff_bits v r (b ∷ bs) ≡ stuff_bits v (suc r) bs
unfolding stuff_bits
next_same v r b bs e h =
    rw (e, stuff_bits) (rw (==_refl v) (rw (ne→== r 4 (λ e. absurd (omega arith)))))

next_full :
    (v b : ℕ) (bs : List ℕ) → b ≡ v → stuff_bits v 4 (b ∷ bs) ≡ suc (stuff_bits (1 - v) 1 bs)
unfolding stuff_bits
next_full v b bs e = rw (e, stuff_bits) (rw (==_refl v))

next_other :
    (v r b : ℕ) (bs : List ℕ) → (b == v) ≡ false → stuff_bits v r (b ∷ bs) ≡ stuff_bits b 1 bs
unfolding stuff_bits
next_other v r b bs e = rw (e, stuff_bits)

module _ (bitmap : List ℕ) (v : ℕ) where
  -- Bits of the value that do not fill the run.
  stuff_same :
      (k r i n r' i' n' : ℕ)
      → ((j : ℕ) → j < k → bit_at bitmap (i + j) ≡ v)
      → r' ≡ r + k
      → i' ≡ i + k
      → n ≡ k + n'
      → r' < 5
      → stuff_bits v r (bits_from bitmap i n) ≡ stuff_bits v r' (bits_from bitmap i' n')
  unfolding stuff_bits bits_from
  stuff_same zero r i n r' i' n' h er ei en small =
      let er' : r' ≡ r = omega arith in
      let ei' : i' ≡ i = omega arith in let en' : n' ≡ n = omega arith in rw (er', ei', en')
  stuff_same (suc k) r i zero r' i' n' h er ei en small = absurd (omega arith)
  stuff_same (suc k) r i (suc n) r' i' n' h er ei en small =
      let first : bit_at bitmap i ≡ v =
        subst (λ (x : ℕ). bit_at bitmap x ≡ v) {x = i + 0} (omega arith) (h 0 (omega arith)) in
      next_same v r (bit_at bitmap i) (bits_from bitmap (i + 1) n) first (omega arith)
      ∙ stuff_same k (suc r) (i + 1) n r' i' n'
          (λ j l.
            subst (λ (x : ℕ). bit_at bitmap x ≡ v) {x = i + suc j} (omega arith)
              (h (suc j) (omega arith)))
          (omega arith) (omega arith) (omega arith) small

  -- Bits of the value up to the end, too few for a stuff bit.
  pub stuff_end :
      (r i n : ℕ)
      → ((j : ℕ) → j < n → bit_at bitmap (i + j) ≡ v)
      → r + n < 5
      → stuff_bits v r (bits_from bitmap i n) ≡ 0
  unfolding stuff_bits bits_from
  stuff_end r i n h small = stuff_same n r i n (r + n) (i + n) 0 h refl refl (omega arith) small

  -- Bits of the value, and then another: the run starts again there.
  pub stuff_change :
      (k r i n i' n' u : ℕ)
      → ((j : ℕ) → j < k → bit_at bitmap (i + j) ≡ v)
      → i' ≡ i + k
      → n ≡ k + suc n'
      → r + k < 5
      → bit_at bitmap i' ≡ u
      → (u == v) ≡ false
      → stuff_bits v r (bits_from bitmap i n) ≡ stuff_bits u 0 (bits_from bitmap i' (suc n'))
  unfolding bits_from
  stuff_change k r i n i' n' u h ei en small other ne =
      stuff_same k r i n (r + k) i' (suc n') h refl ei en small
      ∙ next_other v (r + k) (bit_at bitmap i') (bits_from bitmap (i' + 1) n')
          (ap (λ (x : ℕ). x == v) other ∙ ne)
      ∙ ap (λ (x : ℕ). stuff_bits x 1 (bits_from bitmap (i' + 1) n')) other
      ∙ sym (next_same u 0 (bit_at bitmap i') (bits_from bitmap (i' + 1) n') other (omega arith))

  -- A run that is filled: a stuff bit of the other value, with which the next run starts.
  pub stuff_full :
      (r i n n' i' : ℕ)
      → ((j : ℕ) → j < 5 - r → bit_at bitmap (i + j) ≡ v)
      → r < 5
      → n ≡ (5 - r) + n'
      → i' ≡ i + (5 - r)
      → stuff_bits v r (bits_from bitmap i n) ≡ suc (stuff_bits (1 - v) 1 (bits_from bitmap i' n'))
  unfolding bits_from
  stuff_full r i n n' i' h small en ei =
      let last = i + (4 - r) in
      let next : last + 1 ≡ i' = omega arith in
      stuff_same (4 - r) r i n 4 last (suc n') (λ j l. h j (omega arith)) (omega arith) refl
        (omega arith) (omega arith)
      ∙ next_full v (bit_at bitmap last) (bits_from bitmap (last + 1) n') (h (4 - r) (omega arith))
      ∙ ap (λ (x : ℕ). suc (stuff_bits (1 - v) 1 (bits_from bitmap x n'))) next
