-- ===== src/CanFrame/Classic.antt =====
-- A Classical CAN frame that was printed parses back to itself.
use can_utils.Base.{
  ℕ, zero, suc, ◌+◌, ◌/◌, ◌%◌, ◌≤◌, ◌<◌, List, [], ◌∷◌, All, none, some, Bool, true, false, ◌≡◌,
  ◌≢◌, refl, ap, ap₂, ◌∙◌, inl, inr, arith, length, ◌&&◌, ltb, ne→==, lt→ltb, le→leb, get_or,
}
use can_utils.Frame.{can_mtu}
use can_utils.Hex.{nibble, asc2nibble, put_hex_byte, hex_asc_upper_lo}
use can_utils.Hex.Laws.{asc2nibble-lo, hi-lo}
use can_utils.CanFrame.Print.{put_data, separated}
use can_utils.CanFrame.Parse.{zeroed, read_body, read_cc}
use can_utils.CanFrame.Spells.{Spells, lo-ne}
use can_utils.CanFrame.DataRoundTrip.{table, length-table, read_data-put_data}

-- Characters that do not open another kind of frame.
abbrev pub Quiet : ℕ → Type 0
Quiet c = (c ≢ b'R') × (c ≢ b'r') × (c ≢ b'#')

letters : (nibble b'R' ≡ none) × (nibble b'r' ≡ none) × (nibble b'#' ≡ none)
unfolding nibble asc2nibble
letters = (refl, refl, refl)

pub lo-Quiet : (x : ℕ) → Quiet (hex_asc_upper_lo x)
lo-Quiet x = (lo-ne x b'R' letters.0, lo-ne x b'r' letters.1, lo-ne x b'#' letters.2)

pub put_data-Quiet : (f : ℕ → ℕ) (sep : Bool) (i n : ℕ) → All Quiet (put_data f sep i n)
unfolding put_data put_hex_byte
put_data-Quiet f sep i zero = tt
put_data-Quiet f sep i (suc n) = (
  rw hi-lo (lo-Quiet (f i / 16)),
  (lo-Quiet (f i), with_dot (sep && ltb 0 n) _ (put_data-Quiet f sep (i + 1) n)),
)
  where
    with_dot : (b : Bool) (s : List ℕ) → All Quiet s → All Quiet (separated b s)
    with_dot true s h = (omega arith, h)
    with_dot false s h = h

module _ (xs : List ℕ) (x : ℕ) where
  table_tail :
      (i n : ℕ) → table (λ j. get_or (x ∷ xs) j 0) (i + 1) n ≡ table (λ j. get_or xs j 0) i n
  table_tail i zero = refl
  table_tail i (suc n) =
      ap₂ ◌∷◌ (ap (λ k. get_or (x ∷ xs) k 0) {y = suc i} (omega arith)) (table_tail (i + 1) n)

-- A list is the table of its own elements.
pub table-get_or : (xs : List ℕ) → table (λ j. get_or xs j 0) 0 (length xs) ≡ xs
table-get_or [] = refl
table-get_or (x ∷ xs) = ap (λ r. x ∷ r) (table_tail xs x 0 (length xs) ∙ table-get_or xs)

module _ (cs : ℕ → ℕ) (len id idx : ℕ) where
  pub read_body-cc :
      Quiet (cs idx) → cs (idx + 14) ≢ b'#' → read_body cs len id idx ≡ read_cc cs len id idx
  unfolding read_body
  read_body-cc (big, small, hash) xl =
      rw (ne→== _ _ big, ne→== _ _ small, ne→== _ _ hash, ne→== _ _ xl)

  module _ (f : ℕ → ℕ) (sep : Bool) (bytes : (j : ℕ) → f j < 256) where
    -- The data reach to the end of the string.
    pub read_cc_plain :
        (n e : ℕ)
        → n ≤ 8
        → Spells cs idx (put_data f sep 0 n)
        → idx + length (put_data f sep 0 n) ≡ e
        → len ≡ e
        → cs e ≡ 0
        → read_cc cs len id idx
          ≡ some (record { mtu = can_mtu; cu = record (zeroed id) { len = n; body = table f 0 n } })
    unfolding read_cc
    read_cc_plain n e fits text end whole nul =
        rw
          (
            read_data-put_data cs len f sep bytes 8 n idx 0 false e fits (λ p. refl) text end
                (omega arith) (inr (whole, omega arith)),
            nul,
            length-table,
          )
          (ground arith)

    -- Eight bytes and a raw DLC.
    pub read_cc_dlc :
        (e d : ℕ)
        → Spells cs idx (put_data f sep 0 8)
        → idx + length (put_data f sep 0 8) ≡ e
        → e ≤ len
        → cs e ≡ b'_'
        → cs (e + 1) ≡ hex_asc_upper_lo d
        → 8 < d
        → d ≤ 15
        → read_cc cs len id idx
          ≡ some (record {
            mtu = can_mtu;
            cu = record (zeroed id) { len = 8; len8_dlc = d; body = table f 0 8 };
          })
    unfolding read_cc
    read_cc_dlc e d text end inside line dlc low high =
        let whole : d % 16 ≡ d = omega arith in
        rw (
          read_data-put_data cs len f sep bytes 8 8 idx 0 false e (omega arith) (λ p. refl) text end
              inside (inl refl),
          line,
          dlc,
          asc2nibble-lo,
          whole,
          lt→ltb 8 d low,
          le→leb d 15 high,
        )
