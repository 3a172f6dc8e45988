-- ===== src/CanFrame/XlHeader.antt =====
-- The header of a CAN XL frame, printed by `snprintf_canframe` and read by `parse_canframe`.
use can_utils.Base.{
  ℕ, ◌+◌, ◌*◌, ◌/◌, ◌%◌, ◌^◌, ◌<◌, List, [], ◌∷◌, ◌++◌, some, ◌≡◌, sym, ap, ◌∙◌, subst, arith,
  bit_and, bit_or, drop,
}
use can_utils.Base.Bits.{bit_and_mask, bit_and_field, bit_or_fields_low}
use can_utils.Frame.{canxl_prio_mask, canxl_vcid_mask}
use can_utils.Hex.{hex_asc_upper_lo, put_id, put_hex_byte}
use can_utils.Hex.Laws.{lo-mod, hi-lo}
use can_utils.CanFrame.IdRoundTrip.{not_hash}
use can_utils.CanFrame.Parse.{read_id, read_byte, read_digits}
use can_utils.CanFrame.DataRoundTrip.{read_byte-put_hex_byte}
use can_utils.CanFrame.Spells.{Spells, Spells-append, Spells-drop, read_digits-put_id}

same_digit : (c x y : ℕ) → c ≡ hex_asc_upper_lo x → x % 16 ≡ y % 16 → c ≡ hex_asc_upper_lo y
same_digit c x y e m = e ∙ lo-mod x ∙ ap hex_asc_upper_lo m ∙ sym (lo-mod y)

-- The header with the digits written out.
abbrev pub header : ℕ → ℕ → ℕ → ℕ → ℕ → List ℕ
header vcid prio flags sdt af =
    put_id 2 vcid []
    ++ (put_id 3 prio []
        ++ (b'#' ∷ put_id 2 flags []
            ++ (b':' ∷ put_id 2 sdt [] ++ (b':' ∷ put_id 8 af [] ++ (b'#' ∷ [])))))

module _ (cs : ℕ → ℕ) (vcid prio flags sdt af : ℕ)
    (text : Spells cs 0 (header vcid prio flags sdt af)) where
  -- The first five digits, as one number.
  five : prio < 4096 → Spells cs 0 (put_id 5 (vcid * 4096 + prio) [])
  unfolding put_id
  five small = (
    same_digit (cs 0) (vcid / 16) _ text.0 (omega arith),
    (
      same_digit (cs 1) vcid _ text.1.0 (omega arith),
      (
        same_digit (cs 2) (prio / 16 / 16) _ text.1.1.0 (omega arith),
        (
          same_digit (cs 3) (prio / 16) _ text.1.1.1.0 (omega arith),
          (same_digit (cs 4) prio _ text.1.1.1.1.0 (omega arith), tt),
        ),
      ),
    ),
  )

  from : (k : ℕ) → Spells cs k (drop k (header vcid prio flags sdt af))
  from k =
      subst (λ j. Spells cs j (drop k (header vcid prio flags sdt af))) {x = 0 + k} (omega arith)
        (Spells-drop cs k 0 (header vcid prio flags sdt af) text)

  pub third_digit : cs 3 ≡ hex_asc_upper_lo (prio / 16)
  unfolding put_id
  third_digit = text.1.1.1.0

  pub first_hash : cs 5 ≡ b'#'
  unfolding put_id
  first_hash = (from 5).0

  pub colons : (cs 8 ≡ b':') × (cs 11 ≡ b':') × (cs 20 ≡ b'#')
  unfolding put_id
  colons = ((from 8).0, (from 11).0, (from 20).0)

  pub flags_digit : cs 6 ≡ hex_asc_upper_lo (flags / 16)
  unfolding put_id
  flags_digit = (from 6).0

  pub flags_at : flags < 256 → read_byte cs 6 ≡ some flags
  unfolding put_id put_hex_byte
  flags_at small =
      let here = from 6 in
      read_byte-put_hex_byte cs 6 flags small (here.0 ∙ sym (hi-lo flags), (here.1.0, tt))

  pub sdt_at : sdt < 256 → read_byte cs 9 ≡ some sdt
  unfolding put_id put_hex_byte
  sdt_at small =
      let here = from 9 in
      read_byte-put_hex_byte cs 9 sdt small (here.0 ∙ sym (hi-lo sdt), (here.1.0, tt))

  pub af_at : af < 2 ^ 32 → read_digits cs 12 8 0 ≡ some af
  unfolding put_id
  af_at small =
      read_digits-put_id cs 12 8 0 af (Spells-append cs 12 (put_id 8 af []) (b'#' ∷ []) (from 12)).0
      ∙ ap some (omega arith)

  -- The identifier: the priority below, the VCID at bit 16.
  pub xl_id : prio < 2048 → vcid < 256 → read_id cs ≡ some (prio + vcid * 2 ^ 16, 6)
  unfolding read_id
  xl_id small field =
      rw
        (
          third_digit,
          not_hash,
          first_hash,
          read_digits-put_id cs 0 5 0 (vcid * 4096 + prio) (five (omega arith)),
        )
        (ap (λ k. some (k, 6)) joined)
    where
      v : ℕ
      v = 0 * 2 ^ 20 + (vcid * 4096 + prio) % 2 ^ 20

      joined :
          bit_or (bit_and v canxl_prio_mask) (bit_and (v * 2 ^ 4) canxl_vcid_mask)
          ≡ prio + vcid * 2 ^ 16
      joined =
          let low : bit_and v canxl_prio_mask ≡ prio = bit_and_mask 11 v ∙ omega arith in
          let high : bit_and (v * 2 ^ 4) canxl_vcid_mask ≡ vcid * 2 ^ 16 =
            bit_and_field 16 8 (v * 2 ^ 4) ∙ omega arith in
          rw (low, high) (bit_or_fields_low 16 vcid prio (omega arith))
