-- ===== src/CanFrame/XlFrame.antt =====
-- A CAN XL frame, printed and parsed.
use can_utils.Base.{
  ℕ, suc, ◌+◌, ◌*◌, ◌/◌, ◌%◌, ◌^◌, ◌≤◌, ◌<◌, List, [], ◌∷◌, ◌++◌, All, some, ◌||◌, Bool, true,
  false, ◌≡◌, refl, ap, fun_ext, ◌∙◌, inr, arith, length, bit_or, ◌==◌, ltb, ne→==, all_below,
  all_below_sound, get_or, le→leb, le→ltb,
}
use can_utils.Base.Bits.{bit_and_mask, bit_and_field}
use can_utils.Frame.{
  Cu, IsWords, xl_data_at, xl_len, xl_af, xl_flags, xl_sdt, bytes_get_or, canxl_mtu, canxl_xlf,
}
use can_utils.Hex.{hex_asc_upper_lo, put_id}
use can_utils.CanFrame.IdRoundTrip.{flag_on}
use can_utils.CanFrame.Print.{snprintf_canframe, print_xl, written, put_data}
use can_utils.CanFrame.Parse.{parse_canframe, read_frame, read_xl, read_body, char_at}
use can_utils.CanFrame.DataRoundTrip.{table, length-table, read_data-put_data}
use can_utils.CanFrame.Classic.{Quiet, table-get_or, lo-Quiet}
use can_utils.CanFrame.Spells.{Spells, front-Spells, behind-Spells, char_at_end}
use can_utils.CanFrame.Bounds.{vcid_of, prio_of, vcid-lt, prio-lt, xl_af-lt, xl_header_digits}
use can_utils.CanFrame.RoundTrip.{Parses}
use can_utils.CanFrame.XlHeader.{header, colons, flags_digit, flags_at, sdt_at, af_at, xl_id}

-- A CAN XL frame: an 11 bit priority with a VCID at bit 16, and its acceptance field before the data,
-- of which there is at least one byte.
pub record IsXl (cu : Cu) : Type 0 where
  pub words : IsWords cu
  pub vcid : cu.can_id < 2 ^ 24
  pub prio : cu.can_id / 2 ^ 11 % 2 ^ 5 ≡ 0
  pub xlf : canxl_xlf ≤ cu.len
  pub len_min : 1 ≤ xl_len cu
  pub len_max : xl_len cu ≤ 2048
  pub length_body : length cu.body ≡ 4 + xl_len cu

xlf_table : all_below 256 (λ x. ltb x 128 || bit_or x canxl_xlf == x) ≡ true
unfolding all_below
xlf_table = refl

xlf_kept : (x : ℕ) → 128 ≤ x → x < 256 → bit_or x canxl_xlf ≡ x
xlf_kept x set small =
    ground
      (arith, all_below_sound 256 (λ y. ltb y 128 || bit_or y canxl_xlf == y) x xlf_table small)

table_ext : (f g : ℕ → ℕ) (i n : ℕ) → ((j : ℕ) → f j ≡ g j) → table f i n ≡ table g i n
table_ext f g i n h = ap (λ k. table k i n) (fun_ext h)

-- The four bytes of the acceptance field and the data make up the body.
body_split :
    (n : ℕ) (xs : List ℕ)
    → All (λ b. b < 256) xs
    → length xs ≡ 4 + n
    → (af : ℕ)
    → af ≡ get_or xs 0 0 + 2 ^ 8 * get_or xs 1 0 + 2 ^ 16 * get_or xs 2 0 + 2 ^ 24 * get_or xs 3 0
    → ◌≡◌ {A = List ℕ}
        (af % 2 ^ 8
          ∷ af / 2 ^ 8 % 2 ^ 8
          ∷ af / 2 ^ 16 % 2 ^ 8
          ∷ af / 2 ^ 24 % 2 ^ 8
          ∷ table (λ i. get_or xs (4 + i) 0) 0 n)
        xs
body_split n (a ∷ b ∷ c ∷ d ∷ xs) bytes e af word =
    let rest : table (λ i. get_or (a ∷ b ∷ c ∷ d ∷ xs) (4 + i) 0) 0 n ≡ xs =
      table_ext _ (λ i. get_or xs i 0) 0 n
        (λ j. ap (λ k. get_or (a ∷ b ∷ c ∷ d ∷ xs) k 0) {y = suc (suc (suc (suc j)))} (omega arith))
      ∙ ap (table (λ i. get_or xs i 0) 0) {y = length xs} (omega arith)
      ∙ table-get_or xs in
    ground (arith, rest)
body_split n [] bytes e af word = absurd (omega arith)
body_split n (a ∷ []) bytes e af word = absurd (omega arith)
body_split n (a ∷ b ∷ []) bytes e af word = absurd (omega arith)
body_split n (a ∷ b ∷ c ∷ []) bytes e af word = absurd (omega arith)

module _ (cu : Cu) (h : IsXl cu) where
  abbrev head : List ℕ
  head = header (vcid_of cu) (prio_of cu) (xl_flags cu) (xl_sdt cu) (xl_af cu)

  abbrev rest : Bool → List ℕ
  rest sep = put_data (xl_data_at cu) sep 0 (xl_len cu)

  xl_back :
      ◌≡◌ {A = Cu}
        (record {
          can_id = cu.can_id;
          len = bit_or cu.len canxl_xlf;
          flags = cu.flags;
          res0 = length (table (xl_data_at cu) 0 (xl_len cu)) % 2 ^ 8;
          len8_dlc = length (table (xl_data_at cu) 0 (xl_len cu)) / 2 ^ 8;
          body =
              xl_af cu % 2 ^ 8
              ∷ xl_af cu / 2 ^ 8 % 2 ^ 8
              ∷ xl_af cu / 2 ^ 16 % 2 ^ 8
              ∷ xl_af cu / 2 ^ 24 % 2 ^ 8
              ∷ table (xl_data_at cu) 0 (xl_len cu);
        })
        cu
  xl_back =
      rw
        (
          body_split (xl_len cu) cu.body h.words.body_u8 h.length_body (xl_af cu) refl,
          length-table,
          xlf_kept cu.len h.xlf h.words.len_u8,
        )
        (ground (arith, h.words.res0_u8))

  -- The body is read to the end of the string.
  read_body-xl :
      (cs : ℕ → ℕ) (len : ℕ) (sep : Bool)
      → Spells cs 0 head
      → Spells cs 21 (rest sep)
      → 21 + length (rest sep) ≡ len
      → cs len ≡ 0
      → read_body cs len cu.can_id 6 ≡ some (record { mtu = canxl_mtu; cu = cu })
  unfolding read_body read_xl
  read_body-xl cs len sep front text end nul =
      rw
        (
          ne→== (cs 6) b'R' (rw digit quiet.0),
          ne→== (cs 6) b'r' (rw digit quiet.1),
          ne→== (cs 6) b'#' (rw digit quiet.2),
          (marks.2),
          (marks.0),
          (marks.1),
          flags_at cs vcid prio flags sdt af front h.words.len_u8,
          sdt_at cs vcid prio flags sdt af front h.words.flags_u8,
          af_at cs vcid prio flags sdt af front (xl_af-lt cu h.words),
          read_data-put_data cs len (xl_data_at cu) sep in_range 2048 (xl_len cu) 21 0 false len
              h.len_max (λ p. refl) text end (omega arith) (inr (refl, omega arith)),
        )
        (ap (λ c. some (record { mtu = canxl_mtu; cu = c })) xl_back)
    where
      vcid : ℕ
      vcid = vcid_of cu

      prio : ℕ
      prio = prio_of cu

      flags : ℕ
      flags = xl_flags cu

      sdt : ℕ
      sdt = xl_sdt cu

      af : ℕ
      af = xl_af cu

      marks : (cs 8 ≡ b':') × (cs 11 ≡ b':') × (cs 20 ≡ b'#')
      marks = colons cs vcid prio flags sdt af front

      digit : cs 6 ≡ hex_asc_upper_lo (flags / 16)
      digit = flags_digit cs vcid prio flags sdt af front

      quiet : Quiet (hex_asc_upper_lo (flags / 16))
      quiet = lo-Quiet (flags / 16)

      in_range : (j : ℕ) → xl_data_at cu j < 256
      in_range j = bytes_get_or cu.body (4 + j) h.words.body_u8

  id_back : prio_of cu + vcid_of cu * 2 ^ 16 ≡ cu.can_id
  id_back = omega (arith, bit_and_mask 11 cu.can_id, bit_and_field 16 8 cu.can_id, h.vcid, h.prio)

  xl_printed :
      (size : ℕ) (sep : Bool)
      → 6300 ≤ size
      → snprintf_canframe size cu sep ≡ written (head ++ rest sep)
  unfolding snprintf_canframe print_xl
  xl_printed size sep room =
      rw
        (
          le→ltb size 1 (omega arith),
          flag_on 7 cu.len (omega (arith, h.xlf, h.words.len_u8)),
          xl_header_digits cu h.words,
        )
        (ground (arith, h.len_max))

-- A CAN XL frame with 1 to 2048 bytes of data parses back to itself, with and without separators,
-- whatever the memory behind the string holds, if the buffer has the 6300 bytes of AFRSZ or more.
pub parse-snprintf_xl :
    (size : ℕ) (cu : Cu) (sep : Bool) (after : ℕ → ℕ)
    → 6300 ≤ size
    → IsXl cu
    → Parses size cu sep after (record { mtu = canxl_mtu; cu = cu })
unfolding written parse_canframe read_frame put_id
parse-snprintf_xl size cu sep after room h = (
  s,
  ap (λ p. p.text) (xl_printed cu h size sep room),
  rw
      (
        le→leb 4 (length s) (omega arith),
        xl_id cs (vcid_of cu) (prio_of cu) _ _ _ (front-Spells (head cu h) (rest cu h sep) after)
            (prio-lt cu) (vcid-lt cu),
        id_back cu h,
      )
      (read_body-xl cu h cs (length s) sep (front-Spells (head cu h) (rest cu h sep) after)
        (behind-Spells (head cu h) (rest cu h sep) after) (omega arith) (char_at_end s after)),
)
  where
    s : List ℕ
    s = head cu h ++ rest cu h sep

    cs : ℕ → ℕ
    cs = char_at s after
