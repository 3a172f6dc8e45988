-- ===== src/CanFrame/FdFrame.antt =====
-- A CAN FD frame, printed and parsed.
use can_utils.Base.{
  ℕ, ◌+◌, ◌/◌, ◌%◌, ◌≤◌, ◌<◌, List, [], ◌∷◌, ◌++◌, All, some, ◌||◌, Bool, true, false, ◌≡◌, refl,
  sym, ap, ◌∙◌, ◌⊎◌, inr, arith, length, length-append, bit_or, if◌then◌else◌, is_set, ◌==◌, ◌&&◌,
  append-nil, all_below, all_below_sound,
}
use can_utils.Frame.{Cu, data_at, bytes_get_or, canfd_mtu, canfd_fdf}
use can_utils.Hex.{hex_asc_upper_lo}
use can_utils.Hex.Laws.{nibble-lo}
use can_utils.CanFrame.IdRoundTrip.{IsSff, IsEff, IsErr}
use can_utils.CanFrame.Print.{
  ccfd_text, put_can_id, put_data, put_trailer, put_fd_flags, shown_len, separated,
}
use can_utils.CanFrame.Parse.{read_id, read_fd, read_body, char_at}
use can_utils.CanFrame.DataRoundTrip.{table, length-table, two_on, read_data-put_data}
use can_utils.CanFrame.Classic.{table-get_or}
use can_utils.CanFrame.Spells.{Spells, behind-Spells, nul_behind}
use can_utils.CanFrame.RoundTrip.{Parses, text-Parses, read_id-put_can_id, parse_after_id}

-- A CAN FD frame: its flags are a digit with the FDF bit.
pub record IsFd (cu : Cu) : Type 0 where
  pub kind : IsSff cu.can_id ⊎ IsEff cu.can_id ⊎ IsErr cu.can_id
  pub len_max : cu.len ≤ 64
  pub flags_digit : cu.flags < 16
  pub fdf : cu.flags / 4 % 2 ≡ 1
  pub no_res0 : cu.res0 ≡ 0
  pub no_res1 : cu.len8_dlc ≡ 0
  pub length_body : length cu.body ≡ cu.len
  pub bytes : All (λ b. b < 256) cu.body

fdf_table : all_below 16 (λ x. x / 4 % 2 == 0 || bit_or x canfd_fdf == x) ≡ true
unfolding all_below
fdf_table = refl

fdf_kept : (x : ℕ) → x < 16 → x / 4 % 2 ≡ 1 → bit_or x canfd_fdf ≡ x
fdf_kept x small set =
    ground
      (arith, all_below_sound 16 (λ y. y / 4 % 2 == 0 || bit_or y canfd_fdf == y) x fdf_table small)

-- The text behind the identifier.
abbrev fd_rest : Cu → Bool → List ℕ
fd_rest cu sep =
    b'#'
    ∷ hex_asc_upper_lo cu.flags
    ∷ separated (sep && is_set cu.len) (put_data (data_at cu) sep 0 cu.len)

module _ (cu : Cu) (h : IsFd cu) where
  text_of_fd : (sep : Bool) → ccfd_text cu sep ≡ put_can_id cu.can_id ++ fd_rest cu sep
  unfolding ccfd_text put_fd_flags put_trailer
  text_of_fd sep = rw (shown, fd) (with_dot (sep && is_set cu.len))
    where
      fd : is_set cu.flags ≡ true
      fd = ground (arith, h.fdf)

      shown : shown_len cu ≡ cu.len
      shown = unfold shown_len in ground (arith, h.fdf, h.len_max)

      data_text : List ℕ
      data_text = put_data (data_at cu) sep 0 cu.len

      head : List ℕ → List ℕ
      head s = put_can_id cu.can_id ++ (b'#' ∷ hex_asc_upper_lo cu.flags ∷ s)

      with_dot :
          (b : Bool)
          → head ((if b then b'.' ∷ [] else []) ++ (data_text ++ [])) ≡ head (separated b data_text)
      with_dot true = ap (λ s. head (b'.' ∷ s)) (append-nil data_text)
      with_dot false = ap head (append-nil data_text)

  fd_back :
      ◌≡◌ {A = Cu}
        (record {
          can_id = cu.can_id;
          len = length (table (data_at cu) 0 cu.len);
          flags = bit_or (cu.flags % 16) canfd_fdf;
          res0 = 0;
          len8_dlc = 0;
          body = table (data_at cu) 0 cu.len;
        })
        cu
  fd_back = ground (
    arith,
    ap (table (data_at cu) 0) (sym h.length_body) ∙ table-get_or cu.body,
    length-table (data_at cu) 0 cu.len,
    fdf_kept cu.flags h.flags_digit h.fdf,
    h.no_res0,
    h.no_res1,
    h.flags_digit,
  )

  -- The body is read to the end of the string.
  read_body-fd :
      (cs : ℕ → ℕ) (len idx : ℕ) (sep : Bool)
      → Spells cs idx (fd_rest cu sep)
      → idx + length (fd_rest cu sep) ≡ len
      → cs len ≡ 0
      → read_body cs len cu.can_id idx ≡ some (record { mtu = canfd_mtu; cu = cu })
  unfolding read_body read_fd
  read_body-fd cs len idx sep text end nul =
      rw
        (
          text.0,
          text.1.0,
          nibble-lo,
          read_data-put_data cs len (data_at cu) sep in_range 64 cu.len (idx + 2) 0
              (sep && is_set cu.len) len h.len_max (no_dot sep) rest (omega arith) (omega arith)
              (inr (refl, omega arith)),
        )
        (ap (λ c. some (record { mtu = canfd_mtu; cu = c })) fd_back)
    where
      in_range : (j : ℕ) → data_at cu j < 256
      in_range j = bytes_get_or cu.body j h.bytes

      no_dot : (b : Bool) → cu.len ≡ 0 → (b && is_set cu.len) ≡ false
      no_dot true z = ground arith
      no_dot false z = refl

      rest :
          Spells cs
            (idx + 2)
            (separated (sep && is_set cu.len) (put_data (data_at cu) sep 0 cu.len))
      rest = two_on cs idx _ text.1.1

-- A CAN FD frame parses back to itself, with and without separators, whatever the memory behind
-- the string holds, if the buffer has the 6300 bytes of AFRSZ or more.
pub parse-snprintf_fd :
    (size : ℕ) (cu : Cu) (sep : Bool) (after : ℕ → ℕ)
    → 6300 ≤ size
    → IsFd cu
    → Parses size cu sep after (record { mtu = canfd_mtu; cu = cu })
parse-snprintf_fd size cu sep after room h =
    text-Parses size cu sep after _ room (omega (arith, h.len_max)) (
      rw (text_of_fd cu h sep) (
        parse_after_id after p cu.can_id rest reads.1 reads.0
        ∙ read_body-fd cu h cs _ (length p) sep (behind-Spells p rest after)
            (sym (length-append p rest)) (rw length-append (nul_behind p rest after))))
  where
    p : List ℕ
    p = put_can_id cu.can_id

    rest : List ℕ
    rest = fd_rest cu sep

    cs : ℕ → ℕ
    cs = char_at (p ++ rest) after

    reads : (read_id cs ≡ some (cu.can_id, length p)) × (4 ≤ length p)
    reads = read_id-put_can_id cu.can_id rest after h.kind
