-- ===== src/CanFrame/DataFrame.antt =====
-- A Classical CAN frame with data, printed and parsed.
use can_utils.Base.{
  ℕ, ◌/◌, ◌%◌, ◌^◌, ◌≤◌, ◌<◌, List, [], ◌∷◌, ◌++◌, All, some, Bool, false, ◌≡◌, sym, ap, ◌∙◌, subst,
  ◌⊎◌, inl, inr, arith, length, bit_and, is_set, append-nil,
}
use can_utils.Frame.{Cu, data_at, bytes_get_or, can_mtu}
use can_utils.Hex.{hex_asc_upper_lo}
use can_utils.CanFrame.IdRoundTrip.{IsSff, IsEff, IsErr, flag_off}
use can_utils.CanFrame.Print.{
  ccfd_text, put_can_id, put_data, put_len8_dlc, put_trailer, put_fd_flags, shown_len,
}
use can_utils.CanFrame.Parse.{parse_canframe, read_id, char_at}
use can_utils.CanFrame.DataRoundTrip.{table}
use can_utils.CanFrame.Classic.{table-get_or}
use can_utils.CanFrame.RoundTrip.{
  NoHash, Parses, text-Parses, read_id-put_can_id, parse_plain, parse_raw,
}

-- A Classical CAN frame that carries data: what a receiver gets from the kernel.
pub record IsClassic (cu : Cu) : Type 0 where
  pub kind : IsSff cu.can_id ⊎ IsEff cu.can_id ⊎ IsErr cu.can_id
  pub len_max : cu.len ≤ 8
  pub no_flags : cu.flags ≡ 0
  pub no_res0 : cu.res0 ≡ 0
  pub raw_dlc : (cu.len8_dlc ≡ 0) ⊎ ((cu.len ≡ 8) × (8 < cu.len8_dlc) × (cu.len8_dlc ≤ 15))
  pub length_body : length cu.body ≡ cu.len
  pub bytes : All (λ b. b < 256) cu.body

pub rtr_bit : (id : ℕ) → IsSff id ⊎ IsEff id ⊎ IsErr id → id / 2 ^ 30 % 2 ≡ 0
rtr_bit id k = omega arith

module _ (cu : Cu) (h : IsClassic cu) where
  no_rtr : is_set (bit_and cu.can_id 0x40000000) ≡ false
  no_rtr = flag_off 30 cu.can_id (rtr_bit cu.can_id h.kind)

  no_fd : is_set cu.flags ≡ false
  no_fd = ground (arith, h.no_flags)

  shown : shown_len cu ≡ cu.len
  unfolding shown_len
  shown = ground (arith, h.no_flags, h.len_max)

  text_of_classic :
      (sep : Bool)
      → ccfd_text cu sep
        ≡ put_can_id cu.can_id ++ (put_data (data_at cu) sep 0 cu.len ++ put_trailer cu cu.len)
  unfolding ccfd_text put_fd_flags
  text_of_classic sep = rw (shown, no_fd, no_rtr)

  trailer_none : (cu.len8_dlc ≡ 0) ⊎ (cu.len < 8) → put_trailer cu cu.len ≡ []
  unfolding put_trailer put_len8_dlc
  trailer_none q = ground arith

  trailer_raw :
      cu.len ≡ 8
      → 8 < cu.len8_dlc
      → cu.len8_dlc ≤ 15
      → put_trailer cu cu.len ≡ b'_' ∷ hex_asc_upper_lo cu.len8_dlc ∷ []
  unfolding put_trailer put_len8_dlc
  trailer_raw e low high = ground arith

  body_back : table (data_at cu) 0 cu.len ≡ cu.body
  body_back = ap (table (data_at cu) 0) (sym h.length_body) ∙ table-get_or cu.body

  plain_back :
      cu.len8_dlc ≡ 0
      → ◌≡◌ {A = Cu}
          (record {
            can_id = cu.can_id;
            len = cu.len;
            flags = 0;
            res0 = 0;
            len8_dlc = 0;
            body = table (data_at cu) 0 cu.len;
          })
          cu
  plain_back z = ground (arith, body_back, h.no_flags, h.no_res0)

  raw_back :
      cu.len ≡ 8
      → ◌≡◌ {A = Cu}
          (record {
            can_id = cu.can_id;
            len = 8;
            flags = 0;
            res0 = 0;
            len8_dlc = cu.len8_dlc;
            body = table (data_at cu) 0 8;
          })
          cu
  raw_back full =
      let body : table (data_at cu) 0 8 ≡ cu.body =
        ap (table (data_at cu) 0) (sym full) ∙ body_back in
      ground (arith, body, h.no_flags, h.no_res0)

-- A Classical CAN frame with data parses back to itself, with and without separators, its raw DLC
-- included, if the buffer has the 6300 bytes of AFRSZ or more and the memory behind the string
-- holds no '#'.
pub parse-snprintf_classic :
    (size : ℕ) (cu : Cu) (sep : Bool) (after : ℕ → ℕ)
    → 6300 ≤ size
    → IsClassic cu
    → NoHash after
    → Parses size cu sep after (record { mtu = can_mtu; cu = cu })
parse-snprintf_classic size cu sep after room h hash =
    text-Parses size cu sep after _ room (omega (arith, h.len_max))
      (rw (text_of_classic cu h sep) (by_dlc h.raw_dlc))
  where
    p : List ℕ
    p = put_can_id cu.can_id

    bytes : List ℕ
    bytes = put_data (data_at cu) sep 0 cu.len

    reads :
        (rest : List ℕ)
        → (read_id (char_at (p ++ rest) after) ≡ some (cu.can_id, length p)) × (4 ≤ length p)
    reads rest = read_id-put_can_id cu.can_id rest after h.kind

    in_range : (j : ℕ) → data_at cu j < 256
    in_range j = bytes_get_or cu.body j h.bytes

    raw_tail : List ℕ
    raw_tail = b'_' ∷ hex_asc_upper_lo cu.len8_dlc ∷ []

    by_dlc :
        (cu.len8_dlc ≡ 0) ⊎ ((cu.len ≡ 8) × (8 < cu.len8_dlc) × (cu.len8_dlc ≤ 15))
        → parse_canframe (p ++ (bytes ++ put_trailer cu cu.len)) after
          ≡ some (record { mtu = can_mtu; cu = cu })
    by_dlc (inl zero_dlc) =
        rw (trailer_none cu h (inl zero_dlc), append-nil)
          (parse_plain after hash p cu.can_id (data_at cu) sep in_range (reads []).1 cu.len
              h.len_max (reads bytes).0
            ∙ ap (λ c. some (record { mtu = can_mtu; cu = c })) (plain_back cu h zero_dlc))
    by_dlc (inr (full, low, high)) = rw (trailer_raw cu h full low high) (
        subst
          (λ n.
            parse_canframe (p ++ (put_data (data_at cu) sep 0 n ++ raw_tail)) after
            ≡ some (record { mtu = can_mtu; cu = cu }))
          (sym full)
          (parse_raw after hash p cu.can_id (data_at cu) sep in_range (reads []).1 cu.len8_dlc low
              high (reads (put_data (data_at cu) sep 0 8 ++ raw_tail)).0
            ∙ ap (λ c. some (record { mtu = can_mtu; cu = c })) (raw_back cu h full)))
