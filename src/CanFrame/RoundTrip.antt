-- ===== src/CanFrame/RoundTrip.antt =====
-- What `snprintf_canframe` prints of a frame, `parse_canframe` reads back.
use can_utils.Base.{
  ℕ, ◌+◌, ◌%◌, ◌^◌, ◌≤◌, ◌<◌, List, [], ◌∷◌, ◌++◌, All, All-append, All-map, some, Bool, ◌≡◌, ◌≢◌,
  refl, ap, ◌∙◌, subst, ◌⊎◌, inl, inr, arith, length, length-append, le→ltb, le→leb,
}
use can_utils.Frame.{Cu, can_mtu}
use can_utils.CanFrame.IdRoundTrip.{
  IsSff, IsEff, IsErr, flag_off, read_id_sff, read_id_eff, read_id_err, put_can_id_sff,
  put_can_id_eff, put_can_id_err,
}
use can_utils.CanFrame.Spells.{
  Spells, Spells-append, front-Spells, behind-Spells, nul_behind, char_at-All,
}
use can_utils.CanFrame.DataRoundTrip.{table}
use can_utils.CanFrame.Classic.{
  Quiet, lo-Quiet, put_data-Quiet, read_body-cc, read_cc_plain, read_cc_dlc,
}
use can_utils.Hex.{hex_asc_upper_lo, put_sff_id, put_eff_id, put_id}
use can_utils.CanFrame.Print.{
  snprintf_canframe, print_ccfd, ccfd_room, shown_len, written, ccfd_text, put_can_id, put_data,
}
use can_utils.CanFrame.Parse.{
  char_at, zeroed, read_frame, Parsed, parse_canframe, read_id, read_body, read_cc,
}

-- The memory behind the string holds no '#' where the parser might look for a CAN XL header.
abbrev pub NoHash : (ℕ → ℕ) → Type 0
NoHash after = (j : ℕ) → after j ≢ b'#'

-- What the parser makes of the text that is printed into `size` bytes.
abbrev pub Parses : ℕ → Cu → Bool → (ℕ → ℕ) → Parsed → Type 0
Parses size cu sep after r =
    (s : List ℕ) × ((snprintf_canframe size cu sep).text ≡ some s)
    × (parse_canframe s after ≡ some r)

-- With room for the longest text nothing is cut.
pub snprintf_room :
    (size : ℕ) (cu : Cu) (sep : Bool)
    → 6300 ≤ size
    → cu.len < 128
    → snprintf_canframe size cu sep ≡ written (ccfd_text cu sep)
unfolding snprintf_canframe print_ccfd ccfd_room shown_len
snprintf_room size cu sep h l =
    rw (le→ltb size 1 (omega arith), flag_off 7 cu.len (omega arith)) (ground arith)

-- An identifier that was printed is read, whatever follows it.
pub read_id-put_can_id :
    (id : ℕ) (rest : List ℕ) (after : ℕ → ℕ)
    → IsSff id ⊎ IsEff id ⊎ IsErr id
    → (read_id (char_at (put_can_id id ++ rest) after) ≡ some (id, length (put_can_id id)))
      × (4 ≤ length (put_can_id id))
unfolding put_sff_id put_eff_id put_id
read_id-put_can_id id rest after (inl sff) =
    let e : put_can_id id ≡ put_sff_id id ++ (b'#' ∷ []) =
      put_can_id_sff id (omega arith) (omega arith)
      ∙ ap (λ k. put_sff_id k ++ (b'#' ∷ [])) (omega arith) in
    rw e
      (read_id_sff _ id sff (front-Spells (put_sff_id id ++ (b'#' ∷ [])) rest after), omega arith)
read_id-put_can_id id rest after (inr (inl eff)) =
    let v : ℕ = id % 2 ^ 29 in
    rw (put_can_id_eff id (omega arith) (eff.0) (omega arith)) (
      read_id_eff _ v (omega arith) (front-Spells (put_eff_id v ++ (b'#' ∷ [])) rest after)
          ∙ ap (λ k. some (k, 9)) (omega arith),
      omega arith,
    )
read_id-put_can_id id rest after (inr (inr err)) =
    rw (put_can_id_err id err)
      (read_id_err _ id err (front-Spells (put_eff_id id ++ (b'#' ∷ [])) rest after), omega arith)

pub text-Parses :
    (size : ℕ) (cu : Cu) (sep : Bool) (after : ℕ → ℕ) (r : Parsed)
    → 6300 ≤ size
    → cu.len < 128
    → parse_canframe (ccfd_text cu sep) after ≡ some r
    → Parses size cu sep after r
unfolding written
text-Parses size cu sep after r h l parsed =
    (ccfd_text cu sep, ap (λ p. p.text) (snprintf_room size cu sep h l), parsed)

module _ (after : ℕ → ℕ) (p : List ℕ) (id : ℕ) where
  -- The identifier decides where the body starts.
  pub parse_after_id :
      (rest : List ℕ)
      → 4 ≤ length p
      → read_id (char_at (p ++ rest) after) ≡ some (id, length p)
      → parse_canframe (p ++ rest) after
        ≡ read_body (char_at (p ++ rest) after) (length (p ++ rest)) id (length p)
  unfolding parse_canframe read_frame
  parse_after_id rest long reads =
      rw (le→leb 4 (length (p ++ rest)) (omega (arith, length-append p rest)), reads)

module _ (after : ℕ → ℕ) (hash : NoHash after) (p : List ℕ) (id : ℕ) where
  -- Characters that open no other kind of frame lead to the data of a Classical CAN frame.
  parse_cc :
      (rest : List ℕ)
      → 4 ≤ length p
      → All Quiet rest
      → read_id (char_at (p ++ rest) after) ≡ some (id, length p)
      → parse_canframe (p ++ rest) after
        ≡ read_cc (char_at (p ++ rest) after) (length (p ++ rest)) id (length p)
  parse_cc rest long quiet reads =
      parse_after_id after p id rest long reads ∙ read_body-cc _ _ id (length p) here far
    where
      cs : ℕ → ℕ
      cs = char_at (p ++ rest) after

      here : Quiet (cs (length p))
      here =
          subst (λ k. Quiet (cs k)) {x = length p + 0} (omega arith)
            (char_at-All Quiet after p rest 0 (omega arith) quiet (inl (omega arith)))

      far : cs (length p + 14) ≢ b'#'
      far =
          char_at-All (λ c. c ≢ b'#') after p rest 14 (omega arith)
            (All-map Quiet (λ c. c ≢ b'#') rest (λ c q. q.2) quiet) (inr hash)

  module _ (f : ℕ → ℕ) (sep : Bool) (bytes : (j : ℕ) → f j < 256) (long : 4 ≤ length p) where
    pub parse_plain :
        (n : ℕ)
        → n ≤ 8
        → read_id (char_at (p ++ put_data f sep 0 n) after) ≡ some (id, length p)
        → parse_canframe (p ++ put_data f sep 0 n) after
          ≡ some (record { mtu = can_mtu; cu = record (zeroed id) { len = n; body = table f 0 n } })
    parse_plain n fits reads =
        parse_cc (put_data f sep 0 n) long (put_data-Quiet f sep 0 n) reads
        ∙ read_cc_plain _ _ id (length p) f sep bytes n (length p + length (put_data f sep 0 n))
            fits (behind-Spells p (put_data f sep 0 n) after) refl
            (length-append p (put_data f sep 0 n)) (nul_behind p (put_data f sep 0 n) after)

    pub parse_raw :
        (d : ℕ)
        → 8 < d
        → d ≤ 15
        → (let rest = put_data f sep 0 8 ++ (b'_' ∷ hex_asc_upper_lo d ∷ []) in
            read_id (char_at (p ++ rest) after) ≡ some (id, length p)
            → parse_canframe (p ++ rest) after
              ≡ some (record {
                mtu = can_mtu;
                cu = record (zeroed id) { len = 8; len8_dlc = d; body = table f 0 8 };
              }))
    parse_raw d low high reads =
        parse_cc rest long quiet reads
        ∙ read_cc_dlc _ _ id (length p) f sep bytes e d parts.0 refl (omega (arith, whole))
            parts.1.0 parts.1.1.0 low high
      where
        tail : List ℕ
        tail = b'_' ∷ hex_asc_upper_lo d ∷ []

        rest : List ℕ
        rest = put_data f sep 0 8 ++ tail

        e : ℕ
        e = length p + length (put_data f sep 0 8)

        quiet : All Quiet rest
        quiet =
            All-append Quiet (put_data f sep 0 8) tail (put_data-Quiet f sep 0 8)
              (omega arith, (lo-Quiet d, tt))

        parts :
            Spells (char_at (p ++ rest) after) (length p) (put_data f sep 0 8)
            × Spells (char_at (p ++ rest) after) e tail
        parts = Spells-append _ (length p) (put_data f sep 0 8) tail (behind-Spells p rest after)

        whole : length (p ++ rest) ≡ length p + (length (put_data f sep 0 8) + 2)
        whole = omega (arith, length-append p rest, length-append (put_data f sep 0 8) tail)
