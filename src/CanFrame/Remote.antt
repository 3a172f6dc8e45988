-- ===== src/CanFrame/Remote.antt =====
-- A remote request, printed and parsed.
use can_utils.Base.{
  ℕ, ◌+◌, ◌-◌, ◌/◌, ◌%◌, ◌^◌, ◌≤◌, ◌<◌, List, [], ◌∷◌, ◌++◌, none, some, Bool, false, ◌≡◌, refl, ap,
  ◌∙◌, ◌⊎◌, inl, inr, arith, length, bit_or, is_set,
}
use can_utils.Base.Bits.{bit_or_flag}
use can_utils.Frame.{Cu, can_mtu, can_rtr_flag}
use can_utils.Hex.{nibble, asc2nibble, put_sff_id, put_eff_id, put_id}
use can_utils.Hex.Laws.{asc2nibble-lo}
use can_utils.CanFrame.IdRoundTrip.{
  IsSff, IsEff, flag_on, read_id_sff, read_id_eff, put_can_id_sff, put_can_id_eff,
}
use can_utils.CanFrame.Print.{ccfd_text, put_can_id, put_rtr, put_len8_dlc, shown_len}
use can_utils.CanFrame.Parse.{zeroed, read_id, read_rtr, read_body, char_at}
use can_utils.CanFrame.Spells.{Spells, front-Spells, behind-Spells, nul_behind, lo-ne}
use can_utils.CanFrame.RoundTrip.{Parses, text-Parses, parse_after_id}

-- The identifier without the flag of a remote request.
abbrev pub base_id : ℕ → ℕ
base_id id = id - can_rtr_flag

-- A remote request: it carries a length and maybe a raw DLC, but no data.
pub record IsRemote (cu : Cu) : Type 0 where
  pub rtr : can_rtr_flag ≤ cu.can_id
  pub kind : IsSff (base_id cu.can_id) ⊎ IsEff (base_id cu.can_id)
  pub len_max : cu.len ≤ 8
  pub no_flags : cu.flags ≡ 0
  pub no_res0 : cu.res0 ≡ 0
  pub raw_dlc : (cu.len8_dlc ≡ 0) ⊎ ((cu.len ≡ 8) × (8 < cu.len8_dlc) × (cu.len8_dlc ≤ 15))
  pub no_body : cu.body ≡ []

read_id-put_can_id_rtr :
    (id : ℕ) (rest : List ℕ) (after : ℕ → ℕ)
    → can_rtr_flag ≤ id
    → IsSff (base_id id) ⊎ IsEff (base_id id)
    → (read_id (char_at (put_can_id id ++ rest) after) ≡ some (base_id id, length (put_can_id id)))
      × (4 ≤ length (put_can_id id))
unfolding put_sff_id put_eff_id put_id
read_id-put_can_id_rtr id rest after rtr (inl sff) =
    rw (put_can_id_sff id (omega arith) (omega arith)) (
      read_id_sff _ v (omega arith) (front-Spells (put_sff_id v ++ (b'#' ∷ [])) rest after)
          ∙ ap (λ k. some (k, 4)) (omega arith),
      omega arith,
    )
  where
    v : ℕ
    v = id % 2 ^ 11
read_id-put_can_id_rtr id rest after rtr (inr eff) =
    rw (put_can_id_eff id (omega arith) (omega arith) (omega arith)) (
      read_id_eff _ v (omega arith) (front-Spells (put_eff_id v ++ (b'#' ∷ [])) rest after)
          ∙ ap (λ k. some (k, 9)) (omega arith),
      omega arith,
    )
  where
    v : ℕ
    v = id % 2 ^ 29

-- The characters of the request and the NUL behind them.
abbrev Requests : (ℕ → ℕ) → ℕ → List ℕ → Type 0
Requests cs idx s = Spells cs idx s × (cs (idx + length s) ≡ 0)

nibble_nul : nibble 0 ≡ none
unfolding nibble asc2nibble
nibble_nul = refl

module _ (cs : ℕ → ℕ) (id idx : ℕ) (cu : Cu) where
  -- Every form of the request is read back: no length, a length, a raw DLC.
  read_rtr-put_rtr :
      cu.len ≤ 8
      → (cu.len8_dlc ≡ 0) ⊎ ((cu.len ≡ 8) × (8 < cu.len8_dlc) × (cu.len8_dlc ≤ 15))
      → Requests cs idx (put_rtr cu cu.len)
      → read_rtr cs id idx ≡ record {
        mtu = can_mtu;
        cu = record (zeroed (bit_or id can_rtr_flag)) { len = cu.len; len8_dlc = cu.len8_dlc };
      }
  unfolding put_rtr put_len8_dlc read_rtr
  read_rtr-put_rtr small dlc text =
      ground (arith, asc2nibble-lo cu.len, asc2nibble-lo cu.len8_dlc, lo-ne cu.len 0 nibble_nul)

-- 'R' opens a remote request.
read_body-rtr :
    (cs : ℕ → ℕ) (len id idx : ℕ)
    → cs idx ≡ b'R'
    → read_body cs len id idx ≡ some (read_rtr cs id idx)
unfolding read_body
read_body-rtr cs len id idx h = rw h

put_rtr-head :
    (cu : Cu) (len : ℕ) (cs : ℕ → ℕ) (idx : ℕ) → Spells cs idx (put_rtr cu len) → cs idx ≡ b'R'
unfolding put_rtr
put_rtr-head cu len cs idx h = h.0

module _ (cu : Cu) (h : IsRemote cu) where
  text_of_remote : (sep : Bool) → ccfd_text cu sep ≡ put_can_id cu.can_id ++ put_rtr cu cu.len
  unfolding ccfd_text
  text_of_remote sep = rw (shown, no_fd, flag_on 30 cu.can_id rtr_bit)
    where
      shown : shown_len cu ≡ cu.len
      shown = unfold shown_len in ground (arith, h.no_flags, h.len_max)

      no_fd : is_set cu.flags ≡ false
      no_fd = ground (arith, h.no_flags)

      rtr_bit : cu.can_id / 2 ^ 30 % 2 ≡ 1
      rtr_bit = omega (arith, h.kind, h.rtr)

  remote_back :
      ◌≡◌ {A = Cu}
        (record {
          can_id = bit_or (base_id cu.can_id) can_rtr_flag;
          len = cu.len;
          flags = 0;
          res0 = 0;
          len8_dlc = cu.len8_dlc;
          body = [];
        })
        cu
  remote_back =
      let id : bit_or (base_id cu.can_id) can_rtr_flag ≡ cu.can_id =
        bit_or_flag 30 (base_id cu.can_id) (omega (arith, h.kind)) ∙ omega (arith, h.rtr) in
      ground (arith, id, h.no_flags, h.no_res0, h.no_body)

-- A remote request parses back to itself, with its length and its raw DLC, whatever the memory
-- behind the string holds, if the buffer has the 6300 bytes of AFRSZ or more.
pub parse-snprintf_remote :
    (size : ℕ) (cu : Cu) (sep : Bool) (after : ℕ → ℕ)
    → 6300 ≤ size
    → IsRemote cu
    → Parses size cu sep after (record { mtu = can_mtu; cu = cu })
parse-snprintf_remote size cu sep after room h =
    text-Parses size cu sep after _ room (omega (arith, h.len_max)) (
      rw (text_of_remote cu h sep) (
        parse_after_id after p (base_id cu.can_id) rest reads.1 reads.0
        ∙ read_body-rtr cs _ _ (length p) (put_rtr-head cu cu.len cs (length p) text)
        ∙ ap some (
            read_rtr-put_rtr cs _ (length p) cu h.len_max h.raw_dlc (text, nul_behind p rest after))
        ∙ ap (λ c. some (record { mtu = can_mtu; cu = c })) (remote_back cu h)))
  where
    p : List ℕ
    p = put_can_id cu.can_id

    rest : List ℕ
    rest = put_rtr cu cu.len

    cs : ℕ → ℕ
    cs = char_at (p ++ rest) after

    text : Spells cs (length p) rest
    text = behind-Spells p rest after

    reads : (read_id cs ≡ some (base_id cu.can_id, length p)) × (4 ≤ length p)
    reads = read_id-put_can_id_rtr cu.can_id rest after h.rtr h.kind
