-- ===== src/CanFrame/Parse.antt =====
-- `parse_canframe`. The string is its characters `s`, and `after` is what the memory holds behind
-- its NUL, for the code reads at fixed offsets past the end of a short string.
use can_utils.Base.{
  ℕ, zero, suc, ◌+◌, ◌*◌, ◌/◌, ◌%◌, ◌^◌, List, [], ◌∷◌, ◌&&◌, ◌||◌, Option, none, some, bit_and,
  bit_or, ltb, leb, ◌==◌, if◌then◌else◌, is_set, length, ◌>>=◌, ◌>>◌, guard,
}
use can_utils.Frame.{
  Cu, can_eff_flag, can_rtr_flag, can_err_flag, can_max_dlen, can_max_raw_dlc, canfd_max_dlen,
  canxl_max_dlen, canfd_fdf, canxl_xlf, canxl_prio_mask, canxl_vcid_mask, can_mtu, canfd_mtu,
  canxl_mtu,
}
use can_utils.Hex.{asc2nibble, nibble}

-- `cs[i]`
unfoldable pub char_at : List ℕ → (ℕ → ℕ) → ℕ → ℕ
char_at [] after zero = 0
char_at [] after (suc i) = after i
char_at (c ∷ s) after zero = c
char_at (c ∷ s) after (suc i) = char_at s after i

-- What a successful call leaves: the structure's size that it returns, and the union.
pub record Parsed : Type 0 where
  pub mtu : ℕ
  pub cu : Cu

-- A frame of which only the identifier is set.
abbrev pub zeroed : ℕ → Cu
zeroed can_id = record { can_id = can_id; len = 0; flags = 0; res0 = 0; len8_dlc = 0; body = [] }

module _ (cs : ℕ → ℕ) where
  -- `n` digits from index `i` on, the highest first, joined to `acc`.
  unfoldable pub read_digits : ℕ → ℕ → ℕ → Option ℕ
  read_digits i zero acc = some acc
  read_digits i (suc n) acc = do
    tmp ← nibble (cs i)
    read_digits (i + 1) n (bit_or acc (tmp * 2 ^ (n * 4)))

  -- The identifier and the index behind its '#'.
  unfoldable pub read_id : Option (ℕ × ℕ)
  read_id =
      if cs 3 == b'#'
      then (do id ← read_digits 0 3 0; some (id, 4))
      else if cs 5 == b'#'
      then (do
        prio ← read_digits 0 5 0
        some (bit_or (bit_and prio canxl_prio_mask) (bit_and (prio * 2 ^ 4) canxl_vcid_mask), 6))
      else if cs 8 == b'#'
      then (do
        id ← read_digits 0 8 0
        some (if is_set (bit_and id can_err_flag) then id else bit_or id can_eff_flag, 9))
      else none

  -- A remote request whose 'R' stands at `idx`.
  unfoldable pub read_rtr : ℕ → ℕ → Parsed
  read_rtr id idx =
      let rtr = zeroed (bit_or id can_rtr_flag) in
      let tmp = asc2nibble (cs (idx + 1)) in
      let dlc = asc2nibble (cs (idx + 3)) in
      if is_set (cs (idx + 1)) && leb tmp can_max_dlen
      then if tmp == can_max_dlen
          && cs (idx + 2) == b'_'
          && ltb can_max_dlen dlc
          && leb dlc can_max_raw_dlc
        then record { mtu = can_mtu; cu = record rtr { len = tmp; len8_dlc = dlc } }
        else record { mtu = can_mtu; cu = record rtr { len = tmp } }
      else record { mtu = can_mtu; cu = rtr }

  -- Two digits of a byte.
  unfoldable pub read_byte : ℕ → Option ℕ
  read_byte i = do
    hi ← nibble (cs i)
    lo ← nibble (cs (i + 1))
    some (bit_or (hi * 2 ^ 4 % 2 ^ 8) lo)

  -- The loop over the data with room for `room` more bytes: the bytes, and the index behind them.
  unfoldable pub read_data : ℕ → ℕ → ℕ → Option (List ℕ × ℕ)
  read_data len zero idx = some ([], idx)
  read_data len (suc room) idx =
      let start = if cs idx == b'.' then idx + 1 else idx in
      let more : Option (List ℕ × ℕ) = do
        byte ← read_byte start
        rest ← read_data len room (start + 2)
        some (byte ∷ rest.0, rest.1)
      in if leb len start then some ([], start) else more

  -- A CAN FD frame whose second '#' stands at `idx`.
  unfoldable pub read_fd : ℕ → ℕ → ℕ → Option Parsed
  read_fd len id idx = do
    tmp ← nibble (cs (idx + 1))
    bytes ← read_data len canfd_max_dlen (idx + 2)
    some (record {
      mtu = canfd_mtu;
      cu = record (zeroed id) {
        len = length bytes.0;
        flags = bit_or tmp canfd_fdf;
        body = bytes.0;
      };
    })

  -- A CAN XL frame whose header starts at `idx`. The acceptance field is the first four bytes of
  -- the body, and the length is stored in the two bytes that `can_frame` calls res0 and len8_dlc.
  unfoldable pub read_xl : ℕ → ℕ → ℕ → Option Parsed
  read_xl len id idx = do
    guard (cs (idx + 2) == b':' && cs (idx + 5) == b':')
    xl_flags ← read_byte idx
    sdt ← read_byte (idx + 3)
    af ← read_digits (idx + 6) 8 0
    bytes ← read_data len canxl_max_dlen (idx + 15)
    some (record {
      mtu = canxl_mtu;
      cu = record {
        can_id = id;
        len = bit_or xl_flags canxl_xlf;
        flags = sdt;
        res0 = length bytes.0 % 2 ^ 8;
        len8_dlc = length bytes.0 / 2 ^ 8;
        body =
            af % 2 ^ 8 ∷ af / 2 ^ 8 % 2 ^ 8 ∷ af / 2 ^ 16 % 2 ^ 8 ∷ af / 2 ^ 24 % 2 ^ 8 ∷ bytes.0;
      };
    })

  -- A Classical CAN frame whose data starts at `idx`, and its raw DLC.
  unfoldable pub read_cc : ℕ → ℕ → ℕ → Option Parsed
  read_cc len id idx = do
    bytes ← read_data len can_max_dlen idx
    let dlen = length bytes.0
    let dlc = asc2nibble (cs (bytes.1 + 1))
    let frame = record (zeroed id) { len = dlen; body = bytes.0 }
    some (
        if dlen == can_max_dlen
          && cs bytes.1 == b'_'
          && ltb can_max_dlen dlc
          && leb dlc can_max_raw_dlc
        then record { mtu = can_mtu; cu = record frame { len8_dlc = dlc } }
        else record { mtu = can_mtu; cu = frame })

  -- What follows the identifier decides the kind of frame.
  unfoldable pub read_body : ℕ → ℕ → ℕ → Option Parsed
  read_body len id idx =
      if cs idx == b'R' || cs idx == b'r'
      then some (read_rtr id idx)
      else if cs idx == b'#'
      then read_fd len id idx
      else if cs (idx + 14) == b'#'
      then read_xl len id idx
      else read_cc len id idx

  unfoldable pub read_frame : ℕ → Option Parsed
  read_frame len = do guard (leb 4 len); (id, idx) ← read_id; read_body len id idx

-- `none` is the return value 0, after which callers do not use the union.
unfoldable pub parse_canframe : List ℕ → (ℕ → ℕ) → Option Parsed
parse_canframe s after = read_frame (char_at s after) (length s)
