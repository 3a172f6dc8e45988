-- ===== src/CanFrame/Print.antt =====
-- `snprintf_canframe`. What it writes to `buf` before the terminating NUL is a list of characters.
use can_utils.Base.{
  ℕ, zero, suc, ◌+◌, ◌-◌, ◌*◌, ◌/◌, ◌^◌, List, [], ◌∷◌, ◌++◌, Bool, not, ◌&&◌, Option, none, some,
  bit_and, bit_or, ltb, leb, ◌==◌, if◌then◌else◌, is_set, replicate, length,
}
use can_utils.Frame.{
  Cu, data_at, xl_prio, xl_flags, xl_sdt, xl_len, xl_af, xl_data_at, can_eff_flag, can_rtr_flag,
  can_err_flag, can_sff_mask, can_eff_mask, can_err_mask, can_max_dlen, can_max_raw_dlc,
  canfd_max_dlen, canxl_xlf, canxl_prio_mask, canxl_vcid_offset, canxl_vcid_mask,
}
use can_utils.Hex.{hex_asc_upper_lo, put_hex_byte, put_sff_id, put_eff_id, print_hex}

-- A call's effect: the characters in the buffer up to the NUL, and the value returned. `none` is
-- the buffer of size 0, to which nothing is written.
pub record Printed : Type 0 where
  pub text : Option (List ℕ)
  pub ret : ℕ

-- The buffer filled with '-' that marks an overflow.
unfoldable pub overflow : ℕ → Printed
overflow size = record { text = some (replicate (size - 1) b'-'); ret = size }

unfoldable pub written : List ℕ → Printed
written s = record { text = some s; ret = length s }

-- A separator, if there is one, before what follows.
abbrev pub separated : Bool → List ℕ → List ℕ
separated sep s = if sep then b'.' ∷ s else s

-- The loop over the data from index `i`, with `n` bytes left.
unfoldable pub put_data : (ℕ → ℕ) → Bool → ℕ → ℕ → List ℕ
put_data data_of sep i zero = []
put_data data_of sep i (suc n) =
    put_hex_byte (data_of i) ++ separated (sep && ltb 0 n) (put_data data_of sep (i + 1) n)

-- The header that `sprintf` prints for a CAN XL frame.
unfoldable pub xl_header : Cu → List ℕ
xl_header cu =
    print_hex 2 (bit_and (xl_prio cu) canxl_vcid_mask / 2 ^ canxl_vcid_offset)
    ++ (print_hex 3 (bit_and (xl_prio cu) canxl_prio_mask)
        ++ (b'#' ∷ print_hex 2 (xl_flags cu)
            ++ (b':' ∷ print_hex 2 (xl_sdt cu) ++ (b':' ∷ print_hex 8 (xl_af cu) ++ (b'#' ∷ [])))))

-- `sizeof` of a literal counts its NUL: 22 and 12 bytes.
unfoldable pub print_xl : ℕ → Cu → Bool → Printed
print_xl size cu sep =
    let len = xl_len cu in
    if ltb (size - 1) (22 + 2 * len + (if sep then len else 0))
    then overflow size
    else written (xl_header cu ++ put_data (xl_data_at cu) sep 0 len)

-- The length is cut to what the kind of frame can hold.
unfoldable pub shown_len : Cu → ℕ
shown_len cu =
    let most = if is_set cu.flags then canfd_max_dlen else can_max_dlen in
    if ltb most cu.len then most else cu.len

-- The identifier with its '#'.
unfoldable pub put_can_id : ℕ → List ℕ
put_can_id can_id =
    if is_set (bit_and can_id can_err_flag)
    then put_eff_id (bit_and can_id (bit_or can_err_mask can_err_flag)) ++ (b'#' ∷ [])
    else if is_set (bit_and can_id can_eff_flag)
    then put_eff_id (bit_and can_id can_eff_mask) ++ (b'#' ∷ [])
    else put_sff_id (bit_and can_id can_sff_mask) ++ (b'#' ∷ [])

-- The raw DLC behind a frame of 8 bytes, if there is one.
unfoldable pub put_len8_dlc : Cu → List ℕ
put_len8_dlc cu =
    let dlc = cu.len8_dlc in
    if ltb can_max_dlen dlc && leb dlc can_max_raw_dlc then b'_' ∷ hex_asc_upper_lo dlc ∷ [] else []

-- A remote request: 'R', a length that is not zero, and the raw DLC.
unfoldable pub put_rtr : Cu → ℕ → List ℕ
put_rtr cu len =
    b'R'
    ∷ (if is_set len && leb len can_max_dlen
        then hex_asc_upper_lo cu.len ∷ (if len == can_max_dlen then put_len8_dlc cu else [])
        else [])

-- The second '#' of a CAN FD frame, its flags and a separator.
unfoldable pub put_fd_flags : Cu → Bool → ℕ → List ℕ
put_fd_flags cu sep len =
    if is_set cu.flags
    then b'#' ∷ hex_asc_upper_lo cu.flags ∷ (if sep && is_set len then b'.' ∷ [] else [])
    else []

-- The raw DLC behind the data of a Classical CAN frame of 8 bytes.
unfoldable pub put_trailer : Cu → ℕ → List ℕ
put_trailer cu len = if not (is_set cu.flags) && len == can_max_dlen then put_len8_dlc cu else []

-- All that is printed of a Classical CAN or CAN FD frame.
unfoldable pub ccfd_text : Cu → Bool → List ℕ
ccfd_text cu sep =
    let len = shown_len cu in
    if not (is_set cu.flags) && is_set (bit_and cu.can_id can_rtr_flag)
    then put_can_id cu.can_id ++ put_rtr cu len
    else put_can_id cu.can_id
      ++ (put_fd_flags cu sep len ++ (put_data (data_at cu) sep 0 len ++ put_trailer cu len))

-- The room that is asked for first.
unfoldable pub ccfd_room : Cu → Bool → ℕ
ccfd_room cu sep =
    let len = shown_len cu in
    12
    + 2 * len
    + (if sep then len else 0)
    + (if is_set (bit_and cu.can_id can_rtr_flag) then 2 else 0)

unfoldable pub print_ccfd : ℕ → Cu → Bool → Printed
print_ccfd size cu sep =
    if ltb (size - 1) (ccfd_room cu sep) then overflow size else written (ccfd_text cu sep)

unfoldable pub snprintf_canframe : ℕ → Cu → Bool → Printed
snprintf_canframe size cu sep =
    if ltb size 1
    then record { text = none; ret = size }
    else if is_set (bit_and (xl_flags cu) canxl_xlf)
    then print_xl size cu sep
    else print_ccfd size cu sep
