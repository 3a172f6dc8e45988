-- ===== src/LongFrame.antt =====
-- `snprintf_long_canframe` of lib.c: the text of a frame in columns.
pub mod Room
pub mod Column
mod Tests
use can_utils.Base.{
  ℕ, zero, suc, ◌+◌, ◌-◌, ◌*◌, ◌/◌, ◌%◌, ◌^◌, List, [], ◌∷◌, ◌++◌, Bool, not, ◌&&◌, none, bit_and,
  bit_or, ltb, leb, ◌==◌, if◌then◌else◌, is_set, replicate,
}
use can_utils.Base.Text.{codes}
use can_utils.Frame.{
  Cu, data_at, xl_prio, xl_flags, xl_sdt, xl_len, xl_af, xl_data_at, can_eff_flag, can_rtr_flag,
  can_err_flag, can_sff_mask, can_eff_mask, can_err_mask, can_max_dlen, can_max_raw_dlc,
  canfd_max_dlen, canxl_xlf, canxl_prio_mask, canxl_vcid_offset, canxl_vcid_mask,
}
use can_utils.Hex.{hex_asc_upper_lo, put_hex_byte, put_sff_id, put_eff_id, print_hex}
use can_utils.CanFrame.Print.{Printed, overflow, written, shown_len}

-- The bits of `view`.
pub record View : Type 0 where
  pub ascii : Bool
  pub binary : Bool
  pub swap : Bool
  pub indent_sff : Bool
  pub len8_dlc : Bool

-- The conversion `%04d` of a number of 16 bits.
unfoldable pub put_len4 : ℕ → List ℕ
put_len4 n =
    let low =
      (n / 1000 % 10 + b'0')
      ∷ (n / 100 % 10 + b'0')
      ∷ (n / 10 % 10 + b'0')
      ∷ (n % 10 + b'0')
      ∷ [] in
    if ltb n 10000 then low else (n / 10000 + b'0') ∷ low

-- The bytes of a CAN XL frame from index `i` on, `n` of them, with a space between two.
unfoldable pub put_spaced : Cu → ℕ → ℕ → List ℕ
put_spaced cu i zero = []
put_spaced cu i (suc n) =
    put_hex_byte (xl_data_at cu i)
    ++ ((if ltb 0 n then b' ' ∷ [] else []) ++ put_spaced cu (i + 1) n)

unfoldable pub long_xl_header : Cu → View → List ℕ
long_xl_header cu view =
    (if view.indent_sff then replicate 5 b' ' else [])
    ++ (put_sff_id (bit_and (xl_prio cu) canxl_prio_mask)
        ++ (b' ' ∷ b'[' ∷ put_len4 (xl_len cu)
            ++ (b']'
                  ∷ b' '
                  ∷ b'('
                  ∷ print_hex 2 (bit_and (xl_prio cu) canxl_vcid_mask / 2 ^ canxl_vcid_offset)
                ++ (b'|' ∷ print_hex 2 (xl_flags cu)
                    ++ (b':' ∷ print_hex 2 (xl_sdt cu)
                        ++ (b':' ∷ print_hex 8 (xl_af cu) ++ (b')' ∷ b' ' ∷ [])))))))

-- The data is cut to what a CAN FD frame can hold. `sizeof` of the literal is 41.
unfoldable pub long_xl : ℕ → Cu → View → Printed
long_xl size cu view =
    let dlen = if ltb canfd_max_dlen (xl_len cu) then canfd_max_dlen else xl_len cu in
    if ltb (size - 1) (41 + 3 * dlen)
    then overflow size
    else written (
        long_xl_header cu view
        ++ (put_spaced cu 0 dlen ++ (if ltb dlen (xl_len cu) then codes " ..." else [])))

-- The characters for each byte: a space or a mark, and eight or two digits.
unfoldable pub byte_width : View → ℕ
byte_width view = if view.binary then 9 else 3

-- The room that is asked for. The literals count 17, 19, 15 and 15 bytes.
unfoldable pub long_room : Cu → View → ℕ
long_room cu view =
    let len = shown_len cu in
    let dlen = byte_width view in
    17
    + (if is_set (bit_and cu.can_id can_rtr_flag)
        then 19
        else len * dlen
          + (if not (leb len can_max_dlen)
              then 0
              else if is_set (bit_and cu.can_id can_err_flag)
              then 15 + (8 - len) * dlen
              else if view.ascii
              then 15 + (8 - len) * dlen
              else 0))

-- The identifier and two spaces.
unfoldable pub long_id : ℕ → View → List ℕ
long_id can_id view =
    if is_set (bit_and can_id can_err_flag)
    then put_eff_id (bit_and can_id (bit_or can_err_mask can_err_flag)) ++ replicate 2 b' '
    else if is_set (bit_and can_id can_eff_flag)
    then put_eff_id (bit_and can_id can_eff_mask) ++ replicate 2 b' '
    else (if view.indent_sff then replicate 5 b' ' else [])
      ++ (put_sff_id (bit_and can_id can_sff_mask) ++ replicate 2 b' ')

-- The length in five columns, or the raw DLC in braces.
unfoldable pub long_len : Cu → View → List ℕ
long_len cu view =
    let len = shown_len cu in
    let raw =
      len == can_max_dlen && (ltb can_max_dlen cu.len8_dlc && leb cu.len8_dlc can_max_raw_dlc) in
    if is_set cu.flags
    then b'[' ∷ (len / 10 + b'0') ∷ (len % 10 + b'0') ∷ b']' ∷ b' ' ∷ []
    else if view.len8_dlc
    then b' ' ∷ b'{' ∷ hex_asc_upper_lo (if raw then cu.len8_dlc else len) ∷ b'}' ∷ b' ' ∷ []
    else b' ' ∷ b'[' ∷ (len + b'0') ∷ b']' ∷ b' ' ∷ []

-- The bits of a byte below bit `n`, the highest first.
unfoldable pub put_bits : ℕ → ℕ → List ℕ
put_bits b zero = []
put_bits b (suc n) = (if is_set (bit_and (2 ^ n) b) then b'1' else b'0') ∷ put_bits b n

unfoldable pub put_byte : View → ℕ → List ℕ
put_byte view b = if view.binary then put_bits b 8 else put_hex_byte b

unfoldable pub put_forward : Cu → View → ℕ → ℕ → List ℕ
put_forward cu view i zero = []
put_forward cu view i (suc n) = b' ' ∷ put_byte view (data_at cu i) ++ put_forward cu view (i + 1) n

-- From byte `n - 1` down to byte 0 of `len` bytes.
unfoldable pub put_swapped : Cu → View → ℕ → ℕ → List ℕ
put_swapped cu view len zero = []
put_swapped cu view len (suc n) =
    (if n == len - 1 then b' ' else b'`') ∷ put_byte view (data_at cu n)
    ++ put_swapped cu view len n

unfoldable pub long_data : Cu → View → List ℕ
long_data cu view =
    let len = shown_len cu in
    if view.swap then put_swapped cu view len len else put_forward cu view 0 len

unfoldable pub printable : ℕ → ℕ
printable b = if ltb 0x1F b && ltb b 0x7F then b else b'.'

unfoldable pub ascii_forward : Cu → ℕ → ℕ → List ℕ
ascii_forward cu i zero = []
ascii_forward cu i (suc n) = printable (data_at cu i) ∷ ascii_forward cu (i + 1) n

unfoldable pub ascii_swapped : Cu → ℕ → List ℕ
ascii_swapped cu zero = []
ascii_swapped cu (suc n) = printable (data_at cu n) ∷ ascii_swapped cu n

-- What stands behind the data of at most eight bytes, at a fixed column.
unfoldable pub long_trailer : Cu → View → List ℕ
long_trailer cu view =
    let len = shown_len cu in
    let pad = byte_width view * (8 - len) in
    if ltb can_max_dlen len
    then []
    else if is_set (bit_and cu.can_id can_err_flag)
    then replicate (pad + 3) b' ' ++ codes "ERRORFRAME"
    else if not view.ascii
    then []
    else if view.swap
    then replicate (pad + 3) b' ' ++ (b'`' ∷ ascii_swapped cu len ++ (b'`' ∷ []))
    else replicate (pad + 3) b' ' ++ (b'\'' ∷ ascii_forward cu 0 len ++ (b'\'' ∷ []))

unfoldable pub long_text : Cu → View → List ℕ
long_text cu view =
    long_id cu.can_id view
    ++ (long_len cu view
        ++ (if not (is_set cu.flags) && is_set (bit_and cu.can_id can_rtr_flag)
            then codes " remote request"
            else long_data cu view ++ long_trailer cu view))

unfoldable pub long_ccfd : ℕ → Cu → View → Printed
long_ccfd size cu view =
    if ltb (size - 1) (long_room cu view) then overflow size else written (long_text cu view)

unfoldable pub snprintf_long_canframe : ℕ → Cu → View → Printed
snprintf_long_canframe size cu view =
    if ltb size 1
    then record { text = none; ret = size }
    else if is_set (bit_and (xl_flags cu) canxl_xlf)
    then long_xl size cu view
    else long_ccfd size cu view
