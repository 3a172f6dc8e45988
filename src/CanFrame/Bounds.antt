-- ===== src/CanFrame/Bounds.antt =====
-- `snprintf_canframe` stays inside the buffer that it is given.
use can_utils.Base.{
  ℕ, zero, suc, ◌+◌, ◌-◌, ◌*◌, ◌/◌, ◌^◌, ◌≤◌, ◌<◌, List, [], ◌∷◌, ◌++◌, Bool, true, false, ◌&&◌,
  some, ◌≡◌, refl, ◌⊎◌, inl, inr, arith, length, length-append, length-replicate, replicate,
  bit_and, if◌then◌else◌, is_set, ltb, le→ltb, Bool-cases,
}
use can_utils.Base.Bits.{bit_and_mask, bit_and_field}
use can_utils.Frame.{
  Cu, IsWords, bytes_get_or, data_at, xl_prio, xl_flags, xl_sdt, xl_len, xl_af, xl_data_at,
  canxl_prio_mask, canxl_vcid_mask, canxl_vcid_offset, canxl_xlf,
}
use can_utils.Hex.{put_hex_byte, put_id, put_eff_id, put_sff_id}
use can_utils.Hex.Laws.{print_hex_fits}
use can_utils.CanFrame.Print.{
  Printed, overflow, written, put_data, xl_header, print_xl, shown_len, put_can_id, put_len8_dlc,
  put_rtr, put_fd_flags, put_trailer, ccfd_text, ccfd_room, print_ccfd, snprintf_canframe,
}

-- The text with its NUL fits `size` bytes, and the value returned is its length, or `size` for
-- the overflow mark, which fills the buffer.
abbrev pub FitsIn : ℕ → Printed → Type 0
FitsIn size p =
    (s : List ℕ) × (p.text ≡ some s)
    × (length s < size)
    × ((p.ret ≡ length s) ⊎ ((p.ret ≡ size) × (length s + 1 ≡ size)))

pub overflow-FitsIn : (size : ℕ) → 0 < size → FitsIn size (overflow size)
unfolding overflow
overflow-FitsIn size h =
    let dash : ℕ = b'-' in
    let l = length-replicate (size - 1) dash in
    (replicate (size - 1) dash, refl, omega (arith, l), inr (refl, omega (arith, l)))

written-FitsIn : (size : ℕ) (s : List ℕ) → length s < size → FitsIn size (written s)
unfolding written
written-FitsIn size s h = (s, refl, h, inl refl)

-- Both printers test for room before they write.
pub checked-FitsIn :
    (size need : ℕ) (s : List ℕ)
    → 0 < size
    → length s ≤ need
    → FitsIn size (if ltb (size - 1) need then overflow size else written s)
checked-FitsIn size need s pos h = elim (Bool-cases (ltb (size - 1) need)) [
  | inl full ↦ rw full (overflow-FitsIn size pos)
  | inr room ↦ rw room (written-FitsIn size s (ground arith))
]

-- Two digits for each byte and a separator between two bytes.
pub length-put_data :
    (f : ℕ → ℕ) (sep : Bool) (i n : ℕ)
    → length (put_data f sep i n) ≡ 2 * n + (if sep then n - 1 else 0)
unfolding put_data put_hex_byte
length-put_data f true i zero = refl
length-put_data f false i zero = refl
length-put_data f true i (suc zero) = refl
length-put_data f true i (suc (suc n)) = ground (arith, length-put_data f true (i + 1) (suc n))
length-put_data f false i (suc n) = ground (arith, length-put_data f false (i + 1) n)

pub xl_af-lt : (cu : Cu) → IsWords cu → xl_af cu < 2 ^ 32
xl_af-lt cu h = omega (
  arith,
  bytes_get_or cu.body 0 h.body_u8,
  bytes_get_or cu.body 1 h.body_u8,
  bytes_get_or cu.body 2 h.body_u8,
  bytes_get_or cu.body 3 h.body_u8,
)

abbrev pub vcid_of : Cu → ℕ
vcid_of cu = bit_and (xl_prio cu) canxl_vcid_mask / 2 ^ canxl_vcid_offset

abbrev pub prio_of : Cu → ℕ
prio_of cu = bit_and (xl_prio cu) canxl_prio_mask

pub vcid-lt : (cu : Cu) → vcid_of cu < 256
vcid-lt cu = omega (arith, bit_and_field 16 8 cu.can_id)

pub prio-lt : (cu : Cu) → prio_of cu < 2048
prio-lt cu = omega (arith, bit_and_mask 11 cu.can_id)

-- Every number of the header fits the width that it is printed at.
pub xl_header_digits :
    (cu : Cu)
    → IsWords cu
    → xl_header cu
      ≡ put_id 2 (vcid_of cu) []
        ++ (put_id 3 (prio_of cu) []
            ++ (b'#' ∷ put_id 2 (xl_flags cu) []
                ++ (b':' ∷ put_id 2 (xl_sdt cu) []
                    ++ (b':' ∷ put_id 8 (xl_af cu) [] ++ (b'#' ∷ [])))))
unfolding xl_header
xl_header_digits cu h = rw (
  print_hex_fits 2 (vcid_of cu) (vcid-lt cu),
  print_hex_fits 3 (prio_of cu) (omega (arith, prio-lt cu)),
  print_hex_fits 2 (xl_flags cu) h.len_u8,
  print_hex_fits 2 (xl_sdt cu) h.flags_u8,
  print_hex_fits 8 (xl_af cu) (xl_af-lt cu h),
)

length-xl_header : (cu : Cu) → IsWords cu → length (xl_header cu) ≡ 21
unfolding put_id
length-xl_header cu h = rw (xl_header_digits cu h)

length-put_can_id : (can_id : ℕ) → length (put_can_id can_id) ≤ 9
unfolding put_can_id put_eff_id put_sff_id
length-put_can_id can_id = ground arith

print_xl-FitsIn :
    (size : ℕ) (cu : Cu) (sep : Bool) → IsWords cu → 0 < size → FitsIn size (print_xl size cu sep)
unfolding print_xl
print_xl-FitsIn size cu sep h pos = checked-FitsIn size _ _ pos (
    ground (
      arith,
      length-append (xl_header cu) (put_data (xl_data_at cu) sep 0 (xl_len cu)),
      length-xl_header cu h,
      length-put_data (xl_data_at cu) sep 0 (xl_len cu),
    ))

length-put_rtr : (cu : Cu) (len : ℕ) → length (put_rtr cu len) ≤ 4
unfolding put_rtr put_len8_dlc
length-put_rtr cu len = ground arith

length-put_len8_dlc : (cu : Cu) → length (put_len8_dlc cu) ≤ 2
unfolding put_len8_dlc
length-put_len8_dlc cu = ground arith

length-put_fd_flags :
    (cu : Cu) (sep : Bool) (len : ℕ)
    → length (put_fd_flags cu sep len)
      ≤ (if is_set cu.flags then 2 + (if sep && is_set len then 1 else 0) else 0)
unfolding put_fd_flags
length-put_fd_flags cu sep len = ground arith

length-put_trailer :
    (cu : Cu) (len : ℕ) → length (put_trailer cu len) ≤ 2 - (if is_set cu.flags then 2 else 0)
unfolding put_trailer
length-put_trailer cu len = ground (arith, length-put_len8_dlc cu)

length-ccfd_text : (cu : Cu) (sep : Bool) → length (ccfd_text cu sep) ≤ ccfd_room cu sep
unfolding ccfd_text ccfd_room
length-ccfd_text cu sep = ground (
  arith,
  length-append id (put_rtr cu len),
  length-append id (flags ++ (bytes ++ put_trailer cu len)),
  length-append flags (bytes ++ put_trailer cu len),
  length-append bytes (put_trailer cu len),
  length-put_can_id cu.can_id,
  length-put_rtr cu len,
  length-put_fd_flags cu sep len,
  length-put_data (data_at cu) sep 0 len,
  length-put_trailer cu len,
)
  where
    len : ℕ
    len = shown_len cu

    id : List ℕ
    id = put_can_id cu.can_id

    flags : List ℕ
    flags = put_fd_flags cu sep len

    bytes : List ℕ
    bytes = put_data (data_at cu) sep 0 len

print_ccfd-FitsIn :
    (size : ℕ) (cu : Cu) (sep : Bool) → 0 < size → FitsIn size (print_ccfd size cu sep)
unfolding print_ccfd
print_ccfd-FitsIn size cu sep pos = checked-FitsIn size _ _ pos (length-ccfd_text cu sep)

-- For every frame and every buffer that has a byte, the text and its NUL stay inside the buffer.
-- The value returned is the length of the text, or the buffer's size if the text is the overflow
-- mark, which then fills the buffer.
pub snprintf_canframe-FitsIn :
    (size : ℕ) (cu : Cu) (sep : Bool)
    → IsWords cu
    → 0 < size
    → FitsIn size (snprintf_canframe size cu sep)
unfolding snprintf_canframe
snprintf_canframe-FitsIn size cu sep h pos =
    rw (le→ltb size 1 pos) (elim (Bool-cases (is_set (bit_and (xl_flags cu) canxl_xlf))) [
      | inl xl ↦ rw xl (print_xl-FitsIn size cu sep h pos)
      | inr other ↦ rw other (print_ccfd-FitsIn size cu sep pos)
    ])
