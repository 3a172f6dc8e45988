-- ===== src/Frame.antt =====
-- The CAN frame structures of include/linux/can.h and their union `cu_t` of lib.h.
use can_utils.Base.{ℕ, zero, suc, ◌+◌, ◌*◌, ◌^◌, ◌<◌, List, [], ◌∷◌, All, get_or, arith}

abbrev pub can_eff_flag : ℕ
can_eff_flag = 0x80000000

abbrev pub can_rtr_flag : ℕ
can_rtr_flag = 0x40000000

abbrev pub can_err_flag : ℕ
can_err_flag = 0x20000000

abbrev pub can_sff_mask : ℕ
can_sff_mask = 0x7FF

abbrev pub can_eff_mask : ℕ
can_eff_mask = 0x1FFFFFFF

abbrev pub can_err_mask : ℕ
can_err_mask = 0x1FFFFFFF

abbrev pub can_max_dlen : ℕ
can_max_dlen = 8

abbrev pub can_max_raw_dlc : ℕ
can_max_raw_dlc = 15

abbrev pub canfd_max_dlen : ℕ
canfd_max_dlen = 64

abbrev pub canxl_max_dlen : ℕ
canxl_max_dlen = 2048

abbrev pub canfd_brs : ℕ
canfd_brs = 0x01

abbrev pub canfd_fdf : ℕ
canfd_fdf = 0x04

abbrev pub canxl_xlf : ℕ
canxl_xlf = 0x80

abbrev pub canxl_prio_mask : ℕ
canxl_prio_mask = 0x7FF

abbrev pub canxl_vcid_offset : ℕ
canxl_vcid_offset = 16

abbrev pub canxl_vcid_mask : ℕ
canxl_vcid_mask = 0xFF0000

-- The sizes of the three structures: 8 header bytes with 8 or 64 data bytes, 12 with 2048.
abbrev pub can_mtu : ℕ
can_mtu = 16

abbrev pub canfd_mtu : ℕ
canfd_mtu = 72

abbrev pub canxl_mtu : ℕ
canxl_mtu = 2060

-- `cu_t`. The three structures share their bytes: the fields are named for `can_frame` and
-- `canfd_frame`, and `body` holds the bytes from offset 8 on. The list ends with the last byte
-- that was written, and every byte after it is zero.
pub record Cu : Type 0 where
  pub can_id : ℕ
  pub len : ℕ
  pub flags : ℕ
  pub res0 : ℕ
  pub len8_dlc : ℕ
  pub body : List ℕ

-- `cc.data[i]` and `fd.data[i]`.
abbrev pub data_at : Cu → ℕ → ℕ
data_at cu i = get_or cu.body i 0

-- The fields of `canxl_frame` on the same bytes; words of several bytes are little-endian.
abbrev pub xl_prio : Cu → ℕ
xl_prio cu = cu.can_id

abbrev pub xl_flags : Cu → ℕ
xl_flags cu = cu.len

abbrev pub xl_sdt : Cu → ℕ
xl_sdt cu = cu.flags

abbrev pub xl_len : Cu → ℕ
xl_len cu = cu.res0 + 256 * cu.len8_dlc

abbrev pub xl_af : Cu → ℕ
xl_af cu = data_at cu 0 + 2 ^ 8 * data_at cu 1 + 2 ^ 16 * data_at cu 2 + 2 ^ 24 * data_at cu 3

abbrev pub xl_data_at : Cu → ℕ → ℕ
xl_data_at cu i = data_at cu (4 + i)

-- Every field holds what its C type can hold.
pub record IsWords (cu : Cu) : Type 0 where
  pub can_id_u32 : cu.can_id < 2 ^ 32
  pub len_u8 : cu.len < 256
  pub flags_u8 : cu.flags < 256
  pub res0_u8 : cu.res0 < 256
  pub len8_dlc_u8 : cu.len8_dlc < 256
  pub body_u8 : All (λ b. b < 256) cu.body

pub bytes_get_or : (xs : List ℕ) (i : ℕ) → All (λ b. b < 256) xs → get_or xs i 0 < 256
bytes_get_or [] i h = omega arith
bytes_get_or (x ∷ xs) zero h = h.0
bytes_get_or (x ∷ xs) (suc i) h = bytes_get_or xs i h.1
