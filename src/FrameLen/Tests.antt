-- ===== src/FrameLen/Tests.antt =====
-- The lengths of concrete frames on the wire.
use can_utils.Base.{List, ℕ, ◌≤◌, [], ◌∷◌, some, ◌≡◌, refl, arith}
use can_utils.Frame.{Cu, can_mtu, canfd_mtu}
use can_utils.FrameLen.Crc.{
  crc_update_bytewise, crc_update_bitwise, calc_bitmap_crc, bytewise-bitwise,
}
use can_utils.FrameLen.Stuff.{scan, scan_start, scan_step, window}
use can_utils.FrameLen.Stuff.Reference.{bits_from, stuff_bits}
use can_utils.FrameLen.Stuff.Exact.{scan-stuff_bits}
use can_utils.FrameLen.Length.{
  cfl_no_bitstuffing, cfl_worstcase, cfl_exact, can_frame_length, can_frame_length-exact,
  can_frame_dbitrate_length,
}

-- Zeros are stuffed most.
abbrev zeros : Cu
zeros = record {
  can_id = 0;
  len = 8;
  flags = 0;
  res0 = 0;
  len8_dlc = 0;
  body = 0 ∷ 0 ∷ 0 ∷ 0 ∷ 0 ∷ 0 ∷ 0 ∷ 0 ∷ [];
}

abbrev brs : Cu
brs = record zeros { flags = 1 }

brs_length : can_frame_dbitrate_length brs cfl_worstcase canfd_mtu ≡ 108
unfolding can_frame_dbitrate_length
brs_length = refl

zeros_length : can_frame_length zeros cfl_exact can_mtu ≡ some 127
unfolding can_frame_length calc_bitmap_crc crc_update_bytewise crc_update_bitwise scan scan_step
    window
zeros_length = refl

bytewise-bitwise_example : crc_update_bytewise 0 (0xA5 ∷ []) ≡ crc_update_bitwise 0 0xA5 8
bytewise-bitwise_example = bytewise-bitwise 0xA5 (omega arith)

can_frame_length-exact_example :
    (lo n hi : ℕ) × (can_frame_length zeros cfl_no_bitstuffing can_mtu ≡ some lo)
    × (can_frame_length zeros cfl_exact can_mtu ≡ some n)
    × (can_frame_length zeros cfl_worstcase can_mtu ≡ some hi)
    × (lo ≤ n)
    × (n ≤ hi)
can_frame_length-exact_example = can_frame_length-exact zeros (omega arith)

-- A run of zeros, one of ones and another of zeros, behind five bits that do not count.
abbrev runs : List ℕ
runs = 0 ∷ 0x1F ∷ 0xF0 ∷ 0 ∷ 0 ∷ []

two_of_five : stuff_bits 1 0 (0 ∷ 0 ∷ 0 ∷ 0 ∷ 0 ∷ 0 ∷ 0 ∷ 0 ∷ 0 ∷ 0 ∷ []) ≡ 2
unfolding stuff_bits
two_of_five = refl

-- The stuff bit is the first of the next run.
four_behind : stuff_bits 1 0 (0 ∷ 0 ∷ 0 ∷ 0 ∷ 0 ∷ 1 ∷ 1 ∷ 1 ∷ 1 ∷ []) ≡ 2
unfolding stuff_bits
four_behind = refl

scan-stuff_bits_example :
    scan 256 runs 32 (scan_start 5) ≡ some (stuff_bits 1 0 (bits_from runs 5 27))
scan-stuff_bits_example = scan-stuff_bits runs 5 32 (omega arith) (omega arith) (omega arith)
