-- ===== src/LongFrame/Tests.antt =====
-- Frames in columns.
use can_utils.Base.{
  ℕ, ◌+◌, ◌*◌, ◌≤◌, List, [], ◌∷◌, ◌++◌, true, false, none, some, ◌≡◌, refl, arith, length,
  replicate,
}
use can_utils.Base.Text.{codes}
use can_utils.Frame.{Cu, IsWords}
use can_utils.Hex.{hex_asc_upper_lo, hex_asc_upper_hi, put_hex_byte, put_sff_id, put_eff_id, put_id}
use can_utils.CanFrame.Print.{Printed, written, shown_len}
use can_utils.CanFrame.Bounds.{FitsIn}
use can_utils.LongFrame.{
  View, byte_width, long_id, long_len, put_byte, put_swapped, long_data, printable, ascii_swapped,
  long_trailer, long_text, long_room, long_ccfd, snprintf_long_canframe,
}
use can_utils.LongFrame.Room.{snprintf_long_canframe-FitsIn}
use can_utils.LongFrame.Column.{quoted, long_text_column}

abbrev sample : Cu
sample = record {
  can_id = 0x123;
  len = 3;
  flags = 0;
  res0 = 0;
  len8_dlc = 0;
  body = 0x41 ∷ 0x0D ∷ 0xEF ∷ [];
}

abbrev columns_view : View
columns_view = record {
  ascii = true;
  binary = false;
  swap = true;
  indent_sff = true;
  len8_dlc = false;
}

sample-IsWords : IsWords sample
sample-IsWords = record {
  can_id_u32 = omega arith;
  len_u8 = omega arith;
  flags_u8 = omega arith;
  res0_u8 = omega arith;
  len8_dlc_u8 = omega arith;
  body_u8 = (omega arith, (omega arith, (omega arith, tt)));
}

printed_sample :
    (snprintf_long_canframe 80 sample columns_view).text
    ≡ some (codes "     123   [3]  EF`0D`41" ++ (replicate 18 b' ' ++ codes "`..A`"))
unfolding snprintf_long_canframe long_ccfd long_room long_text long_id long_len long_data
    long_trailer put_swapped put_byte ascii_swapped printable byte_width shown_len written
    put_sff_id put_id put_hex_byte hex_asc_upper_lo hex_asc_upper_hi
printed_sample = refl

snprintf_long_canframe-FitsIn_example : FitsIn 80 (snprintf_long_canframe 80 sample columns_view)
snprintf_long_canframe-FitsIn_example =
    snprintf_long_canframe-FitsIn 80 sample columns_view sample-IsWords refl (omega arith)

short_sample : shown_len sample ≤ 8
unfolding shown_len
short_sample = omega arith

long_text_column_example :
    (front : List ℕ) × (long_text sample columns_view ≡ front ++ quoted sample columns_view)
    × (length front ≡ length (long_id sample.can_id columns_view) + 8 + 8 * byte_width columns_view)
long_text_column_example = long_text_column sample columns_view short_sample refl refl refl

-- The room that is asked for a CAN FD frame with the flag of a remote request does not count its
-- data: 207 characters are written to a buffer of 40.
abbrev fd_remote : Cu
fd_remote = record {
  can_id = 0x80000000 + 0x40000000;
  len = 64;
  flags = 4;
  res0 = 0;
  len8_dlc = 0;
  body = [];
}

length_written : Printed → ℕ
length_written p = elim p.text [ none ↦ 0 | some s ↦ length s ]

fd_remote_overruns : length_written (snprintf_long_canframe 40 fd_remote columns_view) ≡ 207
unfolding length_written snprintf_long_canframe long_ccfd long_room long_text long_id long_len
    long_data long_trailer put_swapped put_byte byte_width shown_len written put_eff_id put_id
    put_hex_byte hex_asc_upper_lo hex_asc_upper_hi
fd_remote_overruns = refl
