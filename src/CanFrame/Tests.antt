-- ===== src/CanFrame/Tests.antt =====
-- The examples of lib.h, run.
use can_utils.Base.{ℕ, [], ◌∷◌, some, ◌≡◌, refl, true}
use can_utils.Base.Text.{codes}
use can_utils.Base.{none, false, if◌then◌else◌, ◌==◌, replicate, arith}
use can_utils.Frame.{Cu, IsWords, can_mtu, canfd_mtu, canxl_mtu}
use can_utils.CanFrame.Bounds.{FitsIn, snprintf_canframe-FitsIn}
use can_utils.CanFrame.RoundTrip.{NoHash, Parses}
use can_utils.CanFrame.DataFrame.{IsClassic, parse-snprintf_classic}
use can_utils.CanFrame.Remote.{IsRemote, parse-snprintf_remote}
use can_utils.CanFrame.FdFrame.{IsFd, parse-snprintf_fd}
use can_utils.CanFrame.XlFrame.{IsXl, parse-snprintf_xl}
use can_utils.CanFrame.Parse.{
  parse_canframe, read_frame, read_id, read_body, read_rtr, read_fd, read_xl, read_cc, read_data,
  read_byte, read_digits, char_at,
}
use can_utils.CanFrame.Print.{
  snprintf_canframe, print_ccfd, ccfd_text, ccfd_room, put_trailer, overflow, written, put_data,
  put_can_id, put_rtr, put_fd_flags, shown_len, put_len8_dlc,
}
use can_utils.Hex.{nibble, asc2nibble, put_hex_byte, put_eff_id, hex_asc_upper_lo}

abbrev quiet : ℕ → ℕ
quiet i = 0

abbrev eff_frame : Cu
eff_frame = record {
  can_id = 0x92345678;
  len = 3;
  flags = 0;
  res0 = 0;
  len8_dlc = 0;
  body = 0x11 ∷ 0x22 ∷ 0x33 ∷ [];
}

parse_eff :
    parse_canframe (codes "12345678#112233") quiet ≡ some (record { mtu = 16; cu = eff_frame })
unfolding parse_canframe read_frame read_id read_body read_rtr read_fd read_xl read_cc read_data
    read_byte read_digits char_at nibble asc2nibble
parse_eff = refl

print_eff :
    snprintf_canframe 100 eff_frame true
    ≡ record { text = some (codes "12345678#11.22.33"); ret = 17 }
unfolding snprintf_canframe print_ccfd ccfd_text ccfd_room put_trailer overflow written put_data
    put_can_id put_rtr put_fd_flags shown_len put_len8_dlc put_hex_byte put_eff_id hex_asc_upper_lo
print_eff = refl

parse_rtr :
    parse_canframe (codes "123#R8_9") quiet
    ≡ some (record {
      mtu = 16;
      cu = record { can_id = 0x40000123; len = 8; flags = 0; res0 = 0; len8_dlc = 9; body = [] };
    })
unfolding parse_canframe read_frame read_id read_body read_rtr read_fd read_xl read_cc read_data
    read_byte read_digits char_at nibble asc2nibble
parse_rtr = refl

parse_xl :
    parse_canframe (codes "45123#81:00:12345678#11223344.556677") quiet
    ≡ some (record {
      mtu = 2060;
      cu = record {
        can_id = 0x450123;
        len = 0x81;
        flags = 0;
        res0 = 7;
        len8_dlc = 0;
        body = 0x78 ∷ 0x56 ∷ 0x34 ∷ 0x12 ∷ 0x11 ∷ 0x22 ∷ 0x33 ∷ 0x44 ∷ 0x55 ∷ 0x66 ∷ 0x77 ∷ [];
      };
    })
unfolding parse_canframe read_frame read_id read_body read_rtr read_fd read_xl read_cc read_data
    read_byte read_digits char_at nibble asc2nibble
parse_xl = refl

abbrev hash_at : ℕ → ℕ
hash_at i = if i == 11 then b'#' else 0

-- The text that `parse_classic` reads as a frame is refused when the memory behind it holds a '#'
-- where a CAN XL header would end.
parse_behind : parse_canframe (codes "123#11") hash_at ≡ none
unfolding parse_canframe read_frame read_id read_body read_rtr read_fd read_xl read_cc read_data
    read_byte read_digits char_at nibble asc2nibble
parse_behind = refl

parse_classic :
    parse_canframe (codes "123#11") quiet
    ≡ some (record {
      mtu = 16;
      cu = record { can_id = 0x123; len = 1; flags = 0; res0 = 0; len8_dlc = 0; body = 0x11 ∷ [] };
    })
unfolding parse_canframe read_frame read_id read_body read_rtr read_fd read_xl read_cc read_data
    read_byte read_digits char_at nibble asc2nibble
parse_classic = refl

eff_frame-IsWords : IsWords eff_frame
eff_frame-IsWords = ground arith

snprintf_canframe-FitsIn_example : FitsIn 5 (snprintf_canframe 5 eff_frame false)
snprintf_canframe-FitsIn_example =
    snprintf_canframe-FitsIn 5 eff_frame false eff_frame-IsWords (omega arith)

eff_frame-IsClassic : IsClassic eff_frame
eff_frame-IsClassic = ground arith

quiet-NoHash : NoHash quiet
quiet-NoHash j = ground arith

parse-snprintf_classic_example :
    Parses 6300 eff_frame true quiet (record { mtu = can_mtu; cu = eff_frame })
parse-snprintf_classic_example =
    parse-snprintf_classic 6300 eff_frame true quiet (omega arith) eff_frame-IsClassic quiet-NoHash

abbrev remote_frame : Cu
remote_frame = record { can_id = 0x40000123; len = 8; flags = 0; res0 = 0; len8_dlc = 9; body = [] }

remote_frame-IsRemote : IsRemote remote_frame
remote_frame-IsRemote = ground arith

parse-snprintf_remote_example :
    Parses 6300 remote_frame false hash_at (record { mtu = can_mtu; cu = remote_frame })
parse-snprintf_remote_example =
    parse-snprintf_remote 6300 remote_frame false hash_at (omega arith) remote_frame-IsRemote

abbrev fd_frame : Cu
fd_frame = record {
  can_id = 0x123;
  len = 12;
  flags = 5;
  res0 = 0;
  len8_dlc = 0;
  body = replicate 12 0xA5;
}

fd_frame-IsFd : IsFd fd_frame
fd_frame-IsFd = ground arith

parse-snprintf_fd_example :
    Parses 6300 fd_frame true hash_at (record { mtu = canfd_mtu; cu = fd_frame })
parse-snprintf_fd_example = parse-snprintf_fd 6300 fd_frame true hash_at (omega arith) fd_frame-IsFd

-- Two bytes of data behind the acceptance field.
abbrev xl_frame : Cu
xl_frame = record {
  can_id = 0x450123;
  len = 0x81;
  flags = 0;
  res0 = 2;
  len8_dlc = 0;
  body = 0x78 ∷ 0x56 ∷ 0x34 ∷ 0x12 ∷ 0x11 ∷ 0x22 ∷ [];
}

xl_frame-IsXl : IsXl xl_frame
xl_frame-IsXl = ground arith

parse-snprintf_xl_example :
    Parses 6300 xl_frame false hash_at (record { mtu = canxl_mtu; cu = xl_frame })
parse-snprintf_xl_example =
    parse-snprintf_xl 6300 xl_frame false hash_at (omega arith) xl_frame-IsXl
