-- ===== src/SlcanPty/Tests.antt =====
-- Runs of the bridge between a terminal and a CAN socket.
use can_utils.Base.{
  ℕ, ◌+◌, ◌≤◌, List, [], ◌∷◌, All, true, false, ◌≡◌, refl, ap, arith, length, some, none, inl, inr,
  Option,
}
use can_utils.Base.Text.{codes}
use can_utils.SlcanPty.{SlcFrame, update, copy_down, store, chars}
use can_utils.SlcanPty.Strtoul.{
  strtoul16, with_sign, limited, digits_value, skip_prefix, skip_spaces,
}
use can_utils.SlcanPty.Command.{
  command, can_command, rtr_command, frame_command, other_command, id_before, scan_data,
}
use can_utils.SlcanPty.Loop.{Slcan, Writes, Run, pty2can, rx_restart, strip, has_cr, settings}
use can_utils.SlcanPty.Print.{
  can2pty, slc_mtu, put_head, command_letter, put_decimal, put_bytes, put_stamp,
}
use can_utils.Hex.{print_hex, significant, put_id, hex_asc_upper_lo, asc2nibble}
use can_utils.SlcanPty.Ends.{Returns, pty2can-Returns}
use can_utils.SlcanPty.Line.{IsData}
use can_utils.SlcanPty.RoundTrip.{Done, printed, pty2can-can2pty}
use can_utils.SlcanPty.Room.{can2pty_fits}

abbrev short_frame : SlcFrame
short_frame = record { can_id = 0x123; can_dlc = 2; bytes = 0x0D ∷ 0xEF ∷ [] }

abbrev long_frame : SlcFrame
long_frame = record { can_id = 0x92345678; can_dlc = 0; bytes = [] }

abbrev frames : List SlcFrame
frames = short_frame ∷ long_frame ∷ []

abbrev idle : Slcan
idle = record { buf = λ i. 0; rxoffset = 0; is_open = true; tstamp = false }

abbrev all_written : Writes
all_written = record { socket_ok = λ k. true; pty_ok = λ k. true }

frames-IsData : All IsData frames
frames-IsData = (
  record {
    id = inl (omega arith);
    dlc = omega arith;
    len = refl;
    byte = (omega arith, (omega arith, tt));
  },
  (record { id = inr (omega arith, omega arith); dlc = omega arith; len = refl; byte = tt }, tt),
)

lines_fit : length (printed frames) ≡ 21
unfolding can2pty put_head command_letter put_decimal put_bytes put_stamp print_hex significant
    put_id hex_asc_upper_lo
lines_fit = refl

pty2can-can2pty_example : Done frames (pty2can all_written idle (printed frames))
pty2can-can2pty_example =
    pty2can-can2pty all_written (λ k. refl) (λ k. refl) frames idle
      (λ e. absurd (omega (arith, ap length e))) frames-IsData refl (omega (arith, lines_fit))

can2pty_fits_example : length (can2pty short_frame (some (59, 999999))) + 1 ≤ slc_mtu
can2pty_fits_example =
    can2pty_fits short_frame (some (59, 999999)) (omega arith) (omega arith, (omega arith, tt))
      (omega arith)

pty2can-Returns_example : Returns (pty2can all_written idle (codes "t1230\rZ1\rO"))
pty2can-Returns_example =
    pty2can-Returns all_written idle (codes "t1230\rZ1\rO")
      (record { room = omega arith; incomplete = inl refl }) (omega arith)

-- What a call writes to the socket and to the terminal.
abbrev outcome : Option Run → List SlcFrame × List (List ℕ)
outcome none = ([], [])
outcome (some r) = (r.frames, r.replies)

-- A command for the settings between two frames, the second of which is not complete.
mixed : outcome (pty2can all_written idle (codes "t12311F\rZ1\rt456")) ≡ (
  record { can_id = 0x123; can_dlc = 1; bytes = 0x1F ∷ [] } ∷ [],
  (b'\r' ∷ []) ∷ (b'\r' ∷ []) ∷ [],
)
unfolding pty2can rx_restart strip has_cr settings command can_command frame_command other_command
    id_before scan_data strtoul16 with_sign limited digits_value skip_prefix skip_spaces asc2nibble
    update copy_down store chars
mixed = refl

-- A remote request with a length: the length is lost, and what follows in the buffer with it.
rtr_length :
    outcome (pty2can all_written idle (codes "r1232\rt1230\r"))
    ≡ (record { can_id = 0x40000123; can_dlc = 0; bytes = [] } ∷ [], (b'\r' ∷ []) ∷ (7 ∷ []) ∷ [])
unfolding pty2can rx_restart strip has_cr settings command can_command rtr_command other_command
    id_before strtoul16 with_sign limited digits_value skip_prefix skip_spaces asc2nibble update
    copy_down store chars
rtr_length = refl
