-- ===== src/SlcanPty/Command.antt =====
-- One command of `pty2can`: from the test of its first character to the label `rx_out`.
use can_utils.Base.{
  ℕ, zero, suc, ◌+◌, ◌-◌, ◌*◌, ◌%◌, ◌^◌, List, [], ◌∷◌, Bool, not, ◌&&◌, ◌||◌, ◌==◌, ltb, leb,
  if◌then◌else◌, is_set, bit_and, bit_or, Option, none, some,
}
use can_utils.Base.Text.{codes}
use can_utils.Frame.{can_eff_flag, can_rtr_flag}
use can_utils.Hex.{asc2nibble}
use can_utils.SlcanPty.{Buffer, update, chars, SlcFrame}
use can_utils.SlcanPty.Strtoul.{strtoul16}

-- What a command leaves: the buffer, `ptr`, the answer, and the frame for the socket.
pub record Handled : Type 0 where
  pub buf : Buffer
  pub ptr : ℕ
  pub reply : List ℕ
  pub frame : Option SlcFrame

abbrev pub ack : Buffer → ℕ → Handled
ack buf ptr = record { buf = buf; ptr = ptr; reply = b'\r' ∷ []; frame = none }

abbrev pub nack : Buffer → ℕ → Handled
nack buf ptr = record { buf = buf; ptr = ptr; reply = 7 ∷ []; frame = none }

abbrev pub answer : Buffer → ℕ → List ℕ → Handled
answer buf ptr reply = record { buf = buf; ptr = ptr; reply = reply; frame = none }

abbrev pub write_frame : Buffer → ℕ → SlcFrame → Handled
write_frame buf ptr frame = record { buf = buf; ptr = ptr; reply = b'\r' ∷ []; frame = some frame }

-- The loop over the data: the bytes, or the index behind the character that is no digit.
pub data DataScan : Type 0 where
  good : List ℕ → ℕ → DataScan
  bad : ℕ → DataScan

abbrev pub then_byte : ℕ → DataScan → DataScan
then_byte b (good bytes ptr) = good (b ∷ bytes) ptr
then_byte b (bad ptr) = bad ptr

unfoldable pub scan_data : Buffer → ℕ → ℕ → DataScan
scan_data buf ptr zero = good [] ptr
scan_data buf ptr (suc n) =
    let hi = asc2nibble (buf ptr) in
    let lo = asc2nibble (buf (ptr + 1)) in
    let rest = scan_data buf (ptr + 2) n in
    if ltb 0x0F hi
    then bad (ptr + 1)
    else if ltb 0x0F lo
    then bad (ptr + 2)
    else then_byte (bit_or (hi * 2 ^ 4 % 2 ^ 8) lo) rest

-- The identifier of the characters before `ptr`, as a `canid_t`, with the EFF flag if the command
-- is a capital letter.
unfoldable pub id_before : ℕ → Buffer → ℕ → ℕ
id_before cmd buf ptr =
    let id = strtoul16 (chars buf 1 (ptr - 1)) % 2 ^ 32 in
    if is_set (bit_and cmd 0x20) then id else bit_or id can_eff_flag

abbrev pub is_rtr : ℕ → Bool
is_rtr cmd = bit_or cmd 0x20 == b'r'

-- A frame whose length is the digit at `ptr`.
unfoldable pub frame_command : ℕ → Buffer → ℕ → Handled
frame_command cmd buf ptr =
    let dlc = buf ptr - b'0' in
    let cut = update buf ptr 0 in
    let id = id_before cmd cut ptr in
    let flagged = if is_rtr cmd then bit_or id can_rtr_flag else id in
    if not (leb b'0' (buf ptr) && ltb (buf ptr) b'9')
    then nack buf ptr
    else elim (scan_data cut (ptr + 1) dlc) [
      | good bytes behind ↦
          write_frame cut (if is_set dlc then behind - 1 else behind)
            (record { can_id = flagged; can_dlc = dlc; bytes = bytes })
      | bad behind ↦ nack cut behind
    ]

-- A remote request without a length; the byte behind the identifier is put back.
unfoldable pub rtr_command : ℕ → Buffer → ℕ → Handled
rtr_command cmd buf ptr =
    let cut = update buf ptr 0 in
    let id = strtoul16 (chars cut 1 (ptr - 1)) % 2 ^ 32 in
    let flagged = bit_or id can_rtr_flag in
    let can_id = if is_set (bit_and cmd 0x20) then flagged else bit_or flagged can_eff_flag in
    write_frame (update cut ptr (buf ptr)) (ptr - 1)
      (record { can_id = can_id; can_dlc = 0; bytes = [] })

-- The commands t, T, r and R.
unfoldable pub can_command : ℕ → Buffer → Handled
can_command cmd buf =
    let ptr = if is_set (bit_and cmd 0x20) then 4 else 9 in
    if is_rtr cmd && not (buf ptr == b'0')
    then rtr_command cmd buf ptr
    else frame_command cmd buf ptr

abbrev pub is_can : ℕ → Bool
is_can cmd = cmd == b't' || (cmd == b'T' || (cmd == b'r' || cmd == b'R'))

-- The other commands, with `nbytes` in the buffer.
unfoldable pub other_command : ℕ → Buffer → ℕ → Handled
other_command cmd buf nbytes =
    if cmd == b'm' || cmd == b'M'
    then ack (update buf 9 0) 9
    else if cmd == b'Z'
    then ack buf 2
    else if cmd == b'O' || cmd == b'C'
    then ack buf 1
    else if cmd == b'V'
    then answer buf 1 (codes "V1013\r")
    else if cmd == b'v'
    then answer buf 1 (codes "v1014\r")
    else if cmd == b'N'
    then answer buf 1 (codes "N4242\r")
    else if cmd == b'F'
    then answer buf 1 (codes "F00\r")
    else if cmd == b'U' || cmd == b'S'
    then ack buf 2
    else if cmd == b's'
    then ack buf 5
    else if cmd == b'P' || cmd == b'A'
    then nack buf 1
    else if cmd == b'X'
    then (if is_set (bit_and (buf 1) 0x01) then ack buf 2 else nack buf 2)
    else nack buf (nbytes - 1)

unfoldable pub command : ℕ → Buffer → ℕ → Handled
command cmd buf nbytes = if is_can cmd then can_command cmd buf else other_command cmd buf nbytes
