-- ===== src/CanFdTest.antt =====
-- canfdtest.c: the frames that the host sends, and how the device under test answers them.
pub mod Echo
pub mod Window
pub mod Ring
pub mod Bus
pub mod Device
pub mod Flight
pub mod Loss
mod Tests
use can_utils.Base.{
  ℕ, zero, suc, ◌+◌, ◌-◌, ◌%◌, ◌^◌, List, [], ◌∷◌, Bool, true, false, not, ◌&&◌, ◌==◌,
  if◌then◌else◌, bit_and, bit_or,
}
use can_utils.Frame.{Cu, data_at, can_eff_flag, can_eff_mask, can_sff_mask}

-- The options that the frames depend on.
pub record Options : Type 0 where
  pub is_extended_frame_format : Bool
  pub has_pong_id : Bool
  pub can_id_ping : ℕ
  pub can_id_pong : ℕ
  pub msg_len : ℕ

unfoldable pub normalize_canid : Options → ℕ → ℕ
normalize_canid o id =
    if o.is_extended_frame_format
    then bit_or (bit_and id can_eff_mask) can_eff_flag
    else bit_and id can_sff_mask

-- The identifier of the answers, once the ping identifier is normalized.
abbrev pub pong_of : Options → ℕ → ℕ
pong_of o ping = if o.has_pong_id then normalize_canid o o.can_id_pong else (ping + 1) % 2 ^ 32

-- What `main` does to the identifiers.
unfoldable pub set_ids : Options → Options
set_ids o =
    let ping = normalize_canid o o.can_id_ping in
    record o { can_id_ping = ping; can_id_pong = pong_of o ping }

-- The data of a frame that the host sends, from its byte `i` on.
unfoldable pub count_bytes : ℕ → ℕ → ℕ → List ℕ
count_bytes counter i zero = []
count_bytes counter i (suc n) = (counter + i) % 2 ^ 8 ∷ count_bytes counter (i + 1) n

unfoldable pub ping_frame : Options → ℕ → Cu
ping_frame o counter = record {
  can_id = o.can_id_ping;
  len = o.msg_len;
  flags = 0;
  res0 = 0;
  len8_dlc = 0;
  body = count_bytes counter 0 o.msg_len;
}

-- `frame->data[i]++` for `n` bytes; a byte that is not in the list is zero.
unfoldable pub inc_bytes : ℕ → List ℕ → List ℕ
inc_bytes zero bytes = bytes
inc_bytes (suc n) [] = 1 ∷ inc_bytes n []
inc_bytes (suc n) (b ∷ bytes) = (b + 1) % 2 ^ 8 ∷ inc_bytes n bytes

unfoldable pub inc_frame : Options → Cu → Cu
inc_frame o frame =
    let id =
      if o.has_pong_id then o.can_id_pong else normalize_canid o ((frame.can_id + 1) % 2 ^ 32) in
    record frame { can_id = id; body = inc_bytes frame.len frame.body }

-- The loop over the data with `n` bytes left.
unfoldable pub bytes_match : Cu → Cu → ℕ → ℕ → ℕ → Bool
bytes_match exp rec inc i zero = true
bytes_match exp rec inc i (suc n) =
    data_at rec i == (data_at exp i + inc) % 2 ^ 8 && bytes_match exp rec inc (i + 1) n

-- `true` is the result 0; otherwise it is -1, and `running` is cleared.
unfoldable pub compare_frame : Options → Cu → Cu → ℕ → Bool
compare_frame o exp rec inc =
    let expected = if inc == 0 then o.can_id_ping else o.can_id_pong in
    if not (rec.can_id == expected)
    then false
    else if not (rec.len == exp.len)
    then false
    else bytes_match exp rec inc 0 rec.len

unfoldable pub consecutive : Cu → ℕ → ℕ → Bool
consecutive frame i zero = true
consecutive frame i (suc n) =
    data_at frame i == (data_at frame (i - 1) + 1) % 2 ^ 8 && consecutive frame (i + 1) n

-- `true` is the result 0.
unfoldable pub check_frame : Options → Cu → Bool
check_frame o frame =
    frame.can_id == o.can_id_ping && (frame.len == o.msg_len && consecutive frame 1 (frame.len - 1))
