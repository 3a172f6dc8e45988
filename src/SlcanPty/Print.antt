-- ===== src/SlcanPty/Print.antt =====
-- `can2pty`: the line that a frame is printed as.
use can_utils.Base.{
  ℕ, zero, suc, ◌+◌, ◌*◌, ◌/◌, ◌%◌, List, [], ◌∷◌, ◌++◌, ltb, if◌then◌else◌, is_set, bit_and,
  bit_or, Option, none, some, get_or,
}
use can_utils.Frame.{can_eff_flag, can_rtr_flag, can_eff_mask, can_sff_mask}
use can_utils.Hex.{print_hex}
use can_utils.SlcanPty.{SlcFrame}

-- The conversion `%d` of printf at an `unsigned char`.
unfoldable pub put_decimal : ℕ → List ℕ
put_decimal n =
    if ltb n 10
    then (n + b'0') ∷ []
    else if ltb n 100
    then (n / 10 + b'0') ∷ (n % 10 + b'0') ∷ []
    else (n / 100 + b'0') ∷ (n / 10 % 10 + b'0') ∷ (n % 10 + b'0') ∷ []

-- The data bytes from index `i` on, `n` of them.
unfoldable pub put_bytes : SlcFrame → ℕ → ℕ → List ℕ
put_bytes f i zero = []
put_bytes f i (suc n) = print_hex 2 (get_or f.bytes i 0) ++ put_bytes f (i + 1) n

unfoldable pub command_letter : SlcFrame → ℕ
command_letter f = if is_set (bit_and f.can_id can_rtr_flag) then b'R' else b'T'

unfoldable pub put_head : SlcFrame → List ℕ
put_head f =
    if is_set (bit_and f.can_id can_eff_flag)
    then command_letter f ∷ print_hex 8 (bit_and f.can_id can_eff_mask)
    else bit_or (command_letter f) 0x20 ∷ print_hex 3 (bit_and f.can_id can_sff_mask)

-- The time stamp that the socket gives, in milliseconds within the minute.
unfoldable pub put_stamp : Option (ℕ × ℕ) → List ℕ
put_stamp none = []
put_stamp (some (tv_sec, tv_usec)) = print_hex 4 (tv_sec % 60 * 1000 + tv_usec / 1000)

-- The size of the buffer for the text.
abbrev pub slc_mtu : ℕ
slc_mtu = 33

-- The text that is written to the pty; the time is given if time stamps are on.
unfoldable pub can2pty : SlcFrame → Option (ℕ × ℕ) → List ℕ
can2pty f time =
    put_head f
    ++ (put_decimal f.can_dlc ++ (put_bytes f 0 f.can_dlc ++ (put_stamp time ++ (b'\r' ∷ []))))
