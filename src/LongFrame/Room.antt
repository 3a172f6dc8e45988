-- ===== src/LongFrame/Room.antt =====
-- `snprintf_long_canframe` stays inside the buffer that it is given.
use can_utils.Base.{
  ℕ, zero, suc, ◌+◌, ◌-◌, ◌*◌, ◌^◌, ◌≤◌, ◌<◌, List, [], ◌∷◌, ◌++◌, Bool, true, false, not, ◌&&◌,
  ◌||◌, ◌≡◌, refl, ap, ◌∙◌, arith, length, length-append, length-replicate, replicate, bit_and, ltb,
  leb, if◌then◌else◌, is_set,
}
use native.Mathlib.Nat.{mul_comm}
use can_utils.Base.Text.{codes}
use can_utils.Frame.{
  Cu, IsWords, xl_len, xl_flags, xl_sdt, xl_af, data_at, canfd_max_dlen, can_err_flag, can_rtr_flag,
  canxl_xlf,
}
use can_utils.Hex.{put_hex_byte, put_sff_id, put_eff_id, put_id, print_hex}
use can_utils.Hex.Laws.{print_hex_fits, length-put_id}
use can_utils.CanFrame.Print.{Printed, shown_len}
use can_utils.CanFrame.Bounds.{FitsIn, checked-FitsIn, xl_af-lt, vcid_of, vcid-lt, prio_of}
use can_utils.LongFrame.{
  View, put_len4, put_spaced, long_xl_header, long_xl, byte_width, long_room, long_id, long_len,
  put_bits, put_byte, put_forward, put_swapped, long_data, ascii_forward, ascii_swapped,
  long_trailer, long_text, long_ccfd, snprintf_long_canframe,
}

length-put_bits : (b n : ℕ) → length (put_bits b n) ≡ n
unfolding put_bits
length-put_bits b zero = refl
length-put_bits b (suc n) = ap suc (length-put_bits b n)

length-put_byte : (view : View) (b : ℕ) → length (put_byte view b) + 1 ≡ byte_width view
unfolding put_byte byte_width put_hex_byte
length-put_byte view b = ground (arith, length-put_bits b 8)

length-put_forward :
    (cu : Cu) (view : View) (i n : ℕ) → length (put_forward cu view i n) ≡ n * byte_width view
unfolding put_forward
length-put_forward cu view i zero = omega arith
length-put_forward cu view i (suc n) = grind (
  arith,
  length-append (put_byte view (data_at cu i)) (put_forward cu view (i + 1) n),
  length-put_byte view (data_at cu i),
  length-put_forward cu view (i + 1) n,
)

length-put_swapped :
    (cu : Cu) (view : View) (len n : ℕ) → length (put_swapped cu view len n) ≡ n * byte_width view
unfolding put_swapped
length-put_swapped cu view len zero = omega arith
length-put_swapped cu view len (suc n) = grind (
  arith,
  length-append (put_byte view (data_at cu n)) (put_swapped cu view len n),
  length-put_byte view (data_at cu n),
  length-put_swapped cu view len n,
)

pub length-long_data :
    (cu : Cu) (view : View) → length (long_data cu view) ≡ shown_len cu * byte_width view
unfolding long_data
length-long_data cu view = ground (
  arith,
  length-put_swapped cu view (shown_len cu) (shown_len cu),
  length-put_forward cu view 0 (shown_len cu),
)

length-ascii_forward : (cu : Cu) (i n : ℕ) → length (ascii_forward cu i n) ≡ n
unfolding ascii_forward
length-ascii_forward cu i zero = refl
length-ascii_forward cu i (suc n) = ap suc (length-ascii_forward cu (i + 1) n)

length-ascii_swapped : (cu : Cu) (n : ℕ) → length (ascii_swapped cu n) ≡ n
unfolding ascii_swapped
length-ascii_swapped cu zero = refl
length-ascii_swapped cu (suc n) = ap suc (length-ascii_swapped cu n)

long_id-le : (can_id : ℕ) (view : View) → length (long_id can_id view) ≤ 10
unfolding long_id put_eff_id put_sff_id
long_id-le can_id view = ground arith

pub length-long_len : (cu : Cu) (view : View) → length (long_len cu view) ≡ 5
unfolding long_len
length-long_len cu view = ground arith

length-put_spaced : (cu : Cu) (i n : ℕ) → length (put_spaced cu i n) ≤ 3 * n
unfolding put_spaced put_hex_byte
length-put_spaced cu i zero = omega arith
length-put_spaced cu i (suc n) = ground (arith, length-put_spaced cu (i + 1) n)

length-put_len4 : (n : ℕ) → length (put_len4 n) ≤ 5
unfolding put_len4
length-put_len4 n = ground arith

length-print_hex : (w x : ℕ) → x < 2 ^ (w * 4) → length (print_hex w x) ≡ w
length-print_hex w x h = ap length (print_hex_fits w x h) ∙ length-put_id w x [] ∙ omega arith

append-le :
    (a : ℕ) (xs ys : List ℕ) {b : ℕ} → length xs ≤ a → length ys ≤ b → length (xs ++ ys) ≤ a + b
append-le a xs ys {b} h k = omega (arith, length-append xs ys, h, k)

long_xl_header-le : (cu : Cu) (view : View) → IsWords cu → length (long_xl_header cu view) ≤ 37
unfolding long_xl_header put_sff_id put_id
long_xl_header-le cu view h =
    append-le 5 (if view.indent_sff then replicate 5 b' ' else [])
      (put_sff_id (prio_of cu) ++ (b' ' ∷ b'[' ∷ put_len4 (xl_len cu) ++ behind_len)) (ground arith)
      (append-le 3 (put_sff_id (prio_of cu)) (b' ' ∷ b'[' ∷ put_len4 (xl_len cu) ++ behind_len)
        (omega arith)
        (append-le 7 (b' ' ∷ b'[' ∷ put_len4 (xl_len cu)) behind_len
          (omega (arith, length-put_len4 (xl_len cu)))
          (append-le 5 (b']' ∷ b' ' ∷ b'(' ∷ print_hex 2 (vcid_of cu))
            (b'|' ∷ print_hex 2 (xl_flags cu) ++ behind_flags)
            (omega (arith, length-print_hex 2 (vcid_of cu) (vcid-lt cu)))
            (append-le 3 (b'|' ∷ print_hex 2 (xl_flags cu)) behind_flags
              (omega (arith, length-print_hex 2 (xl_flags cu) h.len_u8))
              (append-le 3 (b':' ∷ print_hex 2 (xl_sdt cu))
                (b':' ∷ print_hex 8 (xl_af cu) ++ (b')' ∷ b' ' ∷ []))
                (omega (arith, length-print_hex 2 (xl_sdt cu) h.flags_u8))
                (append-le 9 (b':' ∷ print_hex 8 (xl_af cu)) (b')' ∷ b' ' ∷ []) {b = 2}
                  (omega (arith, length-print_hex 8 (xl_af cu) (xl_af-lt cu h))) (omega arith)))))))
  where
    behind_flags : List ℕ
    behind_flags =
        b':' ∷ print_hex 2 (xl_sdt cu) ++ (b':' ∷ print_hex 8 (xl_af cu) ++ (b')' ∷ b' ' ∷ []))

    behind_len : List ℕ
    behind_len =
        b']' ∷ b' ' ∷ b'(' ∷ print_hex 2 (vcid_of cu)
        ++ (b'|' ∷ print_hex 2 (xl_flags cu) ++ behind_flags)

long_xl-FitsIn :
    (size : ℕ) (cu : Cu) (view : View) → IsWords cu → 0 < size → FitsIn size (long_xl size cu view)
unfolding long_xl
long_xl-FitsIn size cu view h pos =
    checked-FitsIn size (41 + 3 * dlen) (long_xl_header cu view ++ (put_spaced cu 0 dlen ++ dots))
      pos
      (omega (
        arith,
        length-append (long_xl_header cu view) (put_spaced cu 0 dlen ++ dots),
        length-append (put_spaced cu 0 dlen) dots,
        long_xl_header-le cu view h,
        length-put_spaced cu 0 dlen,
        few,
      ))
  where
    dlen : ℕ
    dlen = if ltb canfd_max_dlen (xl_len cu) then canfd_max_dlen else xl_len cu

    dots : List ℕ
    dots = if ltb dlen (xl_len cu) then codes " ..." else []

    few : length dots ≤ 4
    few = ground arith

length-long_trailer :
    (cu : Cu) (view : View)
    → length (long_trailer cu view) ≤ (
        if leb (shown_len cu) 8 && (is_set (bit_and cu.can_id can_err_flag) || view.ascii)
        then byte_width view * (8 - shown_len cu) + 13
        else 0)
unfolding long_trailer
length-long_trailer cu view = ground (
  arith,
  length-append (replicate (byte_width view * (8 - shown_len cu) + 3) space) (codes "ERRORFRAME"),
  length-append (replicate (byte_width view * (8 - shown_len cu) + 3) space)
      (b'`' ∷ ascii_swapped cu (shown_len cu) ++ (b'`' ∷ [])),
  length-append (replicate (byte_width view * (8 - shown_len cu) + 3) space)
      (b'\'' ∷ ascii_forward cu 0 (shown_len cu) ++ (b'\'' ∷ [])),
  length-append (ascii_swapped cu (shown_len cu)) (b'`' ∷ []),
  length-append (ascii_forward cu 0 (shown_len cu)) (b'\'' ∷ []),
  length-replicate (byte_width view * (8 - shown_len cu) + 3) space,
  length-ascii_swapped cu (shown_len cu),
  length-ascii_forward cu 0 (shown_len cu),
)
  where
    space : ℕ
    space = b' '

if-FitsIn :
    (size : ℕ) (b : Bool) (p q : Printed)
    → FitsIn size p
    → FitsIn size q
    → FitsIn size (if b then p else q)
if-FitsIn size true p q h k = h
if-FitsIn size false p q h k = k

-- No CAN FD frame is a remote request.
abbrev pub NoFdRemote : Cu → Type 0
NoFdRemote cu = (is_set cu.flags && is_set (bit_and cu.can_id can_rtr_flag)) ≡ false

length-if :
    (b : Bool) (xs ys : List ℕ)
    → length (if b then xs else ys) ≡ (if b then length xs else length ys)
length-if true xs ys = refl
length-if false xs ys = refl

-- The room for what stands behind the length.
covers :
    (fd rtr few err ascii : Bool) (n pad trailer : ℕ)
    → (fd && rtr) ≡ false
    → trailer ≤ (if few && (err || ascii) then pad + 13 else 0)
    → 15 + (if not fd && rtr then 15 else n + trailer)
      ≤ 17
        + (if rtr
            then 19
            else n
              + (if not few then 0 else if err then 15 + pad else if ascii then 15 + pad else 0))
covers fd rtr few err ascii n pad trailer h k = ground (arith, h, k)

long_text-le :
    (cu : Cu) (view : View) → NoFdRemote cu → length (long_text cu view) ≤ long_room cu view
unfolding long_text long_room
long_text-le cu view h = omega (
  arith,
  length-append (long_id cu.can_id view) (long_len cu view ++ tail),
  length-append (long_len cu view) tail,
  length-if remote (codes " remote request") (long_data cu view ++ long_trailer cu view),
  ap (λ k. if remote then 15 else k)
      (length-append (long_data cu view) (long_trailer cu view)
        ∙ ap (λ k. k + length (long_trailer cu view)) (length-long_data cu view)),
  long_id-le cu.can_id view,
  length-long_len cu view,
  covers (is_set cu.flags) (is_set (bit_and cu.can_id can_rtr_flag)) (leb (shown_len cu) 8)
      (is_set (bit_and cu.can_id can_err_flag)) view.ascii (shown_len cu * byte_width view)
      ((8 - shown_len cu) * byte_width view) (length (long_trailer cu view)) h
      (rw (mul_comm (8 - shown_len cu) (byte_width view)) (length-long_trailer cu view)),
)
  where
    remote : Bool
    remote = not (is_set cu.flags) && is_set (bit_and cu.can_id can_rtr_flag)

    tail : List ℕ
    tail = if remote then codes " remote request" else long_data cu view ++ long_trailer cu view

-- In a buffer of at least one byte, the text with its terminating NUL fits, and the value returned
-- is the length of the text, or the size of the buffer for the mark that fills it on overflow. A
-- CAN FD frame must not have the flag of a remote request.
pub snprintf_long_canframe-FitsIn :
    (size : ℕ) (cu : Cu) (view : View)
    → IsWords cu
    → NoFdRemote cu
    → 0 < size
    → FitsIn size (snprintf_long_canframe size cu view)
unfolding snprintf_long_canframe long_ccfd
snprintf_long_canframe-FitsIn size cu view h remote pos = rw some_room (
    if-FitsIn size (is_set (bit_and (xl_flags cu) canxl_xlf)) _ _
      (long_xl-FitsIn size cu view h pos)
      (checked-FitsIn size (long_room cu view) (long_text cu view) pos
        (long_text-le cu view remote)))
  where
    some_room : ltb size 1 ≡ false
    some_room = ground (arith, pos)
