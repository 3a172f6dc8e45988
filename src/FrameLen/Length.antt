-- ===== src/FrameLen/Length.antt =====
-- `can_frame_length` and its parts in canframelen.c.
use can_utils.Base.{
  ℕ, zero, suc, ◌+◌, ◌-◌, ◌*◌, ◌/◌, ◌%◌, ◌^◌, ◌≤◌, List, ◌∷◌, ◌≡◌, refl, arith, Option, some, ◌>>=◌,
  ◌==◌, leb, not, ◌||◌, if◌then◌else◌, is_set, bit_and, bit_or, set, replicate, Bool-cases, inl,
  inr,
}
use can_utils.Frame.{
  Cu, data_at, can_eff_flag, can_rtr_flag, can_eff_mask, can_sff_mask, can_mtu, canfd_mtu,
  canfd_brs,
}
use can_utils.FrameLen.Crc.{calc_bitmap_crc}
use can_utils.FrameLen.Stuff.{scan, scan_start}
use can_utils.FrameLen.Stuff.Count.{scan_start-count}

pub data CflMode : Type 0 where
  cfl_no_bitstuffing : CflMode
  cfl_worstcase : CflMode
  cfl_exact : CflMode

-- `memcpy(&bitmap[off], &frame->data, n)`.
unfoldable copy_data : ℕ → ℕ → Cu → List ℕ → List ℕ
copy_data zero off cu bitmap = bitmap
copy_data (suc n) off cu bitmap = set (copy_data n off cu bitmap) (off + n) (data_at cu n)

-- `!!(frame->can_id & CAN_RTR_FLAG) << 6`.
unfoldable rtr_bit : Cu → ℕ
rtr_bit cu = if is_set (bit_and cu.can_id can_rtr_flag) then 2 ^ 6 else 0

unfoldable eff_bitmap : Cu → List ℕ
eff_bitmap cu =
    let id = cu.can_id in
    let b0 = bit_and id can_eff_mask / 2 ^ 23 in
    let b1 =
      bit_or (bit_or (bit_and (id / 2 ^ 18) 0x3f * 2 ^ 3) (3 * 2 ^ 1)) (bit_and (id / 2 ^ 17) 0x01)
      % 2 ^ 8 in
    let b2 = bit_and (id / 2 ^ 9) 0xff in
    let b3 = bit_and (id / 2) 0xff in
    let b4 = bit_or (bit_or (bit_and id 0x1 * 2 ^ 7) (rtr_bit cu)) (bit_and cu.len 0xf) in
    copy_data cu.len 5 cu (b0 ∷ b1 ∷ b2 ∷ b3 ∷ b4 ∷ replicate 11 0)

unfoldable sff_bitmap : Cu → List ℕ
sff_bitmap cu =
    let id = cu.can_id in
    let b0 = bit_and id can_sff_mask / 2 ^ 9 in
    let b1 = bit_and (id / 2) 0xff in
    let b2 = bit_or (bit_or (bit_and (id * 2 ^ 7) 0xff) (rtr_bit cu)) (bit_and cu.len 0xf) in
    copy_data cu.len 3 cu (b0 ∷ b1 ∷ b2 ∷ replicate 13 0)

-- The CRC behind the data, high byte first.
unfoldable with_crc : List ℕ → ℕ → ℕ → List ℕ
with_crc bitmap start end =
    let crc = calc_bitmap_crc bitmap start end * 2 % 2 ^ 16 in
    set (set bitmap (end / 8) (crc / 2 ^ 8)) (end / 8 + 1) (crc % 2 ^ 8)

-- From the CRC on. 256 rounds are more than the loop takes for 8 data bytes.
unfoldable framed : List ℕ → ℕ → ℕ → Option ℕ
framed bitmap start end = do
  stuffed ← scan 256 (with_crc bitmap start end) (end + 15) (scan_start start)
  some ((end + 15 - start) + stuffed + 3 + 7 + 3)

-- `cfl_exact` of canframelen.c; `none` stands for a loop that takes more rounds than the fuel.
unfoldable exact : Cu → Option ℕ
exact cu =
    if is_set (bit_and cu.can_id can_eff_flag)
    then framed (eff_bitmap cu) 1 (40 + 8 * cu.len)
    else framed (sff_bitmap cu) 5 (24 + 8 * cu.len)

unfoldable pub can_frame_dbitrate_length : Cu → CflMode → ℕ → ℕ
can_frame_dbitrate_length cu mode mtu =
    let bits = 1 + 1 + 4 + (if leb 16 cu.len then 21 else 17) + cu.len * 8 in
    if not (mtu == canfd_mtu) || not (is_set (bit_and cu.flags canfd_brs))
    then 0
    else elim mode [ cfl_no_bitstuffing ↦ bits | cfl_worstcase ↦ bits * 5 / 4 | cfl_exact ↦ 0 ]

-- The estimate for a CAN FD frame.
unfoldable fd_length : Cu → CflMode → ℕ
fd_length cu mode =
    let eff = is_set (bit_and cu.can_id can_eff_flag) in
    let bits =
      1 + (if eff then 29 else 11) + (if leb 16 cu.len then 21 else 17) + 5 + 12 + cu.len * 8 in
    elim mode [ cfl_no_bitstuffing ↦ bits | cfl_worstcase ↦ bits * 5 / 4 | cfl_exact ↦ 0 ]

-- The three modes for a Classical CAN frame.
unfoldable classic_length : Cu → CflMode → Option ℕ
classic_length cu mode =
    let eff = is_set (bit_and cu.can_id can_eff_flag) in
    elim mode [
      | cfl_no_bitstuffing ↦ some ((if eff then 67 else 47) + cu.len * 8)
      | cfl_worstcase ↦ some ((if eff then 80 else 55) + cu.len * 10)
      | cfl_exact ↦ exact cu
    ]

unfoldable pub can_frame_length : Cu → CflMode → ℕ → Option ℕ
unfolding fd_length classic_length exact framed with_crc eff_bitmap sff_bitmap copy_data rtr_bit
can_frame_length cu mode mtu =
    if mtu == canfd_mtu
    then some (fd_length cu mode)
    else if not (mtu == can_mtu)
    then some 0
    else classic_length cu mode

framed_bounds :
    (bitmap : List ℕ) (start end : ℕ)
    → start ≤ end
    → end ≤ 104
    → (n : ℕ) × (framed bitmap start end ≡ some n)
      × (end + 28 ≤ n + start)
      × (4 * (n + start) + 1 + start ≤ 4 * (end + 28) + end + 15)
unfolding framed
framed_bounds bitmap start end h short =
    let (k, e, few) =
      scan_start-count (with_crc bitmap start end) start (end + 15) (omega arith) (omega arith) in
    rw e (((end + 15 - start) + k + 3 + 7 + 3), refl, omega arith, omega (arith, few))

-- With at most 8 bytes of data, the exact length is found, and lies between the two estimates.
pub can_frame_length-exact :
    (cu : Cu)
    → cu.len ≤ 8
    → (lo n hi : ℕ) × (can_frame_length cu cfl_no_bitstuffing can_mtu ≡ some lo)
      × (can_frame_length cu cfl_exact can_mtu ≡ some n)
      × (can_frame_length cu cfl_worstcase can_mtu ≡ some hi)
      × (lo ≤ n)
      × (n ≤ hi)
unfolding can_frame_length classic_length exact
can_frame_length-exact cu h = elim (Bool-cases (is_set (bit_and cu.can_id can_eff_flag))) [
  | inl eff ↦
      let (n, e, low, high) =
        framed_bounds (eff_bitmap cu) 1 (40 + 8 * cu.len) (omega arith) (omega arith) in
      rw (eff, e) (_, n, _, refl, refl, refl, omega (arith, low), omega (arith, high))
  | inr sff ↦
      let (n, e, low, high) =
        framed_bounds (sff_bitmap cu) 5 (24 + 8 * cu.len) (omega arith) (omega arith) in
      rw (sff, e) (_, n, _, refl, refl, refl, omega (arith, low), omega (arith, high))
]
