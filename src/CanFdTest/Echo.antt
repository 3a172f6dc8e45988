-- ===== src/CanFdTest/Echo.antt =====
-- A frame that the device increments is what the host expects.
use can_utils.Base.{
  ℕ, zero, suc, ◌+◌, ◌-◌, ◌%◌, ◌^◌, ◌≤◌, ◌<◌, List, [], ◌∷◌, true, false, ◌==◌, ◌≡◌, refl, arith,
  if◌then◌else◌, get_or, ap, ◌⊎◌, inl, inr, Bool-cases, ==_refl,
}
use can_utils.Base.Bits.{bit_and_mask, bit_or_flag}
use can_utils.Frame.{Cu}
use can_utils.CanFdTest.{
  Options, normalize_canid, set_ids, count_bytes, ping_frame, inc_bytes, inc_frame, bytes_match,
  compare_frame, consecutive, check_frame,
}

pub get_or-inc_bytes :
    (n : ℕ) (bytes : List ℕ) (i : ℕ)
    → i < n
    → get_or (inc_bytes n bytes) i 0 ≡ (get_or bytes i 0 + 1) % 2 ^ 8
unfolding inc_bytes
get_or-inc_bytes zero bytes i h = absurd (omega arith)
get_or-inc_bytes (suc n) [] zero h = refl
get_or-inc_bytes (suc n) [] (suc i) h = get_or-inc_bytes n [] i (omega arith)
get_or-inc_bytes (suc n) (b ∷ bytes) zero h = refl
get_or-inc_bytes (suc n) (b ∷ bytes) (suc i) h = get_or-inc_bytes n bytes i (omega arith)

bytes_match-inc_frame :
    (o : Options) (frame : Cu) (i n : ℕ)
    → i + n ≤ frame.len
    → bytes_match frame (inc_frame o frame) 1 i n ≡ true
unfolding bytes_match inc_frame
bytes_match-inc_frame o frame i zero h = refl
bytes_match-inc_frame o frame i (suc n) h =
    rw
      (
        get_or-inc_bytes frame.len frame.body i (omega arith),
        ==_refl,
        bytes_match-inc_frame o frame (i + 1) n (omega arith),
      )
      refl

-- The identifiers agree: either a pong identifier is given, or the next one after the ping is in
-- range.
abbrev pub NextInRange : Options → Type 0
NextInRange o =
    (o.has_pong_id ≡ true)
    ⊎ ((o.is_extended_frame_format ≡ true) × (o.can_id_ping % 2 ^ 29 < 2 ^ 29 - 1))
    ⊎ ((o.is_extended_frame_format ≡ false) × (o.can_id_ping % 2 ^ 11 < 2 ^ 11 - 1))

normalized :
    (o : Options) (id : ℕ)
    → normalize_canid o id
      ≡ (if o.is_extended_frame_format then id % 2 ^ 29 + 2 ^ 31 else id % 2 ^ 11)
unfolding normalize_canid
normalized o id =
    rw (bit_and_mask 29 id, bit_and_mask 11 id, bit_or_flag 31 (id % 2 ^ 29) (omega arith)) refl

pub pong_id :
    (o : Options) (counter : ℕ)
    → NextInRange o
    → (inc_frame (set_ids o) (ping_frame (set_ids o) counter)).can_id ≡ (set_ids o).can_id_pong
unfolding inc_frame set_ids ping_frame
pong_id o counter h =
    let ping : ℕ = normalize_canid o o.can_id_ping in
    ground (arith, h, normalized o o.can_id_ping, normalized (set_ids o) ((ping + 1) % 2 ^ 32))

pub get_or-count_bytes :
    (counter k n i : ℕ) → i < n → get_or (count_bytes counter k n) i 0 ≡ (counter + k + i) % 2 ^ 8
unfolding count_bytes
get_or-count_bytes counter k zero i h = absurd (omega arith)
get_or-count_bytes counter k (suc n) zero h = omega arith
get_or-count_bytes counter k (suc n) (suc i) h =
    omega (arith, get_or-count_bytes counter (k + 1) n i (omega arith))

consecutive-ping_frame :
    (o : Options) (counter i n : ℕ)
    → 0 < i
    → i + n ≤ o.msg_len
    → consecutive (ping_frame o counter) i n ≡ true
unfolding consecutive ping_frame
consecutive-ping_frame o counter i zero pos h = refl
consecutive-ping_frame o counter i (suc n) pos h = ground (
  arith,
  get_or-count_bytes counter 0 o.msg_len i (omega arith),
  get_or-count_bytes counter 0 o.msg_len (i - 1) (omega arith),
  consecutive-ping_frame o counter (i + 1) n (omega arith) (omega arith),
)

nothing_left :
    (o : Options) (counter : ℕ)
    → o.msg_len ≡ 0
    → consecutive (ping_frame o counter) 1 (o.msg_len - 1) ≡ true
unfolding consecutive
nothing_left o counter h = ap (consecutive (ping_frame o counter) 1) {y = 0} (omega arith)

check_frame-ping_frame : (o : Options) (counter : ℕ) → check_frame o (ping_frame o counter) ≡ true
unfolding check_frame ping_frame
check_frame-ping_frame o counter =
    let whole : consecutive (ping_frame o counter) 1 (o.msg_len - 1) ≡ true =
      elim (Bool-cases (o.msg_len == 0)) [
        | inl empty ↦ nothing_left o counter (ground (arith, empty))
        | inr full ↦
            consecutive-ping_frame o counter 1 (o.msg_len - 1) (omega arith) (ground (arith, full))
      ] in
    ground (arith, whole)

same_bytes :
    (o : Options) (exp rec : Cu)
    → rec.can_id ≡ o.can_id_pong
    → rec.len ≡ exp.len
    → bytes_match exp rec 1 0 rec.len ≡ true
    → compare_frame o exp rec 1 ≡ true
unfolding compare_frame
same_bytes o exp rec id len bytes = ground (arith, id, len, bytes)

compare_frame-inc_frame :
    (o : Options) (frame : Cu)
    → (inc_frame o frame).can_id ≡ o.can_id_pong
    → compare_frame o frame (inc_frame o frame) 1 ≡ true
unfolding inc_frame
compare_frame-inc_frame o frame h =
    same_bytes o frame (inc_frame o frame) h refl
      (bytes_match-inc_frame o frame 0 frame.len (omega arith))

-- The device accepts every frame that the host sends, and the host accepts the answer, if a pong
-- identifier is given or the ping identifier is not the last of its format.
pub echo_accepted :
    (o : Options) (counter : ℕ)
    → NextInRange o
    → (check_frame (set_ids o) (ping_frame (set_ids o) counter) ≡ true)
      × (compare_frame
            (set_ids o)
            (ping_frame (set_ids o) counter)
            (inc_frame (set_ids o) (ping_frame (set_ids o) counter))
            1
          ≡ true)
echo_accepted o counter h = (
  check_frame-ping_frame (set_ids o) counter,
  compare_frame-inc_frame (set_ids o) (ping_frame (set_ids o) counter) (pong_id o counter h),
)
