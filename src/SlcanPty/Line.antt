-- ===== src/SlcanPty/Line.antt =====
-- The line of a data frame: what `can2pty` prints, and how `pty2can` takes it.
use can_utils.Base.{
  ℕ, suc, ◌+◌, ◌-◌, ◌*◌, ◌%◌, ◌^◌, ◌≤◌, ◌<◌, List, [], ◌∷◌, ◌++◌, All, true, false, ◌&&◌, ltb, leb,
  append_assoc, length-append, ◌≢◌, ◌≡◌, refl, ap, sym, arith, ◌⊎◌, inl, inr, if◌then◌else◌, length,
  ◌∙◌, subst, is_set, bit_and, bit_or, get_or, none,
}
use can_utils.Base.Bits.{bit_and_mask, bit_or_flag}
use can_utils.Base.Spells.{Spells, Spells-append, Spells-shift}
use can_utils.Frame.{can_eff_flag, can_sff_mask}
use can_utils.Hex.{print_hex, put_id, put_hex_byte, hex_asc_upper_lo}
use can_utils.Hex.Laws.{print_hex_fits, length-put_id, hi-lo}
use can_utils.Hex.Strings.{hex_text, length-hex_text}
use can_utils.CanFrame.IdRoundTrip.{IsSff, IsEff, flag_off, flag_on}
use can_utils.SlcanPty.{Buffer, update, chars, SlcFrame}
use can_utils.SlcanPty.Command.{
  good, write_frame, scan_data, id_before, is_rtr, is_can, frame_command, can_command, command,
}
use can_utils.SlcanPty.Print.{put_decimal, put_bytes, command_letter, put_head, put_stamp, can2pty}
use can_utils.SlcanPty.Arrays.{Spells-update, chars-Spells, Starts}
use can_utils.SlcanPty.Digits.{strtoul16-put_id, scan_data-hex_text}

-- A data frame of the classic format.
pub record IsData (f : SlcFrame) : Type 0 where
  pub id : IsSff f.can_id ⊎ IsEff f.can_id
  pub dlc : f.can_dlc ≤ 8
  pub len : length f.bytes ≡ f.can_dlc
  pub byte : All (λ b. b < 256) f.bytes

-- A command letter, the digits of an identifier, the length and the data.
abbrev pub slc_line : ℕ → ℕ → ℕ → SlcFrame → List ℕ
slc_line letter n v f = letter ∷ (put_id n v [] ++ ((f.can_dlc + b'0') ∷ hex_text f.bytes))

print_hex_byte : (b : ℕ) → b < 256 → print_hex 2 b ≡ put_hex_byte b
unfolding put_id put_hex_byte
print_hex_byte b h = print_hex_fits 2 b h ∙ ap (λ x. x ∷ hex_asc_upper_lo b ∷ []) (sym (hi-lo b))

shifted : (s : List ℕ) (c k : ℕ) → get_or (c ∷ s) (1 + k) 0 ≡ get_or s (0 + k) 0
shifted s c k = ap (λ j. get_or (c ∷ s) j 0) {y = suc (0 + k)} (omega arith)

get_or-Spells : (s : List ℕ) → Spells (λ k. get_or s k 0) 0 s
get_or-Spells [] = tt
get_or-Spells (c ∷ s) =
    (refl, Spells-shift _ (λ k. get_or s k 0) 1 0 s (shifted s c) (get_or-Spells s))

put_bytes-Spells :
    (f : SlcFrame) (i : ℕ) (s : List ℕ)
    → All (λ b. b < 256) s
    → Spells (λ k. get_or f.bytes k 0) i s
    → put_bytes f i (length s) ≡ hex_text s
unfolding put_bytes
put_bytes-Spells f i [] small h = refl
put_bytes-Spells f i (b ∷ s) small (h, k) =
    rw (h, print_hex_byte b small.0, put_bytes-Spells f (i + 1) s small.1 k) refl

-- The data bytes of the frame.
put_bytes-bytes : (f : SlcFrame) → IsData f → put_bytes f 0 f.can_dlc ≡ hex_text f.bytes
put_bytes-bytes f h =
    ap (put_bytes f 0) (sym h.len) ∙ put_bytes-Spells f 0 f.bytes h.byte (get_or-Spells f.bytes)

module _ (f : SlcFrame) (letter n v : ℕ) (data_frame : IsData f) where
  abbrev pub digits : ℕ
  digits = suc (suc (suc n))

  pub frame_command-slc_line :
      (buf : Buffer)
      → Spells buf 0 (slc_line letter digits v f)
      → 2 ^ (digits * 4) ≤ 2 ^ 64
      → is_rtr letter ≡ false
      → (if is_set (bit_and letter 0x20)
          then v % 2 ^ (digits * 4) % 2 ^ 32
          else bit_or (v % 2 ^ (digits * 4) % 2 ^ 32) can_eff_flag)
        ≡ f.can_id
      → frame_command letter buf (suc digits)
        ≡ write_frame
            (update buf (suc digits) 0)
            (suc digits + 2 * f.can_dlc + (if is_set f.can_dlc then 0 else 1))
            f
  unfolding frame_command id_before
  frame_command-slc_line buf h fits no_rtr id =
      rw (dlc_at, minus, in_range, scan, dlc_at, minus, no_rtr, id_value)
        (ap (λ k. write_frame cut k f) (ground arith))
    where
      p : ℕ
      p = suc digits

      cut : Buffer
      cut = update buf p 0

      parts :
          Spells buf 1 (put_id digits v []) × Spells buf p ((f.can_dlc + b'0') ∷ hex_text f.bytes)
      parts =
          let both = Spells-append buf 1 (put_id digits v []) _ (h.1) in
          (
            both.0,
            subst (λ k. Spells buf k ((f.can_dlc + b'0') ∷ hex_text f.bytes))
                (omega (arith, length-put_id digits v [])) (both.1),
          )

      dlc_at : buf p ≡ f.can_dlc + b'0'
      dlc_at = parts.1.0

      minus : f.can_dlc + b'0' - b'0' ≡ f.can_dlc
      minus = omega arith

      in_range : (leb b'0' (f.can_dlc + b'0') && ltb (f.can_dlc + b'0') b'9') ≡ true
      in_range = ground (arith, data_frame.dlc)

      scan : scan_data cut (p + 1) f.can_dlc ≡ good f.bytes (p + 1 + 2 * f.can_dlc)
      scan =
          subst (λ k. scan_data cut (p + 1) k ≡ good f.bytes (p + 1 + 2 * k)) (data_frame.len)
            (scan_data-hex_text cut (p + 1) f.bytes data_frame.byte
              (Spells-update buf p 0 (p + 1) (hex_text f.bytes) (inl (omega arith)) (parts.1.1)))

      text : chars cut 1 (p - 1) ≡ put_id digits v []
      text =
          ap (chars cut 1) (omega (arith, length-put_id digits v []))
          ∙ chars-Spells cut 1 (put_id digits v []) (
              Spells-update buf p 0 1 (put_id digits v [])
                (inr (omega (arith, length-put_id digits v []))) (parts.0))

      id_value : id_before letter cut p ≡ f.can_id
      id_value = rw (text, strtoul16-put_id n v fits) id

-- The text behind the identifier.
behind-digits :
    (f : SlcFrame) (digits : List ℕ)
    → IsData f
    → digits ++ (put_decimal f.can_dlc ++ (put_bytes f 0 f.can_dlc ++ (b'\r' ∷ [])))
      ≡ (digits ++ ((f.can_dlc + b'0') ∷ hex_text f.bytes)) ++ (b'\r' ∷ [])
unfolding put_decimal
behind-digits f digits h =
    rw (put_bytes-bytes f h, one_digit) (sym (append_assoc digits _ (b'\r' ∷ [])))
  where
    one_digit : put_decimal f.can_dlc ≡ (f.can_dlc + b'0') ∷ []
    one_digit = ground (arith, h.dlc)

-- What `can2pty` prints of a data frame.
pub can2pty-sff :
    (f : SlcFrame)
    → IsData f
    → IsSff f.can_id
    → can2pty f none ≡ slc_line b't' 3 f.can_id f ++ (b'\r' ∷ [])
unfolding can2pty put_head command_letter put_stamp
can2pty-sff f h small =
    rw
      (
        flag_off 31 f.can_id (omega (arith, small)),
        flag_off 30 f.can_id (omega (arith, small)),
        masked,
        print_hex_fits 3 f.can_id (omega (arith, small)),
      )
      (ap (λ t. b't' ∷ t) (behind-digits f (put_id 3 f.can_id []) h))
  where
    masked : bit_and f.can_id can_sff_mask ≡ f.can_id
    masked = omega (arith, bit_and_mask 11 f.can_id, small)

pub can2pty-eff :
    (f : SlcFrame)
    → IsData f
    → IsEff f.can_id
    → can2pty f none ≡ slc_line b'T' 8 (f.can_id % 2 ^ 29) f ++ (b'\r' ∷ [])
unfolding can2pty put_head command_letter put_stamp
can2pty-eff f h large =
    rw
      (
        flag_on 31 f.can_id (omega (arith, large)),
        flag_off 30 f.can_id (omega (arith, large)),
        bit_and_mask 29 f.can_id,
        print_hex_fits 8 (f.can_id % 2 ^ 29) (omega arith),
      )
      (ap (λ t. b'T' ∷ t) (behind-digits f (put_id 8 (f.can_id % 2 ^ 29) []) h))

-- What `pty2can` does with a line: the frame is written, and the next byte to be read is the first
-- or the second behind the text.
pub record Taken (f : SlcFrame) (t : List ℕ) : Type 0 where
  pub starts : (more : List ℕ) → Starts (t ++ more)
  pub size : length t ≤ 26
  pub take :
      (cmd : ℕ) (buf : Buffer) (n : ℕ)
      → cmd ≡ buf 0
      → Spells buf 0 t
      → (p : ℕ) × (j : ℕ) × (command cmd buf n ≡ write_frame (update buf j 0) p f)
        × (j < length t)
        × ((p + 1 ≡ length t) ⊎ (p + 1 ≡ length t + 1))

slc_line-Taken :
    (f : SlcFrame) (letter n v : ℕ)
    → IsData f
    → (letter ≢ b'\r') × (n ≤ 5)
    → 2 ^ (suc (suc (suc n)) * 4) ≤ 2 ^ 64
    → (is_can letter ≡ true) × (is_rtr letter ≡ false)
    → (if is_set (bit_and letter 0x20) then 4 else 9) ≡ suc (suc (suc (suc n)))
    → (if is_set (bit_and letter 0x20)
        then v % 2 ^ (suc (suc (suc n)) * 4) % 2 ^ 32
        else bit_or (v % 2 ^ (suc (suc (suc n)) * 4) % 2 ^ 32) can_eff_flag)
      ≡ f.can_id
    → Taken f (slc_line letter (suc (suc (suc n))) v f)
unfolding command can_command
slc_line-Taken f letter n v h (no_cr, few) fits (can, no_rtr) place id = record {
  starts = λ more. no_cr;
  size = omega (arith, few, total, h.dlc);
  take = λ cmd buf nbytes same text. (
    suc (suc (suc (suc n))) + 2 * f.can_dlc + (if is_set f.can_dlc then 0 else 1),
    suc (suc (suc (suc n))),
    rw (same, text.0, can, no_rtr, place)
        (frame_command-slc_line f letter n v h buf text fits no_rtr id),
    omega (arith, total),
    ground (arith, total),
  );
}
  where
    total : length (slc_line letter (suc (suc (suc n))) v f) ≡ 5 + n + 2 * f.can_dlc
    total = omega (
      arith,
      length-append (put_id (suc (suc (suc n))) v []) ((f.can_dlc + b'0') ∷ hex_text f.bytes),
      length-put_id (suc (suc (suc n))) v [],
      length-hex_text f.bytes,
      h.len,
    )

eff : (id : ℕ) → IsEff id → bit_or (id % 2 ^ 29 % 2 ^ 32 % 2 ^ 32) can_eff_flag ≡ id
eff id large = omega (arith, large, bit_or_flag 31 (id % 2 ^ 29) (omega arith), same)
  where
    same : bit_or (id % 2 ^ 29 % 2 ^ 32 % 2 ^ 32) can_eff_flag ≡ bit_or (id % 2 ^ 29) can_eff_flag
    same = ap (λ k. bit_or k can_eff_flag) {x = id % 2 ^ 29 % 2 ^ 32 % 2 ^ 32} (omega arith)

-- What `can2pty` prints of a data frame is a line that `pty2can` takes.
pub can2pty-Taken :
    (f : SlcFrame) → IsData f → (t : List ℕ) × (can2pty f none ≡ t ++ (b'\r' ∷ [])) × Taken f t
can2pty-Taken f h = elim h.id [
  | inl small ↦ (
    slc_line b't' 3 f.can_id f,
    can2pty-sff f h small,
    slc_line-Taken f b't' 0 f.can_id h (omega arith, omega arith) (omega arith) (refl, refl) refl
        (omega (arith, small)),
  )
  | inr large ↦ (
    slc_line b'T' 8 (f.can_id % 2 ^ 29) f,
    can2pty-eff f h large,
    slc_line-Taken f b'T' 5 (f.can_id % 2 ^ 29) h (omega arith, omega arith) (omega arith)
        (refl, refl) refl (eff f.can_id large),
  )
]
