-- ===== src/CanFrame/IdRoundTrip.antt =====
-- Identifiers read back, and the kinds of identifier that a frame can have.
use can_utils.Base.{
  ℕ, ◌+◌, ◌*◌, ◌/◌, ◌%◌, ◌^◌, ◌≤◌, ◌<◌, [], ◌∷◌, ◌++◌, none, some, true, false, ◌≡◌, refl, ap, ◌∙◌,
  arith, bit_and, bit_or, if◌then◌else◌, is_set, ◌==◌, ne→==,
}
use native.Mathlib.Nat.{one-le-pow}
use can_utils.Base.Bits.{bit_and_mask, bit_and_flag, bit_or_flag}
use can_utils.Frame.{can_err_flag, can_eff_flag}
use can_utils.Hex.{nibble, asc2nibble, put_id, put_eff_id, put_sff_id, hex_asc_upper_lo}
use can_utils.CanFrame.Print.{put_can_id}
use can_utils.CanFrame.Parse.{read_id}
use can_utils.CanFrame.Spells.{Spells, lo-ne, read_digits-put_id, Spells-append}

nibble_hash : nibble b'#' ≡ none
unfolding nibble asc2nibble
nibble_hash = refl

pub not_hash : (x : ℕ) → (hex_asc_upper_lo x == b'#') ≡ false
not_hash x = ne→== _ _ (lo-ne x b'#' nibble_hash)

-- A standard, an extended or an error identifier, none of them a remote request.
abbrev pub IsSff : ℕ → Type 0
IsSff id = id < 2 ^ 11

abbrev pub IsEff : ℕ → Type 0
IsEff id = (can_eff_flag ≤ id) × (id < can_eff_flag + 2 ^ 29)

abbrev pub IsErr : ℕ → Type 0
IsErr id = (can_err_flag ≤ id) × (id < can_err_flag + 2 ^ 29)

pub flag_off : (k a : ℕ) → a / 2 ^ k % 2 ≡ 0 → is_set (bit_and a (2 ^ k)) ≡ false
flag_off k a h = ground (arith, bit_and_flag k a)

pub flag_on : (k a : ℕ) → a / 2 ^ k % 2 ≡ 1 → is_set (bit_and a (2 ^ k)) ≡ true
flag_on k a h = ground (arith, bit_and_flag k a, one-le-pow k 2)

digit : (x : ℕ) {c : ℕ} → c ≡ hex_asc_upper_lo x → (c == b'#') ≡ false
digit x e = rw e (not_hash x)

hash : {c : ℕ} → c ≡ b'#' → (c == b'#') ≡ true
hash e = rw e refl

module _ (cs : ℕ → ℕ) where
  -- Three digits and a '#'.
  pub read_id_sff :
      (v : ℕ) → v < 2 ^ 11 → Spells cs 0 (put_sff_id v ++ (b'#' ∷ [])) → read_id cs ≡ some (v, 4)
  unfolding read_id put_sff_id put_id
  read_id_sff v small h =
      rw
        (
          hash (h.1.1.1.0),
          read_digits-put_id cs 0 3 0 v (Spells-append cs 0 (put_id 3 v []) (b'#' ∷ []) h).0,
        )
        (ap (λ k. some (k, 4)) (omega arith))

  -- The three tests for a '#' find the one behind eight digits.
  eight_digits :
      (v : ℕ)
      → v < 2 ^ 32
      → Spells cs 0 (put_eff_id v ++ (b'#' ∷ []))
      → read_id cs ≡ some (if is_set (bit_and v can_err_flag) then v else bit_or v can_eff_flag, 9)
  unfolding read_id put_eff_id put_id
  eight_digits v small h =
      rw
        (
          digit _ (h.1.1.1.0),
          digit _ (h.1.1.1.1.1.0),
          hash (h.1.1.1.1.1.1.1.1.0),
          read_digits-put_id cs 0 8 0 v (Spells-append cs 0 (put_id 8 v []) (b'#' ∷ []) h).0,
        )
        (ap (λ k. some (if is_set (bit_and k can_err_flag) then k else bit_or k can_eff_flag, 9))
          {x = 0 * 2 ^ 32 + v % 2 ^ 32} {y = v} (omega arith))

  -- Eight digits and a '#': an extended identifier, unless the error flag is among the digits.
  pub read_id_eff :
      (v : ℕ)
      → v < 2 ^ 29
      → Spells cs 0 (put_eff_id v ++ (b'#' ∷ []))
      → read_id cs ≡ some (v + can_eff_flag, 9)
  read_id_eff v small h =
      rw (eight_digits v (omega arith) h, flag_off 29 v (omega arith))
        (ap (λ k. some (k, 9)) (bit_or_flag 31 v (omega arith)))

  pub read_id_err :
      (v : ℕ) → IsErr v → Spells cs 0 (put_eff_id v ++ (b'#' ∷ [])) → read_id cs ≡ some (v, 9)
  read_id_err v err h = rw (eight_digits v (omega arith) h, flag_on 29 v (omega arith))

-- What is printed of each kind of identifier; a remote request's flag is not.
pub put_can_id_err : (id : ℕ) → IsErr id → put_can_id id ≡ put_eff_id id ++ (b'#' ∷ [])
unfolding put_can_id
put_can_id_err id h =
    rw (flag_on 29 id (omega arith))
      (ap (λ k. put_eff_id k ++ (b'#' ∷ [])) (bit_and_mask 30 id ∙ omega arith))

pub put_can_id_eff :
    (id : ℕ)
    → id / 2 ^ 29 % 2 ≡ 0
    → can_eff_flag ≤ id
    → id < 2 ^ 32
    → put_can_id id ≡ put_eff_id (id % 2 ^ 29) ++ (b'#' ∷ [])
unfolding put_can_id
put_can_id_eff id err low high =
    rw (flag_off 29 id err, flag_on 31 id (omega arith))
      (ap (λ k. put_eff_id k ++ (b'#' ∷ [])) (bit_and_mask 29 id))

pub put_can_id_sff :
    (id : ℕ)
    → id / 2 ^ 29 % 2 ≡ 0
    → id < can_eff_flag
    → put_can_id id ≡ put_sff_id (id % 2 ^ 11) ++ (b'#' ∷ [])
unfolding put_can_id
put_can_id_sff id err low =
    rw (flag_off 29 id err, flag_off 31 id (omega arith))
      (ap (λ k. put_sff_id k ++ (b'#' ∷ [])) (bit_and_mask 11 id))
