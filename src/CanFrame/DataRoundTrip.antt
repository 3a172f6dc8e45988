-- ===== src/CanFrame/DataRoundTrip.antt =====
-- The data bytes of a frame read back, with and without separators.
use can_utils.Base.{
  ℕ, zero, suc, ◌+◌, ◌/◌, ◌≤◌, ◌<◌, List, [], ◌∷◌, none, some, Bool, true, false, ◌≡◌, ◌≢◌, refl,
  ap, ◌⊎◌, inl, inr, arith, length, if◌then◌else◌, ◌&&◌, ltb, ◌==◌, ne→==, lt→leb, le→leb, subst,
}
use can_utils.Hex.{hex_asc_upper_hi, put_hex_byte, nibble, asc2nibble}
use can_utils.Hex.Laws.{nibble-lo, hi-lo, byte_back}
use can_utils.CanFrame.Print.{put_data, separated}
use can_utils.CanFrame.Parse.{read_data, read_byte}
use can_utils.CanFrame.Spells.{Spells, lo-ne}

-- The `n` values of a function from `i` on.
abbrev pub table : (ℕ → ℕ) → ℕ → ℕ → List ℕ
table f i zero = []
table f i (suc n) = f i ∷ table f (i + 1) n

pub length-table : (f : ℕ → ℕ) (i n : ℕ) → length (table f i n) ≡ n
length-table f i zero = refl
length-table f i (suc n) = ap suc (length-table f (i + 1) n)

nibble_dot : nibble b'.' ≡ none
unfolding nibble asc2nibble
nibble_dot = refl

hi-ne_dot : (b : ℕ) → hex_asc_upper_hi b ≢ b'.'
hi-ne_dot b = rw hi-lo (lo-ne (b / 16) b'.' nibble_dot)

-- No separator follows the last byte.
last_plain : (n : ℕ) (sep : Bool) → n ≡ 0 → (sep && ltb 0 n) ≡ false
last_plain n true h = ground arith
last_plain n false h = refl

module _ (cs : ℕ → ℕ) where
  -- A byte that was printed reads back.
  pub read_byte-put_hex_byte :
      (i b : ℕ) → b < 256 → Spells cs i (put_hex_byte b) → read_byte cs i ≡ some b
  unfolding read_byte put_hex_byte
  read_byte-put_hex_byte i b small h =
      rw (h.0, h.1.0, hi-lo b, nibble-lo (b / 16), nibble-lo b) (ap some (byte_back b small))

  -- One round of the loop.
  round :
      (len room idx start b : ℕ) (r : List ℕ × ℕ)
      → (if cs idx == b'.' then idx + 1 else idx) ≡ start
      → start < len
      → read_byte cs start ≡ some b
      → read_data cs len room (start + 2) ≡ some r
      → read_data cs len (suc room) idx ≡ some (b ∷ r.0, r.1)
  unfolding read_data
  round len room idx start b r e below h k = rw (e, lt→leb len start below, h, k)

  pub two_on : (i : ℕ) (s : List ℕ) → Spells cs (i + 1 + 1) s → Spells cs (i + 2) s
  two_on i s = subst (λ k. Spells cs k s) {x = i + 1 + 1} (omega arith)

  stop_pred :
      (n room e len : ℕ)
      → (suc n ≡ suc room) ⊎ ((len ≡ e) × (cs e ≢ b'.'))
      → (n ≡ room) ⊎ ((len ≡ e) × (cs e ≢ b'.'))
  stop_pred n room e len (inl p) = inl (omega arith)
  stop_pred n room e len (inr q) = inr q

  module _ (len : ℕ) (f : ℕ → ℕ) (sep : Bool) (bytes : (j : ℕ) → f j < 256) where
    -- The loop reads back what was printed, and stops behind it: at the end of the string, or
    -- where there is no more room.
    pub read_data-put_data :
        (room n idx i : ℕ) (lead : Bool) (e : ℕ)
        → n ≤ room
        → (n ≡ 0 → lead ≡ false)
        → Spells cs idx (separated lead (put_data f sep i n))
        → idx + length (separated lead (put_data f sep i n)) ≡ e
        → e ≤ len
        → (n ≡ room) ⊎ ((len ≡ e) × (cs e ≢ b'.'))
        → read_data cs len room idx ≡ some (table f i n, e)
    unfolding put_data put_hex_byte
    read_data-put_data _ zero idx i true e fits empty text end inside stop = cc (empty refl)
    read_data-put_data zero zero idx i false e fits empty text end inside stop =
        unfold read_data in ap (λ k. some ([], k)) (omega arith)
    read_data-put_data zero (suc n) idx i lead e fits empty text end inside stop =
        absurd (omega arith)
    read_data-put_data (suc room) zero idx i false e fits empty text end inside (inl full) =
        absurd (omega arith)
    read_data-put_data (suc room) zero idx i false e fits empty text end inside (inr (at, dot)) =
        let here : idx ≡ e = omega arith in
        unfold read_data in rw (here, ne→== (cs e) b'.' dot, le→leb len e (omega arith))
    read_data-put_data (suc room) (suc n) idx i true e fits empty text end inside stop =
        round len room idx (idx + 1) (f i) (table f (i + 1) n, e) (rw (text.0)) (omega arith)
          (read_byte-put_hex_byte (idx + 1) (f i) (bytes i) (text.1.0, (text.1.1.0, tt)))
          (read_data-put_data room n (idx + 1 + 2) (i + 1) (sep && ltb 0 n) e (omega arith)
            (last_plain n sep) (two_on (idx + 1) _ text.1.1.1) (omega arith) inside
            (stop_pred n room e len stop))
    read_data-put_data (suc room) (suc n) idx i false e fits empty text end inside stop =
        round len room idx idx (f i) (table f (i + 1) n, e)
          (rw (ne→== (cs idx) b'.' (rw text.0 (hi-ne_dot (f i))))) (omega arith)
          (read_byte-put_hex_byte idx (f i) (bytes i) (text.0, (text.1.0, tt)))
          (read_data-put_data room n (idx + 2) (i + 1) (sep && ltb 0 n) e (omega arith)
            (last_plain n sep) (two_on idx _ text.1.1) (omega arith) inside
            (stop_pred n room e len stop))
