-- ===== src/ErrorText/Whole.antt =====
-- Calls of `snprintf` that have room.
use can_utils.Base.{
  ℕ, zero, suc, ◌+◌, ◌-◌, ◌^◌, ◌≤◌, ◌<◌, List, [], ◌∷◌, ◌++◌, append_assoc, Bool, true, false, ltb,
  leb, ◌==◌, if◌then◌else◌, length, take, max, ◌≡◌, refl, ap, sym, ◌∙◌, arith, length-append, subst,
}
use can_utils.ErrorText.{Out, room, write, put, whole, put_checked, put_item}

take_all : (k : ℕ) (xs : List ℕ) → length xs ≤ k → take k xs ≡ xs
take_all zero [] h = refl
take_all zero (x ∷ xs) h = absurd (omega arith)
take_all (suc k) [] h = refl
take_all (suc k) (x ∷ xs) h = ap (λ t. x ∷ t) (take_all k xs (omega arith))

length-take_le : (k : ℕ) (xs : List ℕ) → length (take k xs) ≤ length xs
length-take_le zero xs = omega arith
length-take_le (suc k) [] = omega arith
length-take_le (suc k) (x ∷ xs) = omega (arith, length-take_le k xs)

-- The buffer shows `s` up to the index, and no byte behind its end was written.
pub record Shows (len : ℕ) (s : List ℕ) (out : Out) : Type 0 where
  pub text : take out.n out.text ≡ s
  pub n : out.n ≡ length s
  pub top : out.top ≤ len

module _ (len : ℕ) (size : len < 2 ^ 64) where
  room-Shows :
      (s : List ℕ) (out : Out) → length s < len → Shows len s out → room len out ≡ len - length s
  unfolding room
  room-Shows s out fits h = omega (arith, h.n, fits, size)

  -- The bytes that are written.
  write-Shows :
      (s t : List ℕ) (out : Out)
      → length (s ++ t) < len
      → Shows len s out
      → write len t out ≡ record out { text = s ++ t; top = max out.top (out.n + length t + 1) }
  unfolding write
  write-Shows s t out fits h = simp (some_room, reached, kept, h.text) refl
    where
      left : room len out ≡ len - length s
      left = room-Shows s out (omega (arith, fits, length-append s t)) h

      some_room : (room len out == 0) ≡ false
      some_room = ground (arith, left, fits, length-append s t)

      reached : ltb (length out.text) out.n ≡ false
      reached = ground (arith, length-take_le out.n out.text, ap length h.text, h.n)

      kept : take (room len out - 1) t ≡ t
      kept = take_all (room len out - 1) t (omega (arith, left, fits, length-append s t))

  pub put-Shows :
      (s t : List ℕ) (out : Out)
      → length (s ++ t) < len
      → Shows len s out
      → Shows len (s ++ t) (put len t out)
  unfolding put
  put-Shows s t out fits h = record {
    text =
        ap (λ o. take (out.n + length t) o.text) (write-Shows s t out fits h)
        ∙ take_all (out.n + length t) (s ++ t) (omega (arith, h.n, length-append s t));
    n = omega (arith, h.n, length-append s t);
    top =
        subst (λ o. o.top ≤ len) (sym (write-Shows s t out fits h))
          (omega (arith, h.top, h.n, fits, length-append s t));
  }

  pub put_checked-Shows :
      (s t : List ℕ) (out : Out)
      → length (s ++ t) < len
      → Shows len s out
      → put_checked len t out ≡ whole (put len t out)
  unfolding put_checked
  put_checked-Shows s t out fits h =
      rw (room-Shows s out (omega (arith, fits, length-append s t)) h, short) refl
    where
      short : leb (len - length s) (length t) ≡ false
      short = ground (arith, fits, length-append s t)

  -- The names of the bits that are set, each but the first behind a separator.
  pub put_item-Shows :
      (s sep name : List ℕ) (first : Bool) (out : Out)
      → length (s ++ ((if first then [] else sep) ++ name)) < len
      → Shows len s out
      → (next : Out) × (put_item len sep first name out ≡ whole next)
        × Shows len (s ++ ((if first then [] else sep) ++ name)) next
  unfolding put_item
  put_item-Shows s sep name true out fits h =
      (put len name out, put_checked-Shows s name out fits h, put-Shows s name out fits h)
  put_item-Shows s sep name false out fits h =
      let early : length (s ++ sep) < len =
        omega (
          arith,
          fits,
          length-append s (sep ++ name),
          length-append sep name,
          length-append s sep,
        ) in
      let both : length ((s ++ sep) ++ name) < len =
        subst (λ t. length t < len) (sym (append_assoc s sep name)) fits in
      let h1 = put-Shows s sep out early h in
      (
        put len name (put len sep out),
        rw (put_checked-Shows s sep out early h)
            (put_checked-Shows (s ++ sep) name (put len sep out) both h1),
        subst (λ t. Shows len t (put len name (put len sep out))) (append_assoc s sep name)
            (put-Shows (s ++ sep) name (put len sep out) both h1),
      )

  pub room_left :
      (s : List ℕ) (out : Out) → length s < len → Shows len s out → (room len out == 0) ≡ false
  room_left s out fits h = ground (arith, room-Shows s out fits h, fits)
