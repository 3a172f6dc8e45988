-- ===== src/ErrorText/Full.antt =====
-- `snprintf_can_error_frame` in a buffer that the text fits.
use can_utils.Base.{
  ℕ, ◌+◌, ◌^◌, ◌≤◌, ◌<◌, List, [], ◌∷◌, ◌++◌, append_assoc, append-nil, Bool, true, false, not,
  ◌&&◌, ◌||◌, bit_and, ltb, ◌==◌, if◌then◌else◌, is_set, length, ◌≡◌, refl, ap, sym, ◌∙◌, arith,
  length-append, subst, Bool-cases, inl, inr,
}
use can_utils.Base.Text.{codes}
use can_utils.Frame.{Cu, data_at, can_err_flag, can_eff_mask}
use can_utils.ErrorText.{
  Out, room, put, whole, has_bit, data_from, error_data, error_lostarb, error_ctrl, error_prot,
  error_cnt, location, class_data, classes_from, counters, snprintf_can_error_frame, error_classes,
  controller_problems, protocol_violation_types,
}
use can_utils.ErrorText.Whole.{Shows, put-Shows, put_item-Shows, room_left}
use can_utils.ErrorText.Reference.{
  data_text, types_text, ctrl_text, prot_text, cnt_text, class_text, classes_text, counters_text,
  error_text,
}

module _ (len : ℕ) (size : len < 2 ^ 64) where
  -- A part of a text that fits.
  part_fits : (s t u : List ℕ) → length (s ++ (t ++ u)) < len → length (s ++ t) < len
  part_fits s t u h =
      omega (arith, h, length-append s (t ++ u), length-append t u, length-append s t)

  rest_fits : (s t u : List ℕ) → length (s ++ (t ++ u)) < len → length ((s ++ t) ++ u) < len
  rest_fits s t u h = subst (λ k. length k < len) (sym (append_assoc s t u)) h

  front_fits : (s t : List ℕ) → length (s ++ t) < len → length s < len
  front_fits s t h = omega (arith, h, length-append s t)

  reshape : {s t : List ℕ} {out : Out} → s ≡ t → Shows len s out → Shows len t out
  reshape {out} e h = subst (λ k. Shows len k out) e h

  data_from-Shows :
      (err i : ℕ) (first : Bool) (arr : List (List ℕ)) (s : List ℕ) (out : Out)
      → length (s ++ data_text err i first arr) < len
      → Shows len s out
      → (next : Out) × (data_from len err i first arr out ≡ whole next)
        × Shows len (s ++ data_text err i first arr) next
  unfolding data_from data_text
  data_from-Shows err i first [] s out fits h =
      (out, refl, subst (λ k. Shows len k out) (sym (append-nil s)) h)
  data_from-Shows err i first (name ∷ arr) s out fits h = elim (Bool-cases (has_bit err i)) [
    | inl set_bit ↦
        let item : List ℕ = (if first then [] else b',' ∷ []) ++ name in
        let rest : List ℕ = data_text err (i + 1) false arr in
        let room_for : length (s ++ (item ++ rest)) < len = rw set_bit at fits in
        let (mid, e1, h1) =
          put_item-Shows len size s (b',' ∷ []) name first out (part_fits s item rest room_for) h in
        let (next, e2, h2) =
          data_from-Shows err (i + 1) false arr (s ++ item) mid (rest_fits s item rest room_for)
            h1 in
        (
          next,
          rw (set_bit, e1) e2,
          rw set_bit (subst (λ k. Shows len k next) (append_assoc s item rest) h2),
        )
    | inr clear ↦
        let room_for : length (s ++ data_text err (i + 1) first arr) < len = rw clear at fits in
        let (next, e2, h2) = data_from-Shows err (i + 1) first arr s out room_for h in
        (next, rw clear e2, rw clear h2)
  ]

  error_data-Shows :
      (err : ℕ) (arr : List (List ℕ)) (s : List ℕ) (out : Out)
      → length (s ++ types_text err arr) < len
      → Shows len s out
      → Shows len (s ++ types_text err arr) (error_data len err arr out)
  unfolding error_data types_text
  error_data-Shows err arr s out fits h = elim (Bool-cases (is_set err)) [
    | inl some_bit ↦
        let room_for : length (s ++ data_text err 0 true arr) < len = rw some_bit at fits in
        let (next, e, h1) = data_from-Shows err 0 true arr s out room_for h in
        let left = room_left len size s out (front_fits s (data_text err 0 true arr) room_for) h in
        rw (some_bit, left, e) h1
    | inr none_set ↦ rw none_set (subst (λ k. Shows len k out) (sym (append-nil s)) h)
  ]

  -- A call that is skipped when there is no room.
  guarded :
      (s t : List ℕ) (out next : Out)
      → length (s ++ t) < len
      → Shows len s out
      → Shows len (s ++ t) next
      → Shows len (s ++ t) (if room len out == 0 then out else next)
  guarded s t out next fits h k = rw (room_left len size s out (front_fits s t fits) h) k

  error_ctrl-Shows :
      (cf : Cu) (s : List ℕ) (out : Out)
      → length (s ++ ctrl_text cf) < len
      → Shows len s out
      → Shows len (s ++ ctrl_text cf) (error_ctrl len cf out)
  unfolding error_ctrl ctrl_text
  error_ctrl-Shows cf s out fits h =
      guarded s ((b'{' ∷ []) ++ (types ++ (b'}' ∷ []))) out _ fits h (
        reshape nested (
          put-Shows len size ((s ++ (b'{' ∷ [])) ++ types) (b'}' ∷ []) _ fits3 (
            error_data-Shows (data_at cf 1) controller_problems (s ++ (b'{' ∷ [])) _ fits2 (
              put-Shows len size s (b'{' ∷ []) out (front_fits (s ++ (b'{' ∷ [])) types fits2) h))))
    where
      types : List ℕ
      types = types_text (data_at cf 1) controller_problems

      nested :
          ((s ++ (b'{' ∷ [])) ++ types) ++ (b'}' ∷ [])
          ≡ s ++ ((b'{' ∷ []) ++ (types ++ (b'}' ∷ [])))
      nested =
          append_assoc (s ++ (b'{' ∷ [])) types (b'}' ∷ [])
          ∙ append_assoc s (b'{' ∷ []) (types ++ (b'}' ∷ []))

      fits3 : length (((s ++ (b'{' ∷ [])) ++ types) ++ (b'}' ∷ [])) < len
      fits3 = subst (λ k. length k < len) (sym nested) fits

      fits2 : length ((s ++ (b'{' ∷ [])) ++ types) < len
      fits2 = front_fits ((s ++ (b'{' ∷ [])) ++ types) (b'}' ∷ []) fits3

  no_location :
      (cf : Cu) → (ltb 0 (data_at cf 3) && ltb (data_at cf 3) 32) ≡ false → location cf ≡ []
  unfolding location
  no_location cf h = rw h refl

  -- The location is printed if it is known.
  located-Shows :
      (cf : Cu) (s : List ℕ) (out : Out)
      → length (s ++ location cf) < len
      → Shows len s out
      → Shows len
          (s ++ location cf)
          (if ltb 0 (data_at cf 3) && ltb (data_at cf 3) 32 then put len (location cf) out else out)
  located-Shows cf s out fits h =
      elim (Bool-cases (ltb 0 (data_at cf 3) && ltb (data_at cf 3) 32)) [
        | inl known ↦ rw known (put-Shows len size s (location cf) out fits h)
        | inr unknown ↦
            rw unknown
              (reshape (sym (append-nil s) ∙ ap (λ t. s ++ t) (sym (no_location cf unknown))) h)
      ]

  error_prot-Shows :
      (cf : Cu) (s : List ℕ) (out : Out)
      → length (s ++ prot_text cf) < len
      → Shows len s out
      → Shows len (s ++ prot_text cf) (error_prot len cf out)
  unfolding error_prot prot_text
  error_prot-Shows cf s out fits h =
      guarded s (opening ++ (types ++ (middle ++ (location cf ++ closing)))) out _ fits h (
        reshape nested (
          put-Shows len size ((((s ++ opening) ++ types) ++ middle) ++ location cf) closing _ fits5
            (located-Shows cf (((s ++ opening) ++ types) ++ middle) _ fits4 (
              put-Shows len size ((s ++ opening) ++ types) middle _ fits3 (
                error_data-Shows (data_at cf 2) protocol_violation_types (s ++ opening) _ fits2
                  (put-Shows len size s opening out (front_fits (s ++ opening) types fits2) h))))))
    where
      opening : List ℕ
      opening = codes "{{"

      middle : List ℕ
      middle = codes "}{"

      closing : List ℕ
      closing = codes "}}"

      types : List ℕ
      types = types_text (data_at cf 2) protocol_violation_types

      nested :
          ((((s ++ opening) ++ types) ++ middle) ++ location cf) ++ closing
          ≡ s ++ (opening ++ (types ++ (middle ++ (location cf ++ closing))))
      nested =
          append_assoc (((s ++ opening) ++ types) ++ middle) (location cf) closing
          ∙ append_assoc ((s ++ opening) ++ types) middle (location cf ++ closing)
          ∙ append_assoc (s ++ opening) types (middle ++ (location cf ++ closing))
          ∙ append_assoc s opening (types ++ (middle ++ (location cf ++ closing)))

      fits5 : length (((((s ++ opening) ++ types) ++ middle) ++ location cf) ++ closing) < len
      fits5 = subst (λ k. length k < len) (sym nested) fits

      fits4 : length ((((s ++ opening) ++ types) ++ middle) ++ location cf) < len
      fits4 = front_fits ((((s ++ opening) ++ types) ++ middle) ++ location cf) closing fits5

      fits3 : length (((s ++ opening) ++ types) ++ middle) < len
      fits3 = front_fits (((s ++ opening) ++ types) ++ middle) (location cf) fits4

      fits2 : length ((s ++ opening) ++ types) < len
      fits2 = front_fits ((s ++ opening) ++ types) middle fits3

  choose :
      (s : List ℕ) (b : Bool) (t u : List ℕ) (o p : Out)
      → (length (s ++ t) < len → Shows len (s ++ t) o)
      → (length (s ++ u) < len → Shows len (s ++ u) p)
      → length (s ++ (if b then t else u)) < len
      → Shows len (s ++ (if b then t else u)) (if b then o else p)
  choose s true t u o p h k fits = h fits
  choose s false t u o p h k fits = k fits

  error_cnt-Shows :
      (cf : Cu) (s : List ℕ) (out : Out)
      → length (s ++ cnt_text cf) < len
      → Shows len s out
      → Shows len (s ++ cnt_text cf) (error_cnt len cf out)
  unfolding error_cnt cnt_text
  error_cnt-Shows cf s out fits h = guarded s _ out _ fits h (put-Shows len size s _ out fits h)

  class_data-Shows :
      (cf : Cu) (i : ℕ) (s : List ℕ) (out : Out)
      → length (s ++ class_text cf i) < len
      → Shows len s out
      → Shows len (s ++ class_text cf i) (class_data len cf i out)
  unfolding class_data class_text error_lostarb
  class_data-Shows cf i s out fits h =
      choose s (i == 1) _ _ _ _ (λ k. guarded s _ out _ k h (put-Shows len size s _ out k h))
        (choose s (i == 2) _ _ _ _ (λ k. error_ctrl-Shows cf s out k h)
          (choose s (i == 3) _ _ _ _ (λ k. error_prot-Shows cf s out k h)
            (choose s (i == 9) _ _ _ _ (λ k. error_cnt-Shows cf s out k h)
              (λ k. reshape (sym (append-nil s)) h))))
        fits

  classes_from-Shows :
      (cf : Cu) (sep : List ℕ) (i : ℕ) (first : Bool) (names : List (List ℕ)) (s : List ℕ)
      (out : Out)
      → length (s ++ classes_text cf sep i first names) < len
      → Shows len s out
      → (next : Out) × (classes_from len cf sep i first names out ≡ whole next)
        × Shows len (s ++ classes_text cf sep i first names) next
  unfolding classes_from classes_text
  classes_from-Shows cf sep i first [] s out fits h = (out, refl, reshape (sym (append-nil s)) h)
  classes_from-Shows cf sep i first (name ∷ names) s out fits h =
      elim (Bool-cases (has_bit (bit_and cf.can_id can_eff_mask) i)) [
        | inl set_bit ↦
            let item : List ℕ = (if first then [] else sep) ++ name in
            let suffix : List ℕ = class_text cf i in
            let rest : List ℕ = classes_text cf sep (i + 1) false names in
            let room_for : length (s ++ (item ++ (suffix ++ rest))) < len = rw set_bit at fits in
            let room_suffix : length ((s ++ item) ++ (suffix ++ rest)) < len =
              rest_fits s item (suffix ++ rest) room_for in
            let (mid, e1, h1) =
              put_item-Shows len size s sep name first out
                (part_fits s item (suffix ++ rest) room_for) h in
            let h2 =
              class_data-Shows cf i (s ++ item) mid (part_fits (s ++ item) suffix rest room_suffix)
                h1 in
            let (next, e2, h3) =
              classes_from-Shows cf sep (i + 1) false names ((s ++ item) ++ suffix)
                (class_data len cf i mid) (rest_fits (s ++ item) suffix rest room_suffix) h2 in
            (
              next,
              rw (set_bit, e1) e2,
              rw set_bit (
                  reshape
                    (append_assoc (s ++ item) suffix rest ∙ append_assoc s item (suffix ++ rest))
                    h3),
            )
        | inr clear ↦
            let room_for : length (s ++ classes_text cf sep (i + 1) first names) < len =
              rw clear at fits in
            let (next, e2, h2) = classes_from-Shows cf sep (i + 1) first names s out room_for h in
            (next, rw clear e2, rw clear h2)
      ]

  counters-Shows :
      (cf : Cu) (sep s : List ℕ) (out : Out)
      → length (s ++ counters_text cf sep) < len
      → Shows len s out
      → Shows len (s ++ counters_text cf sep) (counters len cf sep out)
  unfolding counters counters_text
  counters-Shows cf sep s out fits h =
      choose s
        (not (is_set (bit_and cf.can_id 0x200)) && (is_set (data_at cf 6) || is_set (data_at cf 7)))
        _ _ _ _
        (λ k.
          let name : List ℕ = sep ++ codes "error-counter-tx-rx" in
          reshape (append_assoc s name (cnt_text cf)) (
            error_cnt-Shows cf (s ++ name) (put len name out) (rest_fits s name (cnt_text cf) k)
              (put-Shows len size s name out (part_fits s name (cnt_text cf) k) h)))
        (λ k. reshape (sym (append-nil s)) h) fits

  -- The text of an error frame whose class is at most 1 << 10, in a buffer whose size is a
  -- `size_t`. If it fits with a NUL, the buffer shows it up to the value returned, which is its
  -- length, whatever the buffer held before, and nothing is written behind the buffer.
  pub snprintf_can_error_frame-Shows :
      (cf : Cu) (sep before : List ℕ)
      → is_set (bit_and cf.can_id can_err_flag) ≡ true
      → bit_and cf.can_id can_eff_mask ≤ 2 ^ 10
      → length (error_text cf sep) < len
      → Shows len (error_text cf sep) (snprintf_can_error_frame len cf sep before)
  unfolding snprintf_can_error_frame error_text
  snprintf_can_error_frame-Shows cf sep before err known fits =
      let start : Out = record { text = before; n = 0; top = 0 } in
      let text : List ℕ = classes_text cf sep 0 true error_classes in
      let (out, e, h) =
        classes_from-Shows cf sep 0 true error_classes [] start
          (front_fits text (counters_text cf sep) fits)
          (record { text = refl; n = refl; top = omega arith }) in
      rw (err, valid, e) (counters-Shows cf sep text out fits h)
    where
      valid : ltb (2 ^ 10) (bit_and cf.can_id can_eff_mask) ≡ false
      valid = ground (arith, known)
