-- ===== src/IsobusServer/Paths/Resolve.antt =====
-- `isobusfs_convert_relative_to_absolute` of isobusfs/isobusfs_srv_dh.c against the directories that
-- a relative path names.
use mathlib.Core.List.{reverse, reverse-reverse}
use can_utils.Base.{
  ℕ, suc, ◌+◌, ◌-◌, ◌<◌, ◌≡◌, ◌⊎◌, inl, inr, refl, ap, ◌∙◌, List, [], ◌∷◌, true, false, ◌==◌, some,
  length, arith, Bool-cases, length-append, All, lt→ltb, lt→leb, ne→==,
}
use can_utils.IsobusServer.Handles.{same_name}
use can_utils.IsobusServer.Paths.{
  converted, sep, validate_path_chars, prefix, handle_path_prefix, convert_relative_to_absolute,
  closed_dir, starts_with,
}
use can_utils.IsobusServer.Paths.Bounds.{length-reverse}
use can_utils.IsobusServer.Paths.Normal.{
  IsName, tail_of, joined, onto, shut, ajar, dot, dotdot, is_dots, outer, enter, resolve, shown,
  length-onto, or_right,
}
use can_utils.IsobusServer.Paths.Names.{first_char, convert_from-names}

onto_head :
    (s abs : List ℕ)
    → IsName s
    → (c : ℕ) × (rest : List ℕ) × (onto s abs ≡ c ∷ rest) × ((c == sep) ≡ false)
onto_head [] abs v = absurd (omega (arith, v.0))
onto_head (c ∷ []) abs v = (c, abs, refl, or_right (c == 0) (c == sep) v.1.0)
onto_head (c ∷ d ∷ s) abs v = onto_head (d ∷ s) (c ∷ abs) (omega arith, v.1.1)

outer-plain :
    (st : List (List ℕ)) → All (λ n. is_dots n ≡ false) st → All (λ n. is_dots n ≡ false) (outer st)
outer-plain [] w = tt
outer-plain (t ∷ st) w = w.1

resolve-plain :
    (st ss : List (List ℕ))
    → All (λ n. is_dots n ≡ false) st
    → All (λ n. is_dots n ≡ false) (resolve st ss)
resolve-plain st [] w = w
resolve-plain st (s ∷ ss) w = resolve-plain (enter st s) ss (elim (Bool-cases (same_name s dot)) [
  | inl e ↦ rw e w
  | inr ne ↦ elim (Bool-cases (same_name s dotdot)) [
    | inl e ↦ rw (ne, e) (outer-plain st w)
    | inr other ↦ rw (ne, other) (rw (ne, other), w)
  ]
])

shown-resolve :
    (st : List (List ℕ)) (s : List ℕ) (ss : List (List ℕ))
    → (shown st s ss ≡ shut (resolve st (s ∷ ss))) ⊎ (shown st s ss ≡ ajar (resolve st (s ∷ ss)))
shown-resolve st s [] = elim (Bool-cases (is_dots s)) [ inl e ↦ inl (rw e) | inr e ↦ inr (rw e) ]
shown-resolve st s (t ∷ ss) = shown-resolve (enter st s) t ss

closed_dir-names :
    (size : ℕ) (d : List ℕ) (st : List (List ℕ))
    → IsName d
    → length (ajar (d ∷ st)) + 1 < size
    → closed_dir size (ajar (d ∷ st)) ≡ some (shut (d ∷ st))
closed_dir-names size d st v h =
    let (c, rest, e, ne) = onto_head d (shut st) v in
    rw e (rw (ne, lt→ltb (suc (length rest)) (size - 1) (omega (arith, ap length e))))

handle_path_prefix-names :
    (size : ℕ) (beyond : ℕ → ℕ) (d : List ℕ) (st : List (List ℕ)) (s : List ℕ) (ss : List (List ℕ))
    → IsName d
    → IsName s
    → starts_with beyond (joined (s ∷ ss)) b'~' sep ≡ false
    → length (ajar (d ∷ st)) + 1 < size
    → handle_path_prefix size beyond (reverse (ajar (d ∷ st))) (joined (s ∷ ss))
      ≡ prefix (shut (d ∷ st)) (joined (s ∷ ss))
unfolding handle_path_prefix
handle_path_prefix-names size beyond d st s ss v u home h =
    let (c, cs, e, z, ne) = first_char s (tail_of ss) u in
    rw (home, local c cs e ne)
      (rw (reverse-reverse (ajar (d ∷ st)))
        (rw (closed_dir-names size d st v h) (ap (prefix (shut (d ∷ st))) (rw e (rw ne)))))
  where
    begins :
        (c : ℕ) (cs : List ℕ) → (c == sep) ≡ false → starts_with beyond (c ∷ cs) sep sep ≡ false
    begins c cs ne = rw ne

    local :
        (c : ℕ) (cs : List ℕ)
        → joined (s ∷ ss) ≡ c ∷ cs
        → (c == sep) ≡ false
        → starts_with beyond (joined (s ∷ ss)) sep sep ≡ false
    local c cs e ne = rw e (begins c cs ne)

convert-names :
    (size : ℕ) (beyond : ℕ → ℕ) (d : List ℕ) (st : List (List ℕ)) (s : List ℕ) (ss : List (List ℕ))
    → All IsName (d ∷ st)
    → All IsName (s ∷ ss)
    → validate_path_chars (joined (s ∷ ss)) ≡ true
    → starts_with beyond (joined (s ∷ ss)) b'~' sep ≡ false
    → length (joined (s ∷ ss)) + length (ajar (d ∷ st)) + 2 < size
    → convert_relative_to_absolute size beyond (reverse (ajar (d ∷ st))) (joined (s ∷ ss))
      ≡ some (converted (reverse (shown (d ∷ st) s ss)))
unfolding convert_relative_to_absolute
convert-names size beyond d st s ss w v valid home h =
    rw
      (
        ne→== (length (joined (s ∷ ss))) 0
            (λ e. absurd (omega (arith, v.0.0, length-append {0} {A = ℕ} s (tail_of ss)))),
        valid,
        lt→leb size (length (reverse (ajar (d ∷ st))))
            (omega (arith, length-reverse (ajar (d ∷ st)))),
        ne→== (length (reverse (ajar (d ∷ st)))) 0 (λ e.
            absurd (omega (arith, length-reverse (ajar (d ∷ st)), length-onto d (shut st), w.0.0))),
        handle_path_prefix-names size beyond d st s ss w.0 v.0 home (omega arith),
      )
      (convert_from-names size (suc (length (joined (s ∷ ss)))) (d ∷ st) s ss w v (omega arith)
        (omega arith))

-- A relative path of names with one backslash between them, read in a current directory of such
-- names below the root, where the characters are allowed, the path does not start with `~\`, for
-- which the code also takes a lone `~` with a backslash behind it in the message, and both together
-- leave three characters of the buffer. The conversion gives the path of the directories that the
-- names lead to, `.` staying and `..` leaving the innermost directory but not the root; it ends in a
-- backslash or not. No directory of it is called `.` or `..` if none of the current directory is.
pub convert_relative_to_absolute-resolve :
    (size : ℕ) (beyond : ℕ → ℕ) (d : List ℕ) (st : List (List ℕ)) (s : List ℕ) (ss : List (List ℕ))
    → All IsName (d ∷ st)
    → All IsName (s ∷ ss)
    → validate_path_chars (joined (s ∷ ss)) ≡ true
    → starts_with beyond (joined (s ∷ ss)) b'~' sep ≡ false
    → length (joined (s ∷ ss)) + length (ajar (d ∷ st)) + 2 < size
    → let dirs = resolve (d ∷ st) (s ∷ ss) in
      let result =
        convert_relative_to_absolute size beyond (reverse (ajar (d ∷ st))) (joined (s ∷ ss)) in
      ((result ≡ some (converted (reverse (shut dirs))))
        ⊎ (result ≡ some (converted (reverse (ajar dirs)))))
      × (All (λ n. is_dots n ≡ false) (d ∷ st) → All (λ n. is_dots n ≡ false) dirs)
convert_relative_to_absolute-resolve size beyond d st s ss w v valid home h = (
  elim (shown-resolve (d ∷ st) s ss) [
    | inl e ↦ inl (
        convert-names size beyond d st s ss w v valid home h
        ∙ ap (λ (a : List ℕ). some (converted (reverse a))) e)
    | inr e ↦ inr (
        convert-names size beyond d st s ss w v valid home h
        ∙ ap (λ (a : List ℕ). some (converted (reverse a))) e)
  ],
  resolve-plain (d ∷ st) (s ∷ ss),
)
