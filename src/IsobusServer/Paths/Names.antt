-- ===== src/IsobusServer/Paths/Names.antt =====
-- The loop of isobusfs/isobusfs_srv_dh.c over a path of directory names.
use mathlib.Core.List.{reverse}
use can_utils.Base.{
  ℕ, zero, suc, ◌+◌, ◌-◌, ◌≤◌, ◌<◌, ◌≡◌, inl, inr, refl, ap, sym, ◌∙◌, subst, List, [], ◌∷◌, ◌++◌,
  true, false, ◌==◌, if◌then◌else◌, Option, some, length, arith, Bool-cases, length-append, All,
  lt→ltb, lt→leb,
}
use can_utils.IsobusServer.Handles.{same_name}
use can_utils.IsobusServer.Handles.Slots.{same_name_iff}
use can_utils.IsobusServer.Paths.{
  converted, Split, sep, skip_separators, handle_dot_directive, is_dot_directive, end_segment,
  process_path_segment, handle_relative_path, convert_from,
}
use can_utils.IsobusServer.Paths.Normal.{
  after, IsName, tail_of, joined, onto, shut, dot, dotdot, is_dots, outer, enter, shown, or_left,
  or_right, length-onto, parent-shut, copy_segment-name,
}

-- A round of the loop over one name.
abbrev Rounds : ℕ → List (List ℕ) → List ℕ → List (List ℕ) → Option Split → Type 0
Rounds size st s ss r = r ≡ some (joined ss, after st s ss)

process-name :
    (size : ℕ) (st : List (List ℕ)) (s : List ℕ) (ss : List (List ℕ))
    → IsName s
    → is_dots s ≡ false
    → length (joined (s ∷ ss)) + length (shut st) + 1 < size
    → Rounds size st s ss (process_path_segment size (joined (s ∷ ss)) (shut st))
unfolding process_path_segment
process-name size st [] ss v plain h = absurd (omega (arith, v.0))
process-name size st (c ∷ s) ss v plain h =
    rw
      (
        copy_segment-name size s ss (c ∷ shut st) v.1.1
            (omega (arith, length-append {0} {A = ℕ} s (tail_of ss))),
        process_path_segment,
      )
      (ended ss h)
  where
    entered : enter st (c ∷ s) ≡ (c ∷ s) ∷ st
    entered = rw (
      or_left (same_name (c ∷ s) dot) (same_name (c ∷ s) dotdot) plain,
      or_right (same_name (c ∷ s) dot) (same_name (c ∷ s) dotdot) plain,
    )

    ended :
        (rest : List (List ℕ))
        → length (joined ((c ∷ s) ∷ rest)) + length (shut st) + 1 < size
        → some (end_segment size (tail_of rest, onto s (c ∷ shut st)))
          ≡ some (joined rest, after st (c ∷ s) rest)
    ended [] k = rw (plain, entered)
    ended (t ∷ rest) k = rw (
      entered,
      lt→ltb (length (onto s (c ∷ shut st))) (size - 1) (
          omega
            (arith, length-onto s (c ∷ shut st), length-append {0} {A = ℕ} s (tail_of (t ∷ rest)))),
    )

-- A name that is no `.` or `..` is not taken for one.
name_not_dots :
    (s : List ℕ) (ss : List (List ℕ))
    → IsName s
    → is_dots s ≡ false
    → is_dot_directive (joined (s ∷ ss)) ≡ false
unfolding is_dot_directive same_name
name_not_dots [] ss v h = absurd (omega (arith, v.0))
name_not_dots (a ∷ []) [] v h = ground arith
name_not_dots (a ∷ []) (t ∷ ss) v h = ground arith
name_not_dots (a ∷ b ∷ []) [] v h = ground arith
name_not_dots (a ∷ b ∷ []) (t ∷ ss) v h = ground arith
name_not_dots (a ∷ b ∷ c ∷ s) ss v h = ground arith

skip-joined : (ss : List (List ℕ)) → All IsName ss → skip_separators (joined ss) ≡ joined ss
unfolding skip_separators
skip-joined [] v = refl
skip-joined ([] ∷ ss) v = absurd (omega (arith, v.0.0))
skip-joined ((c ∷ s) ∷ ss) v = rw (or_right (c == 0) (c == sep) v.0.1.0)

handle-dot :
    (st : List (List ℕ)) (ss : List (List ℕ))
    → All IsName ss
    → handle_dot_directive (joined (dot ∷ ss)) (shut st) ≡ (joined ss, shut st)
unfolding handle_dot_directive skip_separators
handle-dot st [] v = refl
handle-dot st (t ∷ ss) v = ap (λ (r : List ℕ). (r, shut st)) (skip-joined (t ∷ ss) v)

handle-dotdot :
    (st : List (List ℕ)) (ss : List (List ℕ))
    → All IsName st
    → All IsName ss
    → handle_dot_directive (joined (dotdot ∷ ss)) (shut st) ≡ (joined ss, shut (outer st))
unfolding handle_dot_directive skip_separators
handle-dotdot st [] w v = ap (λ (a : List ℕ). ([], a)) (parent-shut st w)
handle-dotdot st (t ∷ ss) w v = rw (skip-joined (t ∷ ss) v, parent-shut st w)

dot_directive : (ss : List (List ℕ)) → is_dot_directive (joined (dot ∷ ss)) ≡ true
unfolding is_dot_directive
dot_directive [] = refl
dot_directive (t ∷ ss) = refl

dotdot_directive : (ss : List (List ℕ)) → is_dot_directive (joined (dotdot ∷ ss)) ≡ true
unfolding is_dot_directive
dotdot_directive [] = refl
dotdot_directive (t ∷ ss) = refl

after_dot :
    (st ss : List (List ℕ)) → ◌≡◌ {A = Split} (joined ss, shut st) (joined ss, after st dot ss)
unfolding same_name
after_dot st [] = refl
after_dot st (t ∷ ss) = refl

after_dotdot :
    (st ss : List (List ℕ))
    → ◌≡◌ {A = Split} (joined ss, shut (outer st)) (joined ss, after st dotdot ss)
unfolding same_name
after_dotdot st [] = refl
after_dotdot st (t ∷ ss) = refl

relative-name :
    (size : ℕ) (st : List (List ℕ)) (s : List ℕ) (ss : List (List ℕ))
    → All IsName st
    → All IsName (s ∷ ss)
    → length (joined (s ∷ ss)) + length (shut st) + 1 < size
    → Rounds size st s ss (handle_relative_path size (joined (s ∷ ss)) (shut st))
unfolding handle_relative_path
relative-name size st s ss w v h =
    rw (lt→leb (size - 1) (length (shut st)) (omega arith)) (elim (Bool-cases (same_name s dot)) [
      | inl e ↦
          let k = (same_name_iff s dot).0 e in
          subst
            (λ (n : List ℕ). Rounds size st n ss (
              if is_dot_directive (joined (n ∷ ss))
              then some (handle_dot_directive (joined (n ∷ ss)) (shut st))
              else process_path_segment size (joined (n ∷ ss)) (shut st)))
            (sym k)
            (rw (dot_directive ss) (ap some (handle-dot st ss v.1) ∙ ap some (after_dot st ss)))
      | inr ne ↦ elim (Bool-cases (same_name s dotdot)) [
        | inl e ↦
            let k = (same_name_iff s dotdot).0 e in
            subst
              (λ (n : List ℕ). Rounds size st n ss (
                if is_dot_directive (joined (n ∷ ss))
                then some (handle_dot_directive (joined (n ∷ ss)) (shut st))
                else process_path_segment size (joined (n ∷ ss)) (shut st)))
              (sym k)
              (rw (dotdot_directive ss)
                (ap some (handle-dotdot st ss w v.1) ∙ ap some (after_dotdot st ss)))
        | inr other ↦
            rw (name_not_dots s ss v.0 (rw (ne, other)))
              (process-name size st s ss v.0 (rw (ne, other)) h)
      ]
    ])

outer-names : (st : List (List ℕ)) → All IsName st → All IsName (outer st)
outer-names [] w = tt
outer-names (t ∷ st) w = w.1

enter-names : (st : List (List ℕ)) (s : List ℕ) → All IsName st → IsName s → All IsName (enter st s)
enter-names st s w v = elim (Bool-cases (same_name s dot)) [
  | inl e ↦ rw e w
  | inr ne ↦ elim (Bool-cases (same_name s dotdot)) [
    | inl e ↦ rw (ne, e) (outer-names st w)
    | inr other ↦ rw (ne, other) (v, w)
  ]
]

length-outer : (st : List (List ℕ)) → length (shut (outer st)) ≤ length (shut st)
length-outer [] = omega arith
length-outer (s ∷ st) = omega (arith, length-onto s (shut st))

pub length-enter :
    (st : List (List ℕ)) (s : List ℕ) → length (shut (enter st s)) ≤ length (shut st) + length s + 1
length-enter st s = elim (Bool-cases (same_name s dot)) [
  | inl e ↦ rw e (omega arith)
  | inr ne ↦ elim (Bool-cases (same_name s dotdot)) [
    | inl e ↦ rw (ne, e) (omega (arith, length-outer st))
    | inr other ↦ rw (ne, other) (omega (arith, length-onto s (shut st)))
  ]
]

pub first_char :
    (s rest : List ℕ)
    → IsName s
    → (c : ℕ) × (cs : List ℕ) × (s ++ rest ≡ c ∷ cs) × ((c == 0) ≡ false) × ((c == sep) ≡ false)
first_char [] rest v = absurd (omega (arith, v.0))
first_char (c ∷ s) rest v =
    (c, s ++ rest, refl, or_left (c == 0) (c == sep) v.1.0, or_right (c == 0) (c == sep) v.1.0)

convert_from-step :
    (size f : ℕ) (rel abs rest abs' : List ℕ) (c : ℕ) (cs : List ℕ)
    → rel ≡ c ∷ cs
    → (c == 0) ≡ false
    → handle_relative_path size rel abs ≡ some (rest, abs')
    → convert_from size (suc f) rel abs ≡ convert_from size f rest abs'
unfolding convert_from
convert_from-step size f rel abs rest abs' c cs e z h = rw e (
    rw (z, convert_from)
      (rw (sym (ap (λ (r : List ℕ). handle_relative_path size r abs) e) ∙ h, convert_from)))

pub convert_from-names :
    (size f : ℕ) (st : List (List ℕ)) (s : List ℕ) (ss : List (List ℕ))
    → All IsName st
    → All IsName (s ∷ ss)
    → length (joined (s ∷ ss)) + length (shut st) + 1 < size
    → length (joined (s ∷ ss)) < f
    → convert_from size f (joined (s ∷ ss)) (shut st) ≡ some (converted (reverse (shown st s ss)))
unfolding convert_from
convert_from-names size zero st s ss w v h l = absurd (omega arith)
convert_from-names size (suc zero) st s ss w v h l =
    absurd (omega (arith, v.0.0, length-append {0} {A = ℕ} s (tail_of ss)))
convert_from-names size (suc (suc f)) st s [] w v h l =
    let (c, cs, e, z, _) = first_char s [] v.0 in
    convert_from-step size (suc f) (joined (s ∷ [])) (shut st) [] (after st s []) c cs e z
      (relative-name size st s [] w v h)
convert_from-names size (suc (suc f)) st s (t ∷ ss) w v h l =
    let (c, cs, e, z, _) = first_char s (tail_of (t ∷ ss)) v.0 in
    convert_from-step size (suc f) (joined (s ∷ t ∷ ss)) (shut st) (joined (t ∷ ss))
      (after st s (t ∷ ss)) c cs e z (relative-name size st s (t ∷ ss) w v h)
    ∙ convert_from-names size (suc f) (enter st s) t ss (enter-names st s w v.0) v.1
        (omega (arith, length-enter st s, length-append {0} {A = ℕ} s (tail_of (t ∷ ss))))
        (omega (arith, length-append {0} {A = ℕ} s (tail_of (t ∷ ss))))
