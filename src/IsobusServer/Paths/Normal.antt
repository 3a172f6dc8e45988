-- ===== src/IsobusServer/Paths/Normal.antt =====
-- What the conversion of isobusfs/isobusfs_srv_dh.c makes of a path of directory names with one
-- backslash between them.
use can_utils.Base.{
  ℕ, suc, ◌+◌, ◌-◌, ◌≤◌, ◌<◌, ◌≡◌, refl, ◌∙◌, List, [], ◌∷◌, ◌++◌, Bool, true, false, ◌||◌, ◌==◌,
  if◌then◌else◌, some, length, arith, All, lt→ltb, lt→leb,
}
use can_utils.IsobusServer.Handles.{same_name}
use can_utils.IsobusServer.Paths.{sep, climb, parent, copy_segment}

-- A directory name: it is not empty and has no NUL and no backslash.
abbrev pub IsName : List ℕ → Type 0
IsName s = (0 < length s) × All (λ c. (c == 0 || c == sep) ≡ false) s

-- Names, each after a backslash, and names with a backslash between them.
abbrev pub tail_of : List (List ℕ) → List ℕ
tail_of [] = []
tail_of (s ∷ ss) = sep ∷ s ++ tail_of ss

abbrev pub joined : List (List ℕ) → List ℕ
joined [] = []
joined (s ∷ ss) = s ++ tail_of ss

-- The characters in front of `abs`, the last one first.
abbrev pub onto : List ℕ → List ℕ → List ℕ
onto [] abs = abs
onto (c ∷ s) abs = onto s (c ∷ abs)

-- An absolute path, reversed, of the names from the innermost one on: with a backslash at its end,
-- and without.
abbrev pub shut : List (List ℕ) → List ℕ
shut [] = sep ∷ sep ∷ []
shut (s ∷ st) = sep ∷ onto s (shut st)

abbrev pub ajar : List (List ℕ) → List ℕ
ajar [] = shut []
ajar (s ∷ st) = onto s (shut st)

abbrev pub dot : List ℕ
dot = b'.' ∷ []

abbrev pub dotdot : List ℕ
dotdot = b'.' ∷ b'.' ∷ []

abbrev pub is_dots : List ℕ → Bool
is_dots s = same_name s dot || same_name s dotdot

abbrev pub outer : List (List ℕ) → List (List ℕ)
outer [] = []
outer (s ∷ st) = st

-- The directories after one name: `.` stays, `..` leaves the innermost one but not the root.
abbrev pub enter : List (List ℕ) → List ℕ → List (List ℕ)
enter st s = if same_name s dot then st else if same_name s dotdot then outer st else s ∷ st

abbrev pub resolve : List (List ℕ) → List (List ℕ) → List (List ℕ)
resolve st [] = st
resolve st (s ∷ ss) = resolve (enter st s) ss

-- The path of the directories after the names: a backslash ends it where the last name is `.` or
-- `..`.
abbrev pub shown : List (List ℕ) → List ℕ → List (List ℕ) → List ℕ
shown st s [] = if is_dots s then shut (enter st s) else ajar (enter st s)
shown st s (t ∷ ss) = shown (enter st s) t ss

abbrev pub after : List (List ℕ) → List ℕ → List (List ℕ) → List ℕ
after st s [] = if is_dots s then shut (enter st s) else ajar (enter st s)
after st s (t ∷ ss) = shut (enter st s)

pub or_left : (a b : Bool) → (a || b) ≡ false → a ≡ false
or_left true b e = cc
or_left false b e = refl

pub or_right : (a b : Bool) → (a || b) ≡ false → b ≡ false
or_right true b e = cc
or_right false b e = e

pub length-onto : (s abs : List ℕ) → length (onto s abs) ≡ length s + length abs
length-onto [] abs = omega arith
length-onto (c ∷ s) abs = omega (arith, length-onto s (c ∷ abs))

pub length-shut : (st : List (List ℕ)) → 2 ≤ length (shut st)
length-shut [] = omega arith
length-shut (s ∷ st) = omega (arith, length-onto s (shut st), length-shut st)

pub climb-onto :
    (s abs : List ℕ)
    → All (λ c. (c == 0 || c == sep) ≡ false) s
    → 2 ≤ length abs
    → climb (onto s abs) ≡ climb abs
unfolding climb
climb-onto [] abs v h = refl
climb-onto (c ∷ s) abs v h =
    climb-onto s (c ∷ abs) v.1 (omega arith)
    ∙ rw (lt→ltb 2 (suc (length abs)) (omega arith), or_right (c == 0) (c == sep) v.0)

pub climb-shut : (st : List (List ℕ)) → climb (shut st) ≡ shut st
unfolding climb
climb-shut [] = refl
climb-shut (s ∷ st) = ground arith

pub parent-shut : (st : List (List ℕ)) → All IsName st → parent (shut st) ≡ shut (outer st)
unfolding parent climb
parent-shut [] v = refl
parent-shut (s ∷ st) v =
    rw
      (lt→ltb 2 (suc (length (onto s (shut st))))
        (omega (arith, v.0.0, length-onto s (shut st), length-shut st)))
      (climb-onto s (shut st) v.0.1 (length-shut st) ∙ climb-shut st)

pub copy_segment-name :
    (size : ℕ) (s : List ℕ) (ss : List (List ℕ)) (abs : List ℕ)
    → All (λ c. (c == 0 || c == sep) ≡ false) s
    → length s + length abs < size
    → copy_segment size (s ++ tail_of ss) abs ≡ some (tail_of ss, onto s abs)
unfolding copy_segment
copy_segment-name size [] [] abs v h = refl
copy_segment-name size [] (t ∷ ss) abs v h = refl
copy_segment-name size (c ∷ s) ss abs v h =
    rw (v.0, lt→leb (size - 1) (length abs) (omega arith))
      (copy_segment-name size s ss (c ∷ abs) v.1 (omega arith))
