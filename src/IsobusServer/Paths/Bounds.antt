-- ===== src/IsobusServer/Paths/Bounds.antt =====
-- The conversion of isobusfs/isobusfs_srv_dh.c ends, inside the buffer of the absolute path.
use mathlib.Core.List.{reverse, reverse-cons}
use can_utils.Base.{
  ℕ, zero, suc, ◌+◌, ◌-◌, ◌≤◌, ◌<◌, ◌≡◌, ◌⊎◌, inl, inr, refl, ap, ◌≢◌, ==_iff, List, [], ◌∷◌, Bool,
  true, false, ◌&&◌, ◌||◌, ◌==◌, leb, if◌then◌else◌, Option, none, some, length, take, drop, arith,
  Bool-cases, length-append,
}
use can_utils.IsobusServer.Paths.{
  Converted, converted, refused, Split, sep, climb, parent, skip_separators, handle_dot_directive,
  is_end_or_backslash, is_nul, is_dot, is_dot_directive, copy_segment, end_segment,
  process_path_segment, handle_relative_path, convert_from, enomem,
}

length-climb : (abs : List ℕ) → length (climb abs) ≤ length abs
unfolding climb
length-climb [] = omega arith
length-climb (c ∷ abs) = ground (arith, length-climb abs)

length-parent : (abs : List ℕ) → length (parent abs) ≤ length abs
unfolding parent
length-parent [] = omega arith
length-parent (c ∷ abs) = ground (arith, length-climb abs, length-climb (c ∷ abs))

length-skip_separators : (rel : List ℕ) → length (skip_separators rel) ≤ length rel
unfolding skip_separators
length-skip_separators [] = omega arith
length-skip_separators (c ∷ rel) = ground (arith, length-skip_separators rel)

pub length-drop-le : (n : ℕ) (rel : List ℕ) → length (drop n rel) ≤ length rel
length-drop-le zero rel = omega arith
length-drop-le (suc n) [] = omega arith
length-drop-le (suc n) (c ∷ rel) = omega (arith, length-drop-le n rel)

-- A round that goes on has read something and keeps to the buffer.
abbrev Goes : ℕ → List ℕ → Option Split → Type 0
Goes size rel none = Unit {0}
Goes size rel (some (rest, abs)) = (length rest < length rel) × (length abs ≤ size - 1)

copy_segment-Goes :
    (size : ℕ) (c : ℕ) (rel abs : List ℕ)
    → length abs ≤ size - 1
    → Goes size (c ∷ rel) (copy_segment size rel abs)
unfolding copy_segment
copy_segment-Goes size c [] abs h = (omega arith, h)
copy_segment-Goes size c (d ∷ rel) abs h = elim (Bool-cases (d == 0 || d == sep)) [
  | inl stop ↦ rw stop (omega arith, h)
  | inr on ↦ elim (Bool-cases (leb (size - 1) (length abs))) [
    | inl full ↦ rw (on, full) tt
    | inr room ↦
        rw (on, room)
          (longer (copy_segment size rel (d ∷ abs))
            (copy_segment-Goes size c rel (d ∷ abs) (ground arith)))
  ]
]
  where
    longer : (r : Option Split) → Goes size (c ∷ rel) r → Goes size (c ∷ d ∷ rel) r
    longer none g = tt
    longer (some r) g = (omega arith, g.1)

end_segment-Goes :
    (size : ℕ) (rel : List ℕ) (r : Split)
    → Goes size rel (some r)
    → Goes size rel (some (end_segment size r))
end_segment-Goes size rel ([], abs) g = g
end_segment-Goes size rel (c ∷ rest, abs) g = elim (Bool-cases (c == sep)) [
  | inl e ↦ rw e (omega (arith, g.0), ground (arith, g.1))
  | inr e ↦ rw e g
]

process-Goes :
    (size c : ℕ) (rel abs : List ℕ)
    → length abs < size - 1
    → Goes size (c ∷ rel) (process_path_segment size (c ∷ rel) abs)
unfolding process_path_segment
process-Goes size c rel abs h =
    ends (copy_segment size rel (c ∷ abs)) (copy_segment-Goes size c rel (c ∷ abs) (omega arith))
  where
    ends :
        (r : Option Split)
        → Goes size (c ∷ rel) r
        → Goes size (c ∷ rel) (elim r [ none ↦ none | some s ↦ some (end_segment size s) ])
    ends none g = tt
    ends (some s) g = end_segment-Goes size (c ∷ rel) s g

and_right : (a b : Bool) → (a && b) ≡ true → b ≡ true
and_right true b e = e
and_right false b e = cc

dot-Goes :
    (size c : ℕ) (rel abs : List ℕ)
    → length abs < size - 1
    → is_dot_directive (c ∷ rel) ≡ true
    → Goes size (c ∷ rel) (some (handle_dot_directive (c ∷ rel) abs))
unfolding is_dot_directive handle_dot_directive
dot-Goes size c rel abs h d =
    dots (is_end_or_backslash 1 (c ∷ rel)) (is_nul 1 (c ∷ rel)) (is_dot 1 (c ∷ rel))
      (is_end_or_backslash 2 (c ∷ rel)) (is_nul 2 (c ∷ rel)) (and_right (is_dot 0 (c ∷ rel)) _ d)
  where
    shrink : (n : ℕ) → length (skip_separators (drop (suc n) (c ∷ rel))) < suc (length rel)
    shrink n = omega (arith, length-skip_separators (drop n rel), length-drop-le n rel)

    dots :
        (e1 n1 d1 e2 n2 : Bool)
        → ((e1 || n1) || (d1 && (e2 || n2))) ≡ true
        → Goes size (c ∷ rel) (
            some (elim (if e1 then some (drop 1 rel) else if n1 then some rel else none) [
              | some rest ↦ (skip_separators rest, abs)
              | none ↦
                  if d1
                  then (
                    skip_separators (if e2 then drop 2 rel else if n2 then drop 1 rel else c ∷ rel),
                    parent abs,
                  )
                  else (skip_separators (c ∷ rel), abs)
            ]))
    dots true n1 d1 e2 n2 k = (shrink 1, omega arith)
    dots false true d1 e2 n2 k = (shrink 0, omega arith)
    dots false false true true n2 k = (shrink 2, omega (arith, length-parent abs))
    dots false false true false true k = (shrink 1, omega (arith, length-parent abs))
    dots false false true false false k = cc
    dots false false false e2 n2 k = cc

relative-Goes :
    (size c : ℕ) (rel abs : List ℕ) → Goes size (c ∷ rel) (handle_relative_path size (c ∷ rel) abs)
unfolding handle_relative_path
relative-Goes size c rel abs = elim (Bool-cases (leb (size - 1) (length abs))) [
  | inl full ↦ rw full tt
  | inr room ↦ elim (Bool-cases (is_dot_directive (c ∷ rel))) [
    | inl dot ↦ rw (room, dot) (dot-Goes size c rel abs (ground arith) dot)
    | inr plain ↦ rw (room, plain) (process-Goes size c rel abs (ground arith))
  ]
]

-- A result, and of a path one that has room for its NUL.
abbrev pub Ends : ℕ → Option Converted → Type 0
Ends size none = ⊥
Ends size (some (converted p)) = length p + 1 ≤ size
Ends size (some (refused e)) = Unit {0}

pub length-reverse : (xs : List ℕ) → length (reverse xs) ≡ length xs
length-reverse [] = refl
length-reverse (x ∷ xs) = omega (
  arith,
  ap length (reverse-cons x xs),
  length-append {0} {A = ℕ} (reverse xs) (x ∷ []),
  length-reverse xs,
)

-- There is something to read.
abbrev pub Unread : List ℕ → Type 0
Unread [] = ⊥
Unread (c ∷ rel) = c ≢ 0

next-Ends :
    (size f : ℕ) (rel : List ℕ)
    → ((r abs : List ℕ)
        → length r < f
        → length abs ≤ size - 1
        → Ends size (convert_from size f r abs))
    → length rel < suc f
    → (r : Option Split) → Goes size rel r
    → Ends size
        (elim r [ none ↦ some (refused enomem) | some (rest, abs) ↦ convert_from size f rest abs ])
next-Ends size f rel k h none g = tt
next-Ends size f rel k h (some (rest, abs)) g = k rest abs (omega (arith, g.0)) g.1

pick-Ends :
    (size : ℕ) (b : Bool) (x y : Option Converted)
    → (b ≡ true → Ends size x)
    → Ends size y
    → Ends size (elim b [ true ↦ x | false ↦ y ])
pick-Ends size true x y h k = h refl
pick-Ends size false x y h k = k

pub convert_from-Ends :
    (size f : ℕ) (rel abs : List ℕ)
    → 0 < size
    → length rel < f
    → (length abs ≤ size - 1) ⊎ Unread rel
    → Ends size (convert_from size f rel abs)
unfolding convert_from
convert_from-Ends size zero rel abs z h u = absurd (omega arith)
convert_from-Ends size (suc f) [] abs z h (inl u) = omega (arith, length-reverse abs)
convert_from-Ends size (suc f) [] abs z h (inr u) = absurd u
convert_from-Ends size (suc f) (c ∷ rel) abs z h u =
    let rest =
      next-Ends size f (c ∷ rel) (λ r a k l. convert_from-Ends size f r a z k (inl l)) h
        (handle_relative_path size (c ∷ rel) abs) (relative-Goes size c rel abs) in
    pick-Ends size (c == 0) _ _ (stops u) rest
  where
    stops : (length abs ≤ size - 1) ⊎ (c ≢ 0) → (c == 0) ≡ true → length (reverse abs) + 1 ≤ size
    stops (inl l) e = omega (arith, length-reverse abs)
    stops (inr n) e = absurd (n ((==_iff c 0).0 e))

length-take-le : (n : ℕ) (xs : List ℕ) → length (take n xs) ≤ length xs
length-take-le zero xs = omega arith
length-take-le (suc n) [] = omega arith
length-take-le (suc n) (x ∷ xs) = omega (arith, length-take-le n xs)
