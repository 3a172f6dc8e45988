-- ===== src/IsobusServer/Paths/Termination.antt =====
-- The conversion of isobusfs/isobusfs_srv_dh.c from its start.
use mathlib.Core.List.{reverse}
use can_utils.Base.{
  ℕ, suc, ◌-◌, ◌≤◌, ◌<◌, ◌≡◌, ◌⊎◌, inl, inr, List, [], ◌∷◌, true, not, ◌==◌, ltb, leb, Option, none,
  some, length, arith, Bool-cases,
}
use can_utils.IsobusServer.Handles.{FileName}
use can_utils.IsobusServer.Paths.{
  refused, sep, convert_from, validate_path_chars, handle_path_prefix, prefix, no_prefix,
  convert_relative_to_absolute, volume_end, closed_dir, skip_one, Prefix, starts_with, from_volume,
  byte_at, enomem,
}
use can_utils.IsobusServer.Paths.Bounds.{
  Unread, length-drop-le, Ends, length-reverse, convert_from-Ends,
}

-- The start of the conversion.
abbrev Begins : ℕ → List ℕ → Prefix → Type 0
Begins size rel (no_prefix e) = Unit {0}
Begins size rel (prefix abs rest) =
    (length rest ≤ length rel) × ((length abs ≤ size - 1) ⊎ Unread rest)

volume-Begins :
    (size : ℕ) (beyond : ℕ → ℕ) (dir rel : List ℕ) (e : Option ℕ)
    → 0 < length rel
    → starts_with beyond rel b'~' sep ≡ true
    → Begins size rel (from_volume dir rel e)
volume-Begins size beyond dir rel none some_byte h = tt
volume-Begins size beyond dir [] (some e) some_byte h = absurd (omega arith)
volume-Begins size beyond dir (a ∷ rel) (some e) some_byte h = (omega arith, inr (ground arith))

closed-Begins :
    (size : ℕ) (rel : List ℕ) (abs : List ℕ)
    → length abs < size
    → Begins size rel
        (elim (closed_dir size abs) [ none ↦ no_prefix enomem | some a ↦ prefix a (skip_one rel) ])
closed-Begins size rel [] h = (skips rel, inl (omega arith))
  where
    skips : (r : List ℕ) → length (skip_one r) ≤ length r
    skips [] = omega arith
    skips (c ∷ r) = ground arith
closed-Begins size rel (c ∷ abs) h = elim (Bool-cases (c == sep)) [
  | inl e ↦ rw e (skips rel, inl (omega arith))
  | inr e ↦ elim (Bool-cases (ltb (suc (length abs)) (size - 1))) [
    | inl room ↦ rw (e, room) (skips rel, inl (ground arith))
    | inr full ↦ rw (e, full) tt
  ]
]
  where
    skips : (r : List ℕ) → length (skip_one r) ≤ length r
    skips [] = omega arith
    skips (c ∷ r) = ground arith

prefix-Begins :
    (size : ℕ) (beyond : ℕ → ℕ) (dir rel : List ℕ)
    → 3 ≤ size
    → 0 < length rel
    → length dir < size
    → Begins size rel (handle_path_prefix size beyond dir rel)
unfolding handle_path_prefix
prefix-Begins size beyond dir rel z some_byte h =
    elim (Bool-cases (starts_with beyond rel b'~' sep)) [
      | inl home ↦ rw home (volume-Begins size beyond dir rel (volume_end dir) some_byte home)
      | inr away ↦ elim (Bool-cases (starts_with beyond rel sep sep)) [
        | inl root ↦ elim (Bool-cases (byte_at beyond rel 2 == sep)) [
          | inl third ↦ rw (away, root, third) tt
          | inr two ↦ rw (away, root, two) (length-drop-le 2 rel, inl (omega arith))
        ]
        | inr local ↦
            rw (away, local)
              (closed-Begins size rel (reverse dir) (omega (arith, length-reverse dir)))
      ]
    ]

starts_with-Ends :
    (size : ℕ) (rel : List ℕ) (p : Prefix)
    → 0 < size
    → Begins size rel p
    → Ends size (elim p [
      | no_prefix e ↦ some (refused e)
      | prefix abs rest ↦ convert_from size (suc (length rel)) rest abs
    ])
starts_with-Ends size rel (no_prefix e) z b = tt
starts_with-Ends size rel (prefix abs rest) z b =
    convert_from-Ends size (suc (length rel)) rest abs z (omega (arith, b.0)) b.1

-- The conversion of a relative path into a buffer of three characters or more always ends, with a
-- path that leaves room for its NUL in the buffer, or with an error.
pub convert_relative_to_absolute-Ends :
    (size : ℕ) (beyond : ℕ → ℕ) (current_dir : FileName) (rel : List ℕ)
    → 3 ≤ size
    → Ends size (convert_relative_to_absolute size beyond current_dir rel)
unfolding convert_relative_to_absolute
convert_relative_to_absolute-Ends size beyond dir rel z = elim (Bool-cases (length rel == 0)) [
  | inl a ↦ rw a tt
  | inr a ↦ elim (Bool-cases (not (validate_path_chars rel))) [
    | inl b ↦ rw (a, b) tt
    | inr b ↦ elim (Bool-cases (leb size (length dir))) [
      | inl c ↦ rw (a, b, c) tt
      | inr c ↦ elim (Bool-cases (length dir == 0)) [
        | inl d ↦ rw (a, b, c, d) tt
        | inr d ↦
            rw (a, b, c, d)
              (starts_with-Ends size rel (handle_path_prefix size beyond dir rel) (omega arith)
                (prefix-Begins size beyond dir rel z (ground arith) (ground arith)))
      ]
    ]
  ]
]
