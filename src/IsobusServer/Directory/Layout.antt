-- ===== src/IsobusServer/Directory/Layout.antt =====
-- The listing of isobusfs/isobusfs_srv_fa.c against what a client is to find in it.
use mathlib.Core.Option
use can_utils.Base.{
  ℕ, suc, ◌+◌, ◌≤◌, ◌≡◌, refl, ap, sym, ◌∙◌, List, [], ◌∷◌, Bool, true, false, ltb, if◌then◌else◌,
  some, length, drop, not, bit_or, arith, Bool-cases, inl, inr, Option-cases, length-append,
}
use can_utils.Base.Int.{ℤ, pos, negsuc, pos_part}
use can_utils.IsobusServer.Handles.{FileName}
use can_utils.IsobusServer.Directory.{
  Stat, System, listed_stat, attributes, seek_entries, read_directory, check_access_with_base,
  attr_directory, attr_read_only,
}
use can_utils.IsobusServer.Directory.Listing.{
  Listing, decode, said, permits, entry, entries, fitting,
}
use can_utils.IsobusServer.Directory.Dates.{IsTime}
use can_utils.IsobusServer.Directory.Bytes.{
  listing, listings, length-list_entries, decode-list_entries,
}

check_access-permits :
    (sys : System) (base name : FileName) (mode : ℕ)
    → check_access_with_base sys base name mode ≡ permits sys base name mode
unfolding check_access_with_base
check_access-permits sys base name mode =
    ground (arith, length-append {0} {A = ℕ} base (b'/' ∷ name))

listing-said :
    (sys : System) (base name : FileName) (st : Stat)
    → listing sys base name st ≡ said sys base name st
unfolding attributes
listing-said sys base name st =
    ap (λ (a : ℕ). record (said sys base name st) { attrs = a })
      (rw (check_access-permits sys base name 2) (both st.is_dir (permits sys base name 2)))
  where
    both :
        (d w : Bool)
        → (if not w
            then bit_or (if d then attr_directory else 0) attr_read_only
            else if d
            then attr_directory
            else 0)
          ≡ (if d then 16 else 0) + (if w then 0 else 1)
    both true true = refl
    both true false = refl
    both false true = refl
    both false false = refl

listed_stat-entry :
    (sys : System) (base name : FileName)
    → Option.map (listing sys base name) (listed_stat sys base name) ≡ entry sys base name
unfolding listed_stat
listed_stat-entry sys base name =
    rw (check_access-permits sys base name 4) (elim (Bool-cases (permits sys base name 4)) [
      | inr denied ↦ rw denied refl
      | inl ok ↦ rw ok (elim (Option-cases (sys.fstatat name)) [
        | inl gone ↦
            rw gone (elim (Bool-cases (ltb 255 (length name))) [ inl e ↦ rw e | inr e ↦ rw e ])
        | inr (st, e) ↦ rw e (elim (Bool-cases (ltb 255 (length name))) [
          | inl long ↦ rw long refl
          | inr short ↦ rw short (ap some (listing-said sys base name st))
        ])
      ])
    ])

listings-entries :
    (sys : System) (base : FileName) (names : List FileName)
    → listings sys base names ≡ entries sys base names
listings-entries sys base [] = refl
listings-entries sys base (name ∷ names) =
    let rest = listings-entries sys base names in
    elim (Option-cases (listed_stat sys base name)) [
      | inl e ↦
          let f =
            ap (Option.map (listing sys base name)) (sym e) ∙ listed_stat-entry sys base name in
          rw (e, listings) (rw (← f, entries) rest)
      | inr (st, e) ↦
          let f =
            ap (Option.map (listing sys base name)) (sym e) ∙ listed_stat-entry sys base name in
          rw (e, listings) (rw (← f, entries) (ap (◌∷◌ (listing sys base name st)) rest))
    ]

seek_entries-drop : (z : ℤ) (names : List FileName) → seek_entries z names ≡ drop (pos_part z) names
seek_entries-drop (pos n) names = refl
seek_entries-drop (negsuc n) names = refl

-- The listing of a directory is not longer than the count asked for, and a client that reads it by
-- the layout of the standard gets, from the stored position on, or the start if that is negative, as
-- many entries as fit of those that the server may read, that fstatat knows and that have a name of
-- at most 255 characters: the name, the attributes, which are 0x10 for a directory and 0x1 where the
-- server may not write, the date and the time of the last change, each of them 0 where it cannot be
-- given, and the size modulo 2^32. An entry may be read or written if its path has less than 4096
-- characters and `access` allows it. It is assumed that localtime gives a date and a time of day.
pub decode-read_directory :
    (sys : System) (base : FileName) (dir_pos : ℤ) (count : ℕ) (names : List FileName)
    → ((t : ℤ) → IsTime (sys.localtime t))
    → let bytes = read_directory sys base dir_pos count names in
      (length bytes ≤ count)
      × (decode (suc (length bytes)) bytes
          ≡ some (fitting count (entries sys base (drop (pos_part dir_pos) names))))
unfolding read_directory
decode-read_directory sys base dir_pos count names h = (
  length-list_entries sys base count (seek_entries dir_pos names),
  decode-list_entries sys base _ count (seek_entries dir_pos names) h (omega arith)
      ∙ ap (λ (ls : List Listing). some (fitting count ls))
          (listings-entries sys base (seek_entries dir_pos names)
            ∙ ap (entries sys base) (seek_entries-drop dir_pos names)),
)
