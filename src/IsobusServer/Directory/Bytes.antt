-- ===== src/IsobusServer/Directory/Bytes.antt =====
-- The bytes of a listing of isobusfs/isobusfs_srv_fa.c, read back by the layout of an entry.
use can_utils.Base.{
  ℕ, zero, suc, ◌+◌, ◌-◌, ◌*◌, ◌/◌, ◌%◌, ◌^◌, ◌≤◌, ◌<◌, ◌≡◌, refl, ap, sym, ◌∙◌, subst, List, [],
  ◌∷◌, ◌++◌, Bool, true, false, ltb, Option, none, some, length, take, drop, arith, Bool-cases, inl,
  inr, Option-cases, length-append,
}
use can_utils.Base.Int.{ℤ}
use can_utils.IsobusServer.Handles.{FileName}
use can_utils.IsobusServer.Directory.{
  Stat, System, convert_to_file_date, convert_to_file_time, listed_stat, attributes, le16, le32,
  put_entry, list_entries,
}
use can_utils.IsobusServer.Directory.Listing.{Listing, fields, decode, said, entry_size, fitting}
use can_utils.IsobusServer.Directory.Dates.{IsTime, file_date-Dated, file_time-Timed}

-- What the loop writes, and for which entries.
abbrev pub listing : System → FileName → FileName → Stat → Listing
listing sys base name st = record (said sys base name st) { attrs = attributes sys base name st }

abbrev pub listings : System → FileName → List FileName → List Listing
listings sys base [] = []
listings sys base (name ∷ names) = elim (listed_stat sys base name) [
  | none ↦ listings sys base names
  | some st ↦ listing sys base name st ∷ listings sys base names
]

take-append : (xs ys : List ℕ) → take (length xs) (xs ++ ys) ≡ xs
take-append [] ys = refl
take-append (x ∷ xs) ys = ap (◌∷◌ x) (take-append xs ys)

drop-append : (xs ys : List ℕ) → drop (length xs) (xs ++ ys) ≡ ys
drop-append [] ys = refl
drop-append (x ∷ xs) ys = drop-append xs ys

length-put_entry :
    (sys : System) (base name : FileName) (st : Stat) (rest : List ℕ)
    → length (put_entry sys base name st rest) ≡ length name + 10 + length rest
unfolding put_entry
length-put_entry sys base name st rest = omega (arith, length-append {0} {A = ℕ} name)

-- The listing keeps to the room.
pub length-list_entries :
    (sys : System) (base : FileName) (room : ℕ) (names : List FileName)
    → length (list_entries sys base room names) ≤ room
unfolding list_entries
length-list_entries sys base room [] = omega arith
length-list_entries sys base room (name ∷ names) =
    stat (listed_stat sys base name) (length-list_entries sys base room names)
      (length-list_entries sys base (room - (1 + length name + 1 + 2 + 2 + 4)) names)
  where
    fit :
        (st : Stat) (b : Bool) (rest : List ℕ)
        → ltb room (1 + length name + 1 + 2 + 2 + 4) ≡ b
        → length rest ≤ room - (1 + length name + 1 + 2 + 2 + 4)
        → length (elim b [ true ↦ [] | false ↦ put_entry sys base name st rest ]) ≤ room
    fit st true rest e h = omega arith
    fit st false rest e h = ground (arith, length-put_entry sys base name st rest)

    stat :
        (o : Option Stat)
        → length (list_entries sys base room names) ≤ room
        → length (list_entries sys base (room - (1 + length name + 1 + 2 + 2 + 4)) names)
          ≤ room - (1 + length name + 1 + 2 + 2 + 4)
        → length (elim o [
          | none ↦ list_entries sys base room names
          | some st ↦ elim (ltb room (1 + length name + 1 + 2 + 2 + 4)) [
            | true ↦ []
            | false ↦
                put_entry sys base name st
                  (list_entries sys base (room - (1 + length name + 1 + 2 + 2 + 4)) names)
          ]
        ])
          ≤ room
    stat none h k = h
    stat (some st) h k = fit st (ltb room (1 + length name + 1 + 2 + 2 + 4)) _ refl k

Tm-word : (w : ℕ) → w < 2 ^ 16 → w % 256 + w / 256 % 256 * 256 ≡ w
Tm-word w h = omega arith

size_bytes :
    (x : ℕ)
    → x % 256 + x / 2 ^ 8 % 256 * 2 ^ 8 + x / 2 ^ 16 % 256 * 2 ^ 16 + x / 2 ^ 24 % 256 * 2 ^ 24
      ≡ x % 2 ^ 32
size_bytes x = omega arith

-- The bytes of one entry, read back.
fields-put_entry :
    (sys : System) (base name : FileName) (st : Stat) (rest : List ℕ)
    → IsTime (sys.localtime st.mtime)
    → fields name (
        attributes sys base name st
        ∷ le16
            (convert_to_file_date (sys.localtime st.mtime))
            (le16 (convert_to_file_time (sys.localtime st.mtime)) (le32 st.size rest)))
      ≡ some (listing sys base name st, rest)
fields-put_entry sys base name st rest h =
    let d = file_date-Dated (sys.localtime st.mtime) h in
    let t = file_time-Timed (sys.localtime st.mtime) h in
    rw (
      Tm-word (convert_to_file_date (sys.localtime st.mtime)) d.0,
      Tm-word (convert_to_file_time (sys.localtime st.mtime)) t.0,
      size_bytes st.size,
      d.1,
      d.2,
      d.3,
      t.1,
      t.2,
      t.3,
    )

decode-step :
    (f n : ℕ) (bytes : List ℕ) (l : Listing) (rest : List ℕ) (ls : List Listing)
    → fields (take n bytes) (drop n bytes) ≡ some (l, rest)
    → decode f rest ≡ some ls
    → decode (suc f) (n ∷ bytes) ≡ some (l ∷ ls)
unfolding decode
decode-step f n bytes l rest ls h e = rw h (rw e)

decode-put_entry :
    (sys : System) (base name : FileName) (st : Stat) (f : ℕ) (rest : List ℕ) (ls : List Listing)
    → IsTime (sys.localtime st.mtime)
    → length name ≤ 255
    → decode f rest ≡ some ls
    → decode (suc f) (put_entry sys base name st rest) ≡ some (listing sys base name st ∷ ls)
unfolding put_entry
decode-put_entry sys base name st f rest ls h short e =
    let n : length name % 256 ≡ length name = omega arith in
    decode-step f (length name % 256) _ (listing sys base name st) rest ls
      (rw (n, take-append name, drop-append name) (fields-put_entry sys base name st rest h)) e

listed_short :
    (sys : System) (base name : FileName) (st : Stat)
    → listed_stat sys base name ≡ some st
    → length name ≤ 255
unfolding listed_stat
listed_short sys base name st e = ground arith

module _ (sys : System) (base : FileName) (room : ℕ) (name : FileName) (names : List FileName) where
  list-skipped :
      listed_stat sys base name ≡ none
      → list_entries sys base room (name ∷ names) ≡ list_entries sys base room names
  unfolding list_entries
  list-skipped e = rw (e, list_entries)

  list-full :
      (st : Stat)
      → listed_stat sys base name ≡ some st
      → ltb room (1 + length name + 1 + 2 + 2 + 4) ≡ true
      → list_entries sys base room (name ∷ names) ≡ []
  unfolding list_entries
  list-full st e h = rw (e, list_entries) (rw h)

  list-put :
      (st : Stat)
      → listed_stat sys base name ≡ some st
      → ltb room (1 + length name + 1 + 2 + 2 + 4) ≡ false
      → list_entries sys base room (name ∷ names)
        ≡ put_entry sys base name st
            (list_entries sys base (room - (1 + length name + 1 + 2 + 2 + 4)) names)
  unfolding list_entries
  list-put st e h = rw (e, list_entries) (rw h)

pub decode-list_entries :
    (sys : System) (base : FileName) (f room : ℕ) (names : List FileName)
    → ((t : ℤ) → IsTime (sys.localtime t))
    → length (list_entries sys base room names) < f
    → decode f (list_entries sys base room names) ≡ some (fitting room (listings sys base names))
unfolding list_entries decode
decode-list_entries sys base zero room names h l = absurd (omega arith)
decode-list_entries sys base (suc f) room [] h l = refl
decode-list_entries sys base (suc f) room (name ∷ names) h l =
    let k : ℕ = 1 + length name + 1 + 2 + 2 + 4 in
    let rest = decode-list_entries sys base f (room - k) names h in
    let same = decode-list_entries sys base (suc f) room names h in
    elim (Option-cases (listed_stat sys base name)) [
      | inl e ↦
          let le = list-skipped sys base room name names e in
          ap (decode (suc f)) le
          ∙ same (subst (λ (b : List ℕ). length b < suc f) le l)
          ∙ ap (λ (ls : List Listing). some (fitting room ls)) (sym (listings-skipped e))
      | inr (st, e) ↦ elim (Bool-cases (ltb room k)) [
        | inl full ↦
            ap (decode (suc f)) (list-full sys base room name names st e full)
            ∙ ap some (
                sym (
                  ap (fitting room) (listings-put st e)
                  ∙ fitting-full (listing sys base name st) (ap (ltb room) total ∙ full)))
        | inr fits ↦
            let le = list-put sys base room name names st e fits in
            ap (decode (suc f)) le
            ∙ decode-put_entry sys base name st f (list_entries sys base (room - k) names) _
                (h st.mtime) (listed_short sys base name st e)
                (rest (
                  shorter st (list_entries sys base (room - k) names)
                    (subst (λ (b : List ℕ). length b < suc f) le l)))
            ∙ ap some (
                sym (
                  ap (fitting room) (listings-put st e)
                  ∙ fitting-put (listing sys base name st) (ap (ltb room) total ∙ fits)
                  ∙ ap
                      (λ (n : ℕ).
                        listing sys base name st ∷ fitting (room - n) (listings sys base names))
                      total))
      ]
    ]
  where
    total : length name + 10 ≡ 1 + length name + 1 + 2 + 2 + 4
    total = omega arith

    shorter :
        (st : Stat) (b : List ℕ) → length (put_entry sys base name st b) < suc f → length b < f
    shorter st b less = omega (arith, length-put_entry sys base name st b)

    listings-skipped :
        listed_stat sys base name ≡ none
        → listings sys base (name ∷ names) ≡ listings sys base names
    listings-skipped e = rw (e, listings)

    listings-put :
        (st : Stat)
        → listed_stat sys base name ≡ some st
        → listings sys base (name ∷ names) ≡ listing sys base name st ∷ listings sys base names
    listings-put st e = rw (e, listings)

    fitting-full :
        (x : Listing)
        → ltb room (entry_size x) ≡ true
        → fitting room (x ∷ listings sys base names) ≡ []
    fitting-full x e = rw e

    fitting-put :
        (x : Listing)
        → ltb room (entry_size x) ≡ false
        → fitting room (x ∷ listings sys base names)
          ≡ x ∷ fitting (room - entry_size x) (listings sys base names)
    fitting-put x e = rw e
