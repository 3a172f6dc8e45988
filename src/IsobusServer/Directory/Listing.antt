-- ===== src/IsobusServer/Directory/Listing.antt =====
-- What a client of isobusfs/isobusfs_srv_fa.c is to find in the listing of a directory, by the layout
-- of an entry in ISO 11783-13.
use mathlib.Core.Option
use can_utils.Base.{
  ℕ, zero, suc, ◌+◌, ◌-◌, ◌*◌, ◌/◌, ◌%◌, ◌^◌, List, [], ◌∷◌, ◌++◌, Bool, ◌&&◌, ltb, if◌then◌else◌,
  Option, none, some, ◌>>=◌, length, take, drop,
}
use can_utils.IsobusServer.Handles.{FileName}
use can_utils.IsobusServer.Directory.{Stat, System}
use can_utils.IsobusServer.Directory.Dates.{date_of, time_of}

-- An entry as a client reads it: year from 1980, month and day; hours, minutes and half seconds.
pub record Listing : Type 0 where
  pub name : FileName
  pub attrs : ℕ
  pub date : ℕ × ℕ × ℕ
  pub time : ℕ × ℕ × ℕ
  pub size : ℕ

-- The bytes behind a name, by the layout.
abbrev pub fields : FileName → List ℕ → Option (Listing × List ℕ)
fields name (a ∷ d0 ∷ d1 ∷ t0 ∷ t1 ∷ s0 ∷ s1 ∷ s2 ∷ s3 ∷ rest) =
    let d = d0 + d1 * 256 in
    let t = t0 + t1 * 256 in
    some (
      record {
        name = name;
        attrs = a;
        date = (d / 512, d / 32 % 16, d % 32);
        time = (t / 2048, t / 32 % 64, t % 32);
        size = s0 + s1 * 2 ^ 8 + s2 * 2 ^ 16 + s3 * 2 ^ 24;
      },
      rest,
    )
fields name bytes = none

-- A client's reading of a listing, on fuel.
unfoldable pub decode : ℕ → List ℕ → Option (List Listing)
decode zero bytes = none
decode (suc f) [] = some []
decode (suc f) (n ∷ bytes) = do
  (l, rest) ← fields (take n bytes) (drop n bytes)
  ls ← decode f rest
  some (l ∷ ls)

-- The server may read (4) or write (2) an entry whose path fits its buffer.
abbrev pub permits : System → FileName → FileName → ℕ → Bool
permits sys base name mode =
    ltb (length base + length name + 1) 4096 && sys.access (base ++ b'/' ∷ name) mode

-- What there is to say of an entry.
abbrev pub said : System → FileName → FileName → Stat → Listing
said sys base name st = record {
  name = name;
  attrs = (if st.is_dir then 16 else 0) + (if permits sys base name 2 then 0 else 1);
  date = date_of (sys.localtime st.mtime);
  time = time_of (sys.localtime st.mtime);
  size = st.size % 2 ^ 32;
}

-- An entry is listed if it can be read, has a status, and has a name of at most 255 characters.
abbrev pub entry : System → FileName → FileName → Option Listing
entry sys base name =
    if permits sys base name 4
    then (if ltb 255 (length name)
        then none
        else Option.map (said sys base name) (sys.fstatat name))
    else none

abbrev pub entries : System → FileName → List FileName → List Listing
entries sys base [] = []
entries sys base (name ∷ names) = elim (entry sys base name) [
  | none ↦ entries sys base names
  | some l ↦ l ∷ entries sys base names
]

abbrev pub entry_size : Listing → ℕ
entry_size l = length l.name + 10

-- The first entries that fit into the room.
abbrev pub fitting : ℕ → List Listing → List Listing
fitting room [] = []
fitting room (l ∷ ls) =
    let rest = fitting (room - entry_size l) ls in if ltb room (entry_size l) then [] else l ∷ rest
