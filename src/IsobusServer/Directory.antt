-- ===== src/IsobusServer/Directory.antt =====
-- The listing of a directory in isobusfs/isobusfs_srv_fa.c. What readdir, access, fstatat and
-- localtime answer is a parameter.
pub mod Dates
pub mod Listing
pub mod Bytes
pub mod Layout
use can_utils.Base.{
  ℕ, suc, ◌+◌, ◌-◌, ◌*◌, ◌/◌, ◌%◌, ◌^◌, List, [], ◌∷◌, ◌++◌, Bool, true, false, not, ◌==◌, ltb, leb,
  if◌then◌else◌, bit_or, Option, none, some, length, drop,
}
use can_utils.Base.Int.{ℤ, pos, negsuc}
use can_utils.IsobusServer.Handles.{FileName}
use can_utils.IsobusServer.Paths.{max_path_len}

-- The fields of `struct tm` that the server reads.
pub record Tm : Type 0 where
  pub tm_year : ℤ
  pub tm_mon : ℕ
  pub tm_mday : ℕ
  pub tm_hour : ℕ
  pub tm_min : ℕ
  pub tm_sec : ℕ

pub record Stat : Type 0 where
  pub is_dir : Bool
  pub mtime : ℤ
  pub size : ℕ

-- `access` tells whether the call returns 0, for R_OK and W_OK.
pub record System : Type 0 where
  pub access : FileName → ℕ → Bool
  pub fstatat : FileName → Option Stat
  pub localtime : ℤ → Option Tm

abbrev pub r_ok : ℕ
r_ok = 4

abbrev pub w_ok : ℕ
w_ok = 2

-- `year`, if it is in range.
abbrev pub file_year : ℤ → Option ℕ
file_year (pos n) = if ltb n 80 then none else if ltb 127 (n - 80) then none else some (n - 80)
file_year (negsuc n) = none

abbrev pub date_word : ℕ → ℕ → ℕ → ℕ
date_word year month day = bit_or (bit_or (year * 2 ^ 9) (month * 2 ^ 5)) day % 2 ^ 16

abbrev pub time_word : ℕ → ℕ → ℕ → ℕ
time_word hours minutes seconds =
    bit_or (bit_or (hours * 2 ^ 11) (minutes * 2 ^ 5)) seconds % 2 ^ 16

unfoldable pub convert_to_file_date : Option Tm → ℕ
convert_to_file_date none = 0
convert_to_file_date (some t) = elim (file_year t.tm_year) [
  | none ↦ 0
  | some year ↦ date_word year (t.tm_mon + 1) t.tm_mday
]

unfoldable pub convert_to_file_time : Option Tm → ℕ
convert_to_file_time none = 0
convert_to_file_time (some t) = time_word t.tm_hour t.tm_min (t.tm_sec / 2)

unfoldable pub check_access_with_base : System → FileName → FileName → ℕ → Bool
check_access_with_base sys base name mode =
    let full_path = base ++ b'/' ∷ name in
    if leb max_path_len (length full_path) then false else sys.access full_path mode

abbrev pub max_dir_entry_name_length : ℕ
max_dir_entry_name_length = 255

abbrev pub attr_directory : ℕ
attr_directory = 0x10

abbrev pub attr_read_only : ℕ
attr_read_only = 0x1

-- What the loop does not skip.
unfoldable pub listed_stat : System → FileName → FileName → Option Stat
listed_stat sys base name =
    if not (check_access_with_base sys base name r_ok) then none else elim (sys.fstatat name) [
      | none ↦ none
      | some st ↦ if ltb max_dir_entry_name_length (length name) then none else some st
    ]

unfoldable pub attributes : System → FileName → FileName → Stat → ℕ
attributes sys base name st =
    let a : ℕ = if st.is_dir then attr_directory else 0 in
    if not (check_access_with_base sys base name w_ok) then bit_or a attr_read_only else a

abbrev pub le16 : ℕ → List ℕ → List ℕ
le16 x rest = x % 256 ∷ x / 256 % 256 ∷ rest

abbrev pub le32 : ℕ → List ℕ → List ℕ
le32 x rest = x % 256 ∷ x / 2 ^ 8 % 256 ∷ x / 2 ^ 16 % 256 ∷ x / 2 ^ 24 % 256 ∷ rest

-- The bytes of an entry, and those that follow.
unfoldable pub put_entry : System → FileName → FileName → Stat → List ℕ → List ℕ
put_entry sys base name st rest =
    length name % 256 ∷ name
    ++ attributes sys base name st
      ∷ le16 (convert_to_file_date (sys.localtime st.mtime))
          (le16 (convert_to_file_time (sys.localtime st.mtime)) (le32 st.size rest))

-- The loop over what is left of the stream; `room` is `count - pos`.
unfoldable pub list_entries : System → FileName → ℕ → List FileName → List ℕ
list_entries sys base room [] = []
list_entries sys base room (name ∷ names) = elim (listed_stat sys base name) [
  | none ↦ list_entries sys base room names
  | some st ↦ elim (ltb room (1 + length name + 1 + 2 + 2 + 4)) [
    | true ↦ []
    | false ↦
        put_entry sys base name st
          (list_entries sys base (room - (1 + length name + 1 + 2 + 2 + 4)) names)
  ]
]

-- The entries before `dir_pos` are passed over.
abbrev pub seek_entries : ℤ → List FileName → List FileName
seek_entries (pos n) names = drop n names
seek_entries (negsuc n) names = names

-- The bytes in the buffer, whose number is `*readed_size`.
unfoldable pub read_directory : System → FileName → ℤ → ℕ → List FileName → List ℕ
read_directory sys base dir_pos count names =
    list_entries sys base count (seek_entries dir_pos names)
