-- ===== src/IsobusServer/Paths.antt =====
-- Paths of isobusfs/isobusfs_srv_dh.c. A path is the list of its characters before the NUL. What
-- stands behind `rel_path_pos` of a relative path is a list too, and `abs_path` is the list of what
-- it holds before `abs_path_pos`, the last character first.
pub mod Bounds
pub mod Termination
pub mod Normal
pub mod Names
pub mod Resolve
use can_utils.Base.{
  ℕ, zero, suc, ◌+◌, ◌-◌, List, [], ◌∷◌, ◌++◌, map, Bool, true, false, not, ◌&&◌, ◌||◌, ◌==◌, ltb,
  leb, if◌then◌else◌, Option, none, some, length, take, drop,
}
use can_utils.Base.Int.{ℤ, pos, negsuc}
use can_utils.IsobusServer.Handles.{FileName, same_name}
use mathlib.Core.List.{reverse}

abbrev pub sep : ℕ
sep = 0x5C

-- A path, or an errno whose negative the function returns.
pub data Converted : Type 0 where
  converted : FileName → Converted
  refused : ℕ → Converted

abbrev pub enodev : ℕ
enodev = 19

abbrev pub einval : ℕ
einval = 22

abbrev pub enomem : ℕ
enomem = 12

-- A `char` as a `wchar_t`, both of them signed.
abbrev pub wide : ℕ → ℤ
wide b = if ltb b 0x80 then pos b else negsuc (0xFF - b)

abbrev pub is_forbidden_char : ℤ → Bool
is_forbidden_char (pos n) =
    leb n 0x1F
    || (leb 0x7F n && leb n 0x9F)
    || n == b'*'
    || n == b'?'
    || n == b'/'
    || n == b'<'
    || n == b'>'
    || n == b'|'
is_forbidden_char (negsuc n) = false

unfoldable pub validate_path_chars : List ℕ → Bool
validate_path_chars [] = true
validate_path_chars (c ∷ cs) = not (is_forbidden_char (wide c)) && validate_path_chars cs

unfoldable pub segment_length : List ℕ → ℕ
segment_length [] = 0
segment_length (c ∷ cs) = let rest = suc (segment_length cs) in if c == sep then 0 else rest

-- The index of the end of the volume's name.
abbrev pub volume_end : List ℕ → Option ℕ
volume_end (a ∷ b ∷ c ∷ cs) =
    if a == sep && b == sep && not (c == 0) then some (segment_length (c ∷ cs) + 2) else none
volume_end cs = none

pub record Volume : Type 0 where
  pub name : FileName
  pub root : FileName

unfoldable pub find_volume : FileName → List Volume → Option Volume
find_volume n [] = none
find_volume n (v ∷ vs) = let rest = find_volume n vs in if same_name v.name n then some v else rest

abbrev pub max_path_len : ℕ
max_path_len = 4096

-- strncat with the room that is left.
abbrev pub cat : FileName → FileName → FileName
cat p q = p ++ take (max_path_len - length p - 1) q

abbrev pub to_slash : ℕ → ℕ
to_slash c = if c == sep then b'/' else c

abbrev pub is_mfs : List ℕ → Bool
is_mfs (a ∷ b ∷ c ∷ cs) = a == sep && b == b'~' && c == sep
is_mfs cs = false

unfoldable pub linux_path : FileName → FileName → List ℕ → FileName
linux_path mfs_dir root rest =
    let base = take (max_path_len - 1) root in
    let here : FileName = elim rest [ [] ↦ cat base (b'/' ∷ []) | c ∷ cs ↦ base ] in
    if is_mfs rest
    then take (max_path_len - 1) (cat (cat here (b'/' ∷ [])) mfs_dir ++ map to_slash (drop 2 rest))
    else take (max_path_len - 1) (here ++ map to_slash rest)

abbrev pub on_volume : FileName → List ℕ → Option Volume → Converted
on_volume mfs_dir rest none = refused enodev
on_volume mfs_dir rest (some v) = converted (linux_path mfs_dir v.root rest)

unfoldable pub path_to_linux_path : List Volume → FileName → FileName → Converted
path_to_linux_path volumes mfs_dir path = elim (volume_end path) [
  | none ↦ refused einval
  | some e ↦ on_volume mfs_dir (drop e path) (find_volume (take (e - 2) (drop 2 path)) volumes)
]

-- Tests of the character `k` places on: out of the buffer or a backslash, and the NUL.
abbrev pub head_is : ℕ → Bool → List ℕ → Bool
head_is c end [] = end
head_is c end (x ∷ xs) = x == c

abbrev pub is_end_or_backslash : ℕ → List ℕ → Bool
is_end_or_backslash k rel = head_is sep true (drop k rel)

abbrev pub is_nul : ℕ → List ℕ → Bool
is_nul k rel = head_is 0 false (drop k rel)

abbrev pub is_dot : ℕ → List ℕ → Bool
is_dot k rel = head_is b'.' false (drop k rel)

unfoldable pub is_dot_directive : List ℕ → Bool
is_dot_directive rel =
    is_dot 0 rel
    && ((is_end_or_backslash 1 rel || is_nul 1 rel)
        || (is_dot 1 rel && (is_end_or_backslash 2 rel || is_nul 2 rel)))

abbrev pub handle_single_dot : List ℕ → Option (List ℕ)
handle_single_dot rel =
    if is_end_or_backslash 1 rel
    then some (drop 2 rel)
    else if is_nul 1 rel
    then some (drop 1 rel)
    else none

unfoldable pub climb : List ℕ → List ℕ
climb [] = []
climb (c ∷ abs) =
    let rest = climb abs in if ltb 2 (suc (length abs)) && not (c == sep) then rest else c ∷ abs

unfoldable pub parent : List ℕ → List ℕ
parent [] = []
parent (c ∷ abs) = climb (if ltb 2 (suc (length abs)) && c == sep then abs else c ∷ abs)

abbrev pub handle_double_dots : List ℕ → List ℕ
handle_double_dots rel =
    if is_end_or_backslash 2 rel then drop 3 rel else if is_nul 2 rel then drop 2 rel else rel

unfoldable pub skip_separators : List ℕ → List ℕ
skip_separators [] = []
skip_separators (c ∷ rel) = let rest = skip_separators rel in if c == sep then rest else c ∷ rel

-- What is left of the relative path, and the absolute path.
abbrev pub Split : Type 0
Split = List ℕ × List ℕ

unfoldable pub handle_dot_directive : List ℕ → List ℕ → Split
handle_dot_directive rel abs = elim (handle_single_dot rel) [
  | some rest ↦ (skip_separators rest, abs)
  | none ↦
      if is_dot 1 rel
      then (skip_separators (handle_double_dots rel), parent abs)
      else (skip_separators rel, abs)
]

-- The loop of a segment: -ENOMEM is `none`.
unfoldable pub copy_segment : ℕ → List ℕ → List ℕ → Option Split
copy_segment size [] abs = some ([], abs)
copy_segment size (c ∷ rel) abs =
    let rest = copy_segment size rel (c ∷ abs) in
    if c == 0 || c == sep
    then some (c ∷ rel, abs)
    else if leb (size - 1) (length abs)
    then none
    else rest

abbrev pub end_segment : ℕ → Split → Split
end_segment size ([], abs) = ([], abs)
end_segment size (c ∷ rel, abs) =
    if c == sep
    then (rel, if ltb (length abs) (size - 1) then sep ∷ abs else abs)
    else (c ∷ rel, abs)

unfoldable pub process_path_segment : ℕ → List ℕ → List ℕ → Option Split
process_path_segment size [] abs = some ([], abs)
process_path_segment size (c ∷ rel) abs = elim (copy_segment size rel (c ∷ abs)) [
  | none ↦ none
  | some r ↦ some (end_segment size r)
]

unfoldable pub handle_relative_path : ℕ → List ℕ → List ℕ → Option Split
handle_relative_path size rel abs =
    if leb (size - 1) (length abs)
    then none
    else if is_dot_directive rel
    then some (handle_dot_directive rel abs)
    else process_path_segment size rel abs

-- The loop over the segments, on fuel; `none` means that it ran out.
unfoldable pub convert_from : ℕ → ℕ → List ℕ → List ℕ → Option Converted
convert_from size zero rel abs = none
convert_from size (suc f) [] abs = some (converted (reverse abs))
convert_from size (suc f) (c ∷ rel) abs = elim (c == 0) [
  | true ↦ some (converted (reverse abs))
  | false ↦ elim (handle_relative_path size (c ∷ rel) abs) [
    | none ↦ some (refused enomem)
    | some (rest, abs') ↦ convert_from size f rest abs'
  ]
]

-- The byte `k` places on in the message; `beyond` is what follows the relative path there.
abbrev pub byte_at : (ℕ → ℕ) → List ℕ → ℕ → ℕ
byte_at beyond [] k = beyond k
byte_at beyond (c ∷ rel) zero = c
byte_at beyond (c ∷ rel) (suc k) = byte_at beyond rel k

-- The comparison of two bytes, of which the second may follow the relative path.
abbrev pub starts_with : (ℕ → ℕ) → List ℕ → ℕ → ℕ → Bool
starts_with beyond rel c d = byte_at beyond rel 0 == c && byte_at beyond rel 1 == d

-- The start of the absolute path, reversed, and what is left of the relative one.
pub data Prefix : Type 0 where
  prefix : List ℕ → List ℕ → Prefix
  no_prefix : ℕ → Prefix

abbrev pub from_volume : FileName → List ℕ → Option ℕ → Prefix
from_volume current_dir rel none = no_prefix einval
from_volume current_dir rel (some e) = prefix (sep ∷ reverse (take e current_dir)) rel

abbrev pub closed_dir : ℕ → List ℕ → Option (List ℕ)
closed_dir size [] = some []
closed_dir size (c ∷ dir) =
    if c == sep
    then some (c ∷ dir)
    else if ltb (suc (length dir)) (size - 1)
    then some (sep ∷ c ∷ dir)
    else none

abbrev pub skip_one : List ℕ → List ℕ
skip_one [] = []
skip_one (c ∷ rel) = if c == sep then rel else c ∷ rel

unfoldable pub handle_path_prefix : ℕ → (ℕ → ℕ) → FileName → List ℕ → Prefix
handle_path_prefix size beyond current_dir rel =
    if starts_with beyond rel b'~' sep
    then from_volume current_dir rel (volume_end current_dir)
    else if starts_with beyond rel sep sep
    then (if byte_at beyond rel 2 == sep
        then no_prefix einval
        else prefix (sep ∷ sep ∷ []) (drop 2 rel))
    else elim (closed_dir size (reverse current_dir)) [
      | none ↦ no_prefix enomem
      | some abs ↦ prefix abs (skip_one rel)
    ]

unfoldable pub convert_relative_to_absolute : ℕ → (ℕ → ℕ) → FileName → List ℕ → Option Converted
convert_relative_to_absolute size beyond current_dir rel =
    if length rel == 0
    then some (refused einval)
    else if not (validate_path_chars rel)
    then some (refused einval)
    else if leb size (length current_dir)
    then some (refused enomem)
    else if length current_dir == 0
    then some (refused einval)
    else elim (handle_path_prefix size beyond current_dir rel) [
      | no_prefix e ↦ some (refused e)
      | prefix abs rest ↦ convert_from size (suc (length rel)) rest abs
    ]
