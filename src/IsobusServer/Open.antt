-- ===== src/IsobusServer/Open.antt =====
-- Opening and closing files in isobusfs/isobusfs_srv_fa.c. The file system's answers during a
-- request are a parameter of it.
pub mod Outcome
use can_utils.Base.{
  ℕ, zero, suc, ◌%◌, ◌^◌, List, [], ◌∷◌, Bool, true, false, ◌||◌, ◌==◌, if◌then◌else◌, bit_and,
  bit_or, is_set, Option, none, some,
}
use can_utils.Base.Int.{ℤ, pos, negsuc}
use can_utils.IsobusServer.Handles.{
  FileName, Server, Closing, close, closedir, Grant, granted, failed, overrun, handle_at,
  walk_handles, request_file, release_handle, remove_client_from_handles, start,
}
use can_utils.IsobusServer.Paths.{Volume, Converted, converted, refused, path_to_linux_path}

-- A descriptor or a stream, or the errno.
pub data Descriptor : Type 0 where
  got : ℕ → Descriptor
  denied : ℕ → Descriptor

pub data FileKind : Type 0 where
  regular directory special : FileKind

-- The answers of opendir, dirfd, open and fstat; `none` is a failure.
pub record FileSystem : Type 0 where
  pub opendir : FileName → Descriptor
  pub dirfd : ℕ → Option ℕ
  pub open_file : FileName → ℕ → Descriptor
  pub fstat : ℕ → Option FileKind

pub record Config : Type 0 where
  pub volumes : List Volume
  pub mfs_dir : FileName
  pub default_volume : FileName

-- The server, the `int` that the function returns, and `*handle`. A write behind the table leaves
-- nothing to say.
pub data Answer : Type 0 where
  answered : Server → ℤ → ℕ → Answer
  crashed : Answer

abbrev pub neg : ℕ → ℤ
neg zero = pos 0
neg (suc n) = negsuc n

abbrev pub err_access_denied : ℕ
err_access_denied = 1

abbrev pub err_invalid_access : ℕ
err_invalid_access = 2

abbrev pub err_too_many_files_open : ℕ
err_too_many_files_open = 3

abbrev pub err_file_orpath_not_found : ℕ
err_file_orpath_not_found = 4

abbrev pub err_out_of_mem : ℕ
err_out_of_mem = 43

abbrev pub err_other : ℕ
err_other = 44

abbrev pub opendir_error : ℕ → ℕ
opendir_error e =
    if e == 13
    then err_access_denied
    else if e == 2
    then err_file_orpath_not_found
    else if e == 12
    then err_out_of_mem
    else err_other

abbrev pub open_error : ℕ → ℕ
open_error e =
    if e == 13
    then err_access_denied
    else if e == 22
    then err_invalid_access
    else if e == 24 || e == 23
    then err_too_many_files_open
    else if e == 2
    then err_file_orpath_not_found
    else if e == 12
    then err_out_of_mem
    else err_other

abbrev pub also_closed : Closing → Server → Server
also_closed k s = record s { closed = k ∷ s.closed }

-- The end of both functions: a failed request closes what was opened.
abbrev pub requested : Closing → Server × Grant → Answer
requested k (s, granted i) = answered s (pos 0) (i % 2 ^ 8)
requested k (s, failed e) = answered (also_closed k s) e 0
requested k (s, overrun) = crashed

abbrev pub stat_directory : Server → ℕ → FileName → ℕ → ℕ → Option FileKind → Answer
stat_directory s c p d fd (some directory) = requested (closedir d) (request_file s c p fd (some d))
stat_directory s c p d fd (some regular) =
    answered (also_closed (closedir d) s) (pos err_invalid_access) 0
stat_directory s c p d fd (some special) =
    answered (also_closed (closedir d) s) (pos err_invalid_access) 0
stat_directory s c p d fd none = answered (also_closed (closedir d) s) (pos err_invalid_access) 0

abbrev pub stream_directory : FileSystem → Server → ℕ → FileName → Descriptor → Answer
stream_directory fs s c p (denied e) = answered s (pos (opendir_error e)) 0
stream_directory fs s c p (got d) = elim (fs.dirfd d) [
  | none ↦ answered (also_closed (closedir d) s) (pos err_other) 0
  | some fd ↦ stat_directory s c p d fd (fs.fstat fd)
]

unfoldable pub open_linux_directory : FileSystem → Server → ℕ → FileName → Answer
open_linux_directory fs s c p = elim (walk_handles p s.handles) [
  | some i ↦ answered s (pos err_other) 0
  | none ↦ stream_directory fs s c p (fs.opendir p)
]

unfoldable pub open_directory : Config → FileSystem → Server → ℕ → FileName → Answer
open_directory cfg fs s c path = elim (path_to_linux_path cfg.volumes cfg.mfs_dir path) [
  | refused e ↦ answered s (neg e) 0
  | converted p ↦ open_linux_directory fs s c p
]

abbrev pub o_trunc : ℕ
o_trunc = 0x200

abbrev pub o_append : ℕ
o_append = 0x400

-- ISOBUSFS_FA_OPEN_APPEND, and the access mode of ISOBUSFS_FA_OPEN_MASK.
abbrev pub open_append : ℕ
open_append = 0x8

abbrev pub open_mask : ℕ
open_mask = 0x3

abbrev pub access_flags : ℕ → ℕ → Option ℕ
access_flags flags mode =
    if mode == 0
    then some 0
    else if mode == 1
    then some 1
    else if mode == 2
    then some (if is_set (bit_and flags open_append) then 2 else bit_or 2 o_trunc)
    else none

abbrev pub append_flag : ℕ → ℕ → ℕ
append_flag flags o = if is_set (bit_and flags open_append) then bit_or o o_append else o

abbrev pub stat_file : Server → ℕ → FileName → ℕ → Option FileKind → Answer
stat_file s c p fd (some regular) = requested (close fd) (request_file s c p fd none)
stat_file s c p fd (some directory) = answered (also_closed (close fd) s) (pos err_invalid_access) 0
stat_file s c p fd (some special) = answered (also_closed (close fd) s) (pos err_invalid_access) 0
stat_file s c p fd none = answered (also_closed (close fd) s) (pos err_other) 0

abbrev pub new_file : FileSystem → Server → ℕ → FileName → Descriptor → Answer
new_file fs s c p (denied e) = answered s (pos (open_error e)) 0
new_file fs s c p (got fd) = stat_file s c p fd (fs.fstat fd)

unfoldable pub open_linux_file : FileSystem → Server → ℕ → ℕ → FileName → Answer
open_linux_file fs s c flags p = elim (walk_handles p s.handles) [
  | some i ↦ requested (close (handle_at s i).fd) (request_file s c p (handle_at s i).fd none)
  | none ↦ new_file fs s c p (fs.open_file p flags)
]

unfoldable pub open_file : Config → FileSystem → Server → ℕ → FileName → ℕ → Answer
open_file cfg fs s c path flags = elim (path_to_linux_path cfg.volumes cfg.mfs_dir path) [
  | refused e ↦ answered s (neg e) 0
  | converted p ↦ elim (access_flags flags (bit_and flags open_mask)) [
    | none ↦ answered s (pos err_invalid_access) 0
    | some o ↦ open_linux_file fs s c (append_flag flags o) p
  ]
]

-- The choice of the Open File Request, once the path is absolute.
unfoldable pub open_request : Config → FileSystem → Server → ℕ → FileName → ℕ → Answer
open_request cfg fs s c path flags =
    if bit_and flags open_mask == 3
    then open_directory cfg fs s c path
    else open_file cfg fs s c path flags

abbrev pub close_code : ℤ → ℕ
close_code (pos n) = 0
close_code (negsuc n) = if n == 1 then err_file_orpath_not_found else err_other

-- A Close File Request: the server, and the error code.
unfoldable pub close_request : Server → ℕ → ℕ → Server × ℕ
close_request s c i = let r = release_handle s c i in (r.0, close_code r.1)
