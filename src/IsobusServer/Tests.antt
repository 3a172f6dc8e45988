-- ===== src/IsobusServer/Tests.antt =====
-- The file server at a volume "V" at /v, with the files /v/a and /v/b.
use mathlib.Core.List.{reverse}
use can_utils.Base.{
  replicate, length-replicate, not, ◌&&◌, ◌==◌, suc, ap, ◌∙◌, subst, ℕ, ◌<◌, ◌≡◌, ◌≤◌, ◌⊎◌, ◌↔◌,
  refl, arith, List, [], ◌∷◌, false, none, some, length, drop, All,
}
use can_utils.Base.Int.{pos}
use can_utils.Base.Text.{codes}
use can_utils.IsobusServer.Handles.{
  FileName, Server, granted, start, request_file, release_handle, remove_client_from_handles,
  walk_handles, free_slot, add_file, unused, add_client_to_file, lists, put_client, same_name,
  Handle,
}
use can_utils.IsobusServer.Handles.Clients.{lists-replicate}
use can_utils.IsobusServer.Handles.Slots.{at-replicate}
use can_utils.IsobusServer.Handles.Invariant.{IsServer, start-IsServer}
use can_utils.IsobusServer.Handles.Requests.{request_file-Requests, request_file-IsServer}
use can_utils.IsobusServer.Handles.Grants.{handles_identify, Granting, request_file-Granting}
use can_utils.IsobusServer.Handles.Leave.{Kept, holds}
use can_utils.IsobusServer.Handles.Removal.{remove_client_from_handles-Kept}
use can_utils.IsobusServer.Handles.RoundTrip.{Released, release-request}
use can_utils.IsobusServer.Paths.{
  converted, convert_relative_to_absolute, path_to_linux_path, convert_from, validate_path_chars,
  handle_path_prefix, handle_relative_path, process_path_segment, copy_segment, is_dot_directive,
  handle_dot_directive, skip_separators, parent, climb, find_volume, linux_path, segment_length,
}
use can_utils.IsobusServer.Paths.Bounds.{Ends}
use can_utils.IsobusServer.Paths.Termination.{convert_relative_to_absolute-Ends}
use can_utils.IsobusServer.Paths.Normal.{shut, ajar, is_dots, resolve, joined}
use can_utils.IsobusServer.Paths.Resolve.{convert_relative_to_absolute-resolve}
use can_utils.IsobusServer.Open.{FileSystem, Config, got, denied, regular, open_request}
use can_utils.IsobusServer.Open.Outcome.{Opens, open_request-Opens}
use can_utils.IsobusServer.History.{Event, message, tick, opens, run, boot}
use can_utils.IsobusServer.History.Sound.{Sound, run-boot-Sound}
use can_utils.Time.{Timespec, timespec_diff_ms}
use can_utils.IsobusServer.Connections.{
  Client, Peers, no_client, client_at, remove_client, SocketSetUp, ready, no_socket, add_client,
  shift_clients, remove_timeouted, remove_timeouted_clients, leave_volume, leave_seats, get_client,
  find_client,
}
use can_utils.IsobusServer.Connections.Removal.{remove_client_strands}
use can_utils.IsobusServer.Directory.{
  System, Tm, read_directory, list_entries, listed_stat, put_entry, attributes,
  check_access_with_base, convert_to_file_date, convert_to_file_time,
}
use can_utils.IsobusServer.Directory.Listing.{decode, fitting, entries}
use can_utils.IsobusServer.Directory.Layout.{decode-read_directory}

abbrev file_a : FileName
file_a = codes "/v/a"

abbrev file_b : FileName
file_b = codes "/v/b"

-- Client 3 has the file /v/a.
abbrev one : Server
one = (request_file start 3 file_a 5 none).0

abbrev two : Server
two = (request_file one 4 file_b 6 none).0

one-IsServer : IsServer one
one-IsServer =
    request_file-IsServer start-IsServer
      (request_file-Requests start 3 file_a 5 none start-IsServer)

first_granted : request_file start 3 file_a 5 none ≡ (one, granted 0)
unfolding request_file start walk_handles add_file free_slot unused add_client_to_file lists
    put_client
first_granted = refl

second_granted : request_file one 4 file_b 6 none ≡ (two, granted 1)
unfolding request_file start walk_handles add_file free_slot unused add_client_to_file lists
    put_client same_name
second_granted = refl

handles_identify_example : ◌≡◌ {A = ℕ} 0 1 ↔ (file_a ≡ file_b)
handles_identify_example =
    handles_identify start one two 3 4 file_a file_b 5 6 none none 0 1 start-IsServer first_granted
      second_granted

nobody : (c j : ℕ) → holds start c j ≡ false
unfolding start unused
nobody c j = ap (λ (h : Handle). lists c h.clients) (at-replicate 255 j) ∙ lists-replicate c 237

not_four : (j : ℕ) → holds one 4 j ≡ false
not_four j =
    (subst (Granting start 3 file_a) first_granted
        (request_file-Granting start 3 file_a 5 none start-IsServer)).others
      4 j (λ e. absurd (omega arith))
    ∙ nobody 4 j

-- Client 4 joins client 3 and leaves again.
abbrev joint : Server
joint = (request_file one 4 file_a 7 none).0

join_granted : request_file one 4 file_a 7 none ≡ (joint, granted 0)
unfolding request_file start walk_handles add_file free_slot unused add_client_to_file lists
    put_client same_name
join_granted = refl

release-request_example : Released one file_a 7 none (release_handle joint 4 0)
release-request_example =
    release-request one joint 4 file_a 7 none 0 one-IsServer (λ j e. not_four j) join_granted

remove_client_from_handles-Kept_example :
    Kept two 3 (remove_client_from_handles two 3)
    × ((i : ℕ) → holds (remove_client_from_handles two 3) 3 i ≡ false)
remove_client_from_handles-Kept_example =
    remove_client_from_handles-Kept two 3
      (request_file-IsServer one-IsServer (request_file-Requests one 4 file_b 6 none one-IsServer))

abbrev config : Config
config = record {
  volumes = record { name = codes "V"; root = codes "/v" } ∷ [];
  mfs_dir = codes "MCMC0000";
  default_volume = codes "V";
}

-- Every file is there and regular, and descriptor 9 is the next one.
abbrev files : FileSystem
files = record {
  opendir = λ p. denied 20;
  dirfd = λ d. none;
  open_file = λ p flags. got 9;
  fstat = λ fd. some regular;
}

open_request-Opens_example :
    Opens config start 3 (codes "\\\\V\\a") (open_request config files start 3 (codes "\\\\V\\a") 0)
open_request-Opens_example =
    open_request-Opens config files start 3 (codes "\\\\V\\a") 0 start-IsServer

-- What follows a name in the message is all 0.
abbrev ends : ℕ → ℕ
ends k = 0

-- Address 0x30 opens a file, and is then silent for seven seconds.
abbrev history : List Event
history =
    message (ready 20) no_socket (record { tv_sec = pos 0; tv_nsec = 0 }) 0x30
      (opens files (codes "a") ends 0)
    ∷ tick (record { tv_sec = pos 7; tv_nsec = 0 })
    ∷ []

run-boot-Sound_example : Sound (run config (some (boot [])) history)
run-boot-Sound_example = run-boot-Sound config [] history

abbrev from_tests : FileName
from_tests = codes "a\\..\\b"

convert_relative_to_absolute-Ends_example :
    Ends 4096 (convert_relative_to_absolute 4096 ends (codes "\\\\V") from_tests)
convert_relative_to_absolute-Ends_example =
    convert_relative_to_absolute-Ends 4096 ends (codes "\\\\V") from_tests (omega arith)

abbrev a_up_b : List (List ℕ)
a_up_b = codes ".." ∷ codes "b" ∷ []

convert_relative_to_absolute-resolve_example :
    let dirs = resolve (codes "V" ∷ []) (codes "a" ∷ a_up_b) in
    let result =
      convert_relative_to_absolute 4096 ends
        (reverse (ajar (codes "V" ∷ [])))
        (joined (codes "a" ∷ a_up_b)) in
    ((result ≡ some (converted (reverse (shut dirs))))
      ⊎ (result ≡ some (converted (reverse (ajar dirs)))))
    × (All (λ n. is_dots n ≡ false) (codes "V" ∷ []) → All (λ n. is_dots n ≡ false) dirs)
unfolding validate_path_chars
convert_relative_to_absolute-resolve_example =
    convert_relative_to_absolute-resolve 4096 ends (codes "V") [] (codes "a") a_up_b
      ((omega arith, (refl, tt)), tt)
      (
        (omega arith, (refl, tt)),
        ((omega arith, (refl, (refl, tt))), ((omega arith, (refl, tt)), tt)),
      )
      refl refl (omega arith)

-- With two backslashes the `..` stays in the path, and the Linux path leaves the volume's root.
escape :
    convert_relative_to_absolute 4096 ends (codes "\\\\V") (codes "a\\\\..\\\\..\\\\etc")
    ≡ some (converted (codes "\\\\V\\a\\\\..\\\\..\\\\etc"))
unfolding convert_relative_to_absolute convert_from validate_path_chars handle_path_prefix
    handle_relative_path process_path_segment copy_segment is_dot_directive handle_dot_directive
    skip_separators parent climb
escape = refl

escaped :
    path_to_linux_path config.volumes config.mfs_dir (codes "\\\\V\\a\\\\..\\\\..\\\\etc")
    ≡ converted (codes "/v/a//..//..//etc")
unfolding path_to_linux_path find_volume linux_path segment_length same_name
escaped = refl

abbrev noon : Tm
noon = record { tm_year = pos 124; tm_mon = 4; tm_mday = 1; tm_hour = 12; tm_min = 30; tm_sec = 11 }

-- Two readable files, the second one not writable.
abbrev system : System
system = record {
  access = λ p mode. not (same_name p (codes "/v/b") && mode == 2);
  fstatat = λ n. some (record { is_dir = false; mtime = pos 0; size = 1000 });
  localtime = λ t. some noon;
}

abbrev names : List FileName
names = codes "a" ∷ codes "b" ∷ codes "c" ∷ []

listing_bytes :
    read_directory system (codes "/v") (pos 1) 12 names
    ≡ 1 ∷ b'b' ∷ 1 ∷ 0xA1 ∷ 0x58 ∷ 0xC5 ∷ 0x63 ∷ 0xE8 ∷ 3 ∷ 0 ∷ 0 ∷ []
unfolding read_directory list_entries listed_stat put_entry attributes check_access_with_base
    convert_to_file_date convert_to_file_time same_name
listing_bytes = refl

decode-read_directory_example :
    let bytes = read_directory system (codes "/v") (pos 1) 12 names in
    (length bytes ≤ 12)
    × (decode (suc (length bytes)) bytes
        ≡ some (fitting 12 (entries system (codes "/v") (drop 1 names))))
decode-read_directory_example =
    decode-read_directory system (codes "/v") (pos 1) 12 names (λ t. omega arith)

abbrev peer : ℕ → ℕ → Client
peer sock addr = record no_client { sock = some sock; addr = addr }

-- Clients at the addresses 0x30, 0x31 and 0x32.
abbrev three : Peers
three = record {
  clients = peer 10 0x30 ∷ peer 11 0x31 ∷ peer 12 0x32 ∷ replicate 234 no_client;
  clients_count = 3;
  server = one;
  volumes = [];
  closed_sockets = [];
}

remove_client_strands_example :
    let q = remove_client three 0 in
    ((k : ℕ)
      → 0 ≤ k
      → suc k < 3
      → (client_at q k ≡ client_at three (suc k))
        × ((j : ℕ) → holds q.server (suc k) j ≡ holds one (suc k) j))
    × ((how : SocketSetUp) (addr : ℕ) → (add_client how q addr).1 ≡ none)
remove_client_strands_example =
    remove_client_strands three 0 10 12
      (omega (arith, length-replicate {0} {A = Client} 234 no_client)) (omega arith) (omega arith)
      refl refl one-IsServer

-- With the last client removed there is room again.
add_again : (add_client (ready 13) (remove_client three 2) 0x33).1 ≡ some 2
unfolding add_client remove_client shift_clients
add_again = refl

-- A client that is silent for longer than six seconds is removed.
abbrev late : Timespec
late = record { tv_sec = pos 7; tv_nsec = 0 }

nobody_left : (remove_timeouted_clients late three).clients_count ≡ 0
unfolding remove_timeouted_clients remove_timeouted remove_client shift_clients timespec_diff_ms
nobody_left = refl

volume_left :
    leave_volume 4 (record { refcount = pos 2; clients = some 4 ∷ some 5 ∷ none ∷ [] })
    ≡ record { refcount = pos 1; clients = none ∷ some 5 ∷ none ∷ [] }
unfolding leave_seats
volume_left = refl

known : (get_client no_socket late three 0x31).1 ≡ some 1
unfolding get_client find_client
known = refl
