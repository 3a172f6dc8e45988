-- ===== src/IsobusServer/History.antt =====
-- The file requests that reach the server, from `isobusfs_srv_rx_fs` of isobusfs/isobusfs_srv.c to
-- isobusfs/isobusfs_srv_fa.c, and the time-outs of clients. The responses are left out but for
-- their error code, and so is the test that a name lies inside its message.
pub mod Sound
use can_utils.Base.{
  ℕ, zero, suc, ◌-◌, ◌%◌, List, [], ◌∷◌, ◌++◌, Bool, ltb, if◌then◌else◌, Option, none, some, set,
  replicate, length, take,
}
use can_utils.Base.Int.{ℤ, pos, negsuc}
use can_utils.Time.{Timespec}
use can_utils.IsobusServer.Handles.{FileName, Server, start, max_clients}
use can_utils.IsobusServer.Paths.{
  Converted, converted, refused, sep, max_path_len, convert_relative_to_absolute,
}
use can_utils.IsobusServer.Open.{
  FileSystem, Config, Answer, answered, crashed, open_request, close_request, err_other,
  err_invalid_access, err_file_orpath_not_found,
}
use can_utils.IsobusServer.Connections.{
  Seats, Peers, SocketSetUp, no_client, client_at, get_client, remove_timeouted_clients,
}

-- The name and the flags of an Open File Request with the bytes behind the name, and the handle of
-- a Close File Request.
pub data Request : Type 0 where
  opens : FileSystem → List ℕ → (ℕ → ℕ) → ℕ → Request
  closes : ℕ → Request

-- The server and the error code, or the server alone where no client can be added; a write behind
-- the table leaves nothing to say.
pub data Reply : Type 0 where
  handled : Peers → ℕ → Reply
  unanswered : Peers → Reply
  lost : Reply

-- An `int` in a `uint8_t`.
abbrev pub error_byte : ℤ → ℕ
error_byte (pos n) = n % 256
error_byte (negsuc n) = 255 - n % 256

abbrev pub max_path_name_length : ℕ
max_path_name_length = 65530

-- The root of the default volume in the place of an empty current directory.
abbrev pub default_dir : Config → FileName → FileName
default_dir cfg [] = take (max_path_len - 1) (sep ∷ sep ∷ cfg.default_volume)
default_dir cfg (c ∷ dir) = c ∷ dir

abbrev pub with_current_dir : Config → Peers → ℕ → Peers
with_current_dir cfg p i =
    let dir = default_dir cfg (client_at p i).current_dir in
    record p { clients = set p.clients i (record (client_at p i) { current_dir = dir }) }

abbrev pub opened_by : Peers → Answer → Reply
opened_by p (answered s e h) = handled (record p { server = s }) (error_byte e)
opened_by p crashed = lost

abbrev pub open_converted : Config → FileSystem → Peers → ℕ → ℕ → Option Converted → Reply
open_converted cfg fs p i flags none = lost
open_converted cfg fs p i flags (some (refused e)) = handled p err_file_orpath_not_found
open_converted cfg fs p i flags (some (converted path)) =
    opened_by p (open_request cfg fs p.server i path flags)

unfoldable pub open_file_req : Config → FileSystem → Peers → ℕ → List ℕ → (ℕ → ℕ) → ℕ → Reply
open_file_req cfg fs p i name beyond flags =
    let q = with_current_dir cfg p i in
    if ltb max_path_name_length (length name)
    then handled p err_invalid_access
    else open_converted cfg fs q i flags
        (convert_relative_to_absolute max_path_len beyond (client_at q i).current_dir name)

abbrev pub handle_request : Config → Peers → ℕ → Request → Reply
handle_request cfg p i (opens fs name beyond flags) = open_file_req cfg fs p i name beyond flags
handle_request cfg p i (closes h) =
    let r = close_request p.server i h in handled (record p { server = r.0 }) r.1

-- The handlers look the client up a second time.
abbrev pub by_msg : Config → Peers × Option ℕ → Request → Reply
by_msg cfg (p, none) r = handled p err_other
by_msg cfg (p, some i) r = handle_request cfg p i r

abbrev pub for_client : Config → SocketSetUp → Timespec → ℕ → Peers × Option ℕ → Request → Reply
for_client cfg how now addr (p, none) r = unanswered p
for_client cfg how now addr (p, some i) r = by_msg cfg (get_client how now p addr) r

unfoldable pub rx_fs : Config → SocketSetUp → SocketSetUp → Timespec → Peers → ℕ → Request → Reply
rx_fs cfg how again now p addr r = for_client cfg again now addr (get_client how now p addr) r

-- A message from an address, with the set-up of sockets that it may lead to, and a time-out check.
pub data Event : Type 0 where
  message : SocketSetUp → SocketSetUp → Timespec → ℕ → Request → Event
  tick : Timespec → Event

abbrev pub after_request : Reply → Option Peers
after_request (handled p e) = some p
after_request (unanswered p) = some p
after_request lost = none

unfoldable pub react : Config → Peers → Event → Option Peers
react cfg p (message how again now addr r) = after_request (rx_fs cfg how again now p addr r)
react cfg p (tick now) = some (remove_timeouted_clients now p)

-- A history; `none` means that the server has written behind a table.
unfoldable pub run : Config → Option Peers → List Event → Option Peers
run cfg none es = none
run cfg (some p) [] = some p
run cfg (some p) (e ∷ es) = run cfg (react cfg p e) es

-- The server at its start.
unfoldable pub boot : List Seats → Peers
boot volumes = record {
  clients = replicate max_clients no_client;
  clients_count = 0;
  server = start;
  volumes = volumes;
  closed_sockets = [];
}
