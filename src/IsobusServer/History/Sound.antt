-- ===== src/IsobusServer/History/Sound.antt =====
-- What every history of the server satisfies.
use can_utils.Base.{
  ℕ, zero, suc, ◌-◌, ◌≤◌, ◌<◌, ◌≡◌, inl, inr, ◌∙◌, List, [], ◌∷◌, Bool, true, false, ◌&&◌, Option,
  none, some, set, length, arith, length-set, length-replicate, leb, ltb, if◌then◌else◌, Bool-cases,
  Option-cases,
}
use can_utils.Base.Int.{pos_part}
use can_utils.Time.{Timespec, timespec_diff_ms}
use can_utils.IsobusServer.Handles.{FileName, max_clients}
use can_utils.IsobusServer.Handles.Invariant.{IsServer, start-IsServer}
use can_utils.IsobusServer.Handles.Removal.{remove_client_from_handles-Kept, release_handle-Kept}
use can_utils.IsobusServer.Paths.{Converted, converted, refused, max_path_len}
use can_utils.IsobusServer.Paths.Bounds.{Ends}
use can_utils.IsobusServer.Paths.Termination.{convert_relative_to_absolute-Ends}
use can_utils.IsobusServer.Open.{FileSystem, Config, Answer, answered, crashed, close_request}
use can_utils.IsobusServer.Open.Outcome.{Opens, open_request-Opens}
use can_utils.IsobusServer.Connections.{
  Client, Seats, Peers, SocketSetUp, no_socket, left_open, filter_failed, ready, no_client,
  client_at, get_client, add_client, init_client, touched, find_client, remove_client, remove_open,
  has_socket, remove_timeouted, remove_timeouted_clients, client_timeout,
}
use can_utils.IsobusServer.Connections.Removal.{length-shift}
use can_utils.IsobusServer.History.{
  Request, opens, closes, Reply, handled, unanswered, lost, with_current_dir, opened_by,
  open_converted, open_file_req, handle_request, by_msg, for_client, rx_fs, Event, message, tick,
  after_request, react, run, boot, max_path_name_length,
}

-- The table of handles is well formed, and the clients have their 237 slots, of which no more are
-- in use.
pub record IsPeers (p : Peers) : Type 0 where
  pub server : IsServer p.server
  pub full : length p.clients ≡ max_clients
  pub count : p.clients_count ≤ max_clients

set-IsPeers :
    (p : Peers) (i : ℕ) (c : Client) (n : ℕ) (cs : List ℕ)
    → IsPeers p
    → n ≤ max_clients
    → IsPeers (record p { clients = set p.clients i c; clients_count = n; closed_sockets = cs })
set-IsPeers p i c n cs v h = record {
  server = v.server;
  full = length-set p.clients i c ∙ v.full;
  count = h;
}

init_client-IsPeers :
    (p : Peers) (i : ℕ) (how : SocketSetUp) (o : Option ℕ)
    → IsPeers p
    → p.clients_count < max_clients
    → IsPeers (init_client p i how o).0
init_client-IsPeers p i how (some s) v h = v
init_client-IsPeers p i no_socket none v h = v
init_client-IsPeers p i (left_open s) none v h =
    set-IsPeers p i _ p.clients_count p.closed_sockets v v.count
init_client-IsPeers p i (filter_failed s) none v h =
    set-IsPeers p i _ p.clients_count (s ∷ p.closed_sockets) v v.count
init_client-IsPeers p i (ready s) none v h =
    set-IsPeers p i _ (suc p.clients_count) p.closed_sockets v (omega arith)

add_client-IsPeers :
    (how : SocketSetUp) (p : Peers) (addr : ℕ) → IsPeers p → IsPeers (add_client how p addr).0
unfolding add_client
add_client-IsPeers how p addr v = elim (Bool-cases (leb max_clients p.clients_count)) [
  | inl full ↦ rw full v
  | inr room ↦ rw room (
      init_client-IsPeers _ p.clients_count how _
        (set-IsPeers p p.clients_count _ p.clients_count p.closed_sockets v v.count) (ground arith))
]

touched-IsPeers : (now : Timespec) (r : Peers × Option ℕ) → IsPeers r.0 → IsPeers (touched now r).0
touched-IsPeers now (p, none) v = v
touched-IsPeers now (p, some i) v = set-IsPeers p i _ p.clients_count p.closed_sockets v v.count

get_client-IsPeers :
    (how : SocketSetUp) (now : Timespec) (p : Peers) (addr : ℕ)
    → IsPeers p
    → IsPeers (get_client how now p addr).0
unfolding get_client
get_client-IsPeers how now p addr v =
    elim (Option-cases (find_client addr p.clients_count p.clients)) [
      | inl e ↦
          rw (e, get_client)
            (touched-IsPeers now (add_client how p addr) (add_client-IsPeers how p addr v))
      | inr (i, e) ↦ rw (e, get_client) (touched-IsPeers now (p, some i) v)
    ]

remove_open-IsPeers : (p : Peers) (i : ℕ) (o : Option ℕ) → IsPeers p → IsPeers (remove_open p i o)
remove_open-IsPeers p i none v = v
remove_open-IsPeers p i (some s) v = record {
  server = (remove_client_from_handles-Kept p.server i v.server).0.valid;
  full = length-shift (p.clients_count - 1 - i) i _ ∙ length-set p.clients i _ ∙ v.full;
  count = omega (arith, v.count);
}

remove_client-IsPeers : (p : Peers) (i : ℕ) → IsPeers p → IsPeers (remove_client p i)
unfolding remove_client
remove_client-IsPeers p i v = remove_open-IsPeers p i (client_at p i).sock v

remove_timeouted-IsPeers :
    (now : Timespec) (n i : ℕ) (p : Peers) → IsPeers p → IsPeers (remove_timeouted now n i p)
unfolding remove_timeouted
remove_timeouted-IsPeers now zero i p v = v
remove_timeouted-IsPeers now (suc n) i p v =
    let removed =
      remove_timeouted-IsPeers now n i (remove_client p i) (remove_client-IsPeers p i v) in
    let kept = remove_timeouted-IsPeers now n (suc i) p v in
    next
      (has_socket (client_at p i).sock
        && ltb client_timeout (pos_part (timespec_diff_ms now (client_at p i).last_received)))
      removed kept
  where
    next :
        (b : Bool)
        → IsPeers (remove_timeouted now n i (remove_client p i))
        → IsPeers (remove_timeouted now n (suc i) p)
        → let step : Peers × ℕ = if b then (remove_client p i, i) else (p, suc i) in
          IsPeers (remove_timeouted now n step.1 step.0)
    next true h k = h
    next false h k = k

-- A reply with a sound state; the server has not written behind a table.
abbrev Replies : Reply → Type 0
Replies (handled p e) = IsPeers p
Replies (unanswered p) = IsPeers p
Replies lost = ⊥

with_current_dir-IsPeers :
    (cfg : Config) (p : Peers) (i : ℕ) → IsPeers p → IsPeers (with_current_dir cfg p i)
with_current_dir-IsPeers cfg p i v = set-IsPeers p i _ p.clients_count p.closed_sockets v v.count

opened_by-Replies :
    (cfg : Config) (p : Peers) (i : ℕ) (path : FileName) (a : Answer)
    → IsPeers p
    → Opens cfg p.server i path a
    → Replies (opened_by p a)
opened_by-Replies cfg p i path crashed v o = o
opened_by-Replies cfg p i path (answered s e h) v (inl (z, (q, f, g))) = record {
  server = g.valid;
  full = v.full;
  count = v.count;
}
opened_by-Replies cfg p i path (answered s e h) v (inr (z, w, f)) = record {
  server = w;
  full = v.full;
  count = v.count;
}

open_converted-Replies :
    (cfg : Config) (fs : FileSystem) (p : Peers) (i flags : ℕ) (o : Option Converted)
    → IsPeers p
    → Ends max_path_len o
    → Replies (open_converted cfg fs p i flags o)
open_converted-Replies cfg fs p i flags none v h = h
open_converted-Replies cfg fs p i flags (some (refused e)) v h = v
open_converted-Replies cfg fs p i flags (some (converted path)) v h =
    opened_by-Replies cfg p i path _ v (open_request-Opens cfg fs p.server i path flags v.server)

open_file_req-Replies :
    (cfg : Config) (fs : FileSystem) (p : Peers) (i : ℕ) (name : List ℕ) (beyond : ℕ → ℕ)
    (flags : ℕ)
    → IsPeers p
    → Replies (open_file_req cfg fs p i name beyond flags)
unfolding open_file_req
open_file_req-Replies cfg fs p i name beyond flags v =
    elim (Bool-cases (ltb max_path_name_length (length name))) [
      | inl long ↦ rw long v
      | inr short ↦ rw short (
          open_converted-Replies cfg fs (with_current_dir cfg p i) i flags _
            (with_current_dir-IsPeers cfg p i v)
            (convert_relative_to_absolute-Ends max_path_len beyond
              (client_at (with_current_dir cfg p i) i).current_dir name (omega arith)))
    ]

handle_request-Replies :
    (cfg : Config) (p : Peers) (i : ℕ) (r : Request)
    → IsPeers p
    → Replies (handle_request cfg p i r)
unfolding close_request
handle_request-Replies cfg p i (opens fs name beyond flags) v =
    open_file_req-Replies cfg fs p i name beyond flags v
handle_request-Replies cfg p i (closes h) v = record {
  server = (release_handle-Kept p.server i h v.server).0.valid;
  full = v.full;
  count = v.count;
}

by_msg-Replies :
    (cfg : Config) (q : Peers × Option ℕ) (r : Request) → IsPeers q.0 → Replies (by_msg cfg q r)
by_msg-Replies cfg (p, none) r v = v
by_msg-Replies cfg (p, some i) r v = handle_request-Replies cfg p i r v

for_client-Replies :
    (cfg : Config) (how : SocketSetUp) (now : Timespec) (addr : ℕ) (q : Peers × Option ℕ)
    (r : Request)
    → IsPeers q.0
    → Replies (for_client cfg how now addr q r)
for_client-Replies cfg how now addr (p, none) r v = v
for_client-Replies cfg how now addr (p, some i) r v =
    by_msg-Replies cfg (get_client how now p addr) r (get_client-IsPeers how now p addr v)

-- A server that has not written behind a table, in a well-formed state.
abbrev pub Sound : Option Peers → Type 0
Sound none = ⊥
Sound (some p) = IsPeers p

Replies-Sound : (r : Reply) → Replies r → Sound (after_request r)
Replies-Sound (handled p e) v = v
Replies-Sound (unanswered p) v = v
Replies-Sound lost v = v

react-Sound : (cfg : Config) (p : Peers) (e : Event) → IsPeers p → Sound (react cfg p e)
unfolding react rx_fs remove_timeouted_clients
react-Sound cfg p (message how again now addr r) v = Replies-Sound _ (
    for_client-Replies cfg again now addr (get_client how now p addr) r
      (get_client-IsPeers how now p addr v))
react-Sound cfg p (tick now) v = remove_timeouted-IsPeers now p.clients_count 0 p v

run-Sound : (cfg : Config) (o : Option Peers) (es : List Event) → Sound o → Sound (run cfg o es)
unfolding run
run-Sound cfg none es h = h
run-Sound cfg (some p) [] h = h
run-Sound cfg (some p) (e ∷ es) h = run-Sound cfg (react cfg p e) es (react-Sound cfg p e h)

boot-IsPeers : (volumes : List Seats) → IsPeers (boot volumes)
unfolding boot
boot-IsPeers volumes = record {
  server = start-IsServer;
  full = length-replicate max_clients no_client;
  count = omega arith;
}

-- Whatever requests to open and close files come from whatever addresses, whenever the clients are
-- looked through for time-outs, however the set-ups of their sockets end and whatever the file
-- system answers: the conversion of a name always ends, and the server never writes behind its
-- table of handles. At most 237 clients are counted, and the table stays well formed. The reference
-- count of an entry is the number of its clients, none of which it lists twice, an entry is zeroed
-- or has a path and a client, no two entries have the same path, and `handles_count` is the number
-- of those in use.
pub run-boot-Sound :
    (cfg : Config) (volumes : List Seats) (es : List Event)
    → Sound (run cfg (some (boot volumes)) es)
run-boot-Sound cfg volumes es = run-Sound cfg (some (boot volumes)) es (boot-IsPeers volumes)
