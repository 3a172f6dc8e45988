-- ===== src/IsobusServer/Connections.antt =====
-- The clients of the file server in isobusfs/isobusfs_srv_cm.c. A pointer to a client is the index of
-- its slot, a negative `sock` is `none`; the fields `tan` and `version` are left out.
pub mod Removal
use mathlib.Core.Option
use can_utils.Base.{
  ℕ, zero, suc, ◌+◌, ◌-◌, List, [], ◌∷◌, map, Bool, true, false, ◌&&◌, ◌==◌, ltb, leb,
  if◌then◌else◌, Option, none, some, get_or, set,
}
use can_utils.Base.Int.{ℤ, pos, negsuc, pos_part}
use can_utils.Time.{Timespec, timespec_diff_ms}
use can_utils.IsobusServer.Handles.{
  FileName, Server, max_clients, is_client, decr, remove_client_from_handles,
}

pub record Client : Type 0 where
  pub sock : Option ℕ
  pub last_received : Timespec
  pub addr : ℕ
  pub current_dir : FileName

-- The clients of a volume.
pub record Seats : Type 0 where
  pub refcount : ℤ
  pub clients : List (Option ℕ)

-- The parts of the server's state that the functions change, with the sockets closed so far.
pub record Peers : Type 0 where
  pub clients : List Client
  pub clients_count : ℕ
  pub server : Server
  pub volumes : List Seats
  pub closed_sockets : List ℕ

abbrev pub no_client : Client
no_client = record {
  sock = none;
  last_received = record { tv_sec = pos 0; tv_nsec = 0 };
  addr = 0;
  current_dir = [];
}

abbrev pub client_at : Peers → ℕ → Client
client_at p i = get_or p.clients i no_client

abbrev pub has_socket : Option ℕ → Bool
has_socket none = false
has_socket (some s) = true

-- The search among the first `n` clients.
unfoldable pub find_client : ℕ → ℕ → List Client → Option ℕ
find_client addr zero cs = none
find_client addr (suc n) [] = none
find_client addr (suc n) (c ∷ cs) =
    let rest = Option.map (λ i. suc i) (find_client addr n cs) in
    if has_socket c.sock && c.addr == addr then some 0 else rest

-- Every seat of the client in a volume is given up.
unfoldable pub leave_seats : ℕ → ℤ → List (Option ℕ) → ℤ × List (Option ℕ)
leave_seats c n [] = (n, [])
leave_seats c n (x ∷ xs) =
    let r = leave_seats c (if is_client c x then decr n else n) xs in
    (r.0, (if is_client c x then none else x) ∷ r.1)

abbrev pub leave_volume : ℕ → Seats → Seats
leave_volume c v =
    let r = leave_seats c v.refcount v.clients in record { refcount = r.0; clients = r.1 }

-- The loop `priv->clients[i] = priv->clients[i + 1]` from `i` on, `n` rounds.
unfoldable pub shift_clients : ℕ → ℕ → List Client → List Client
shift_clients zero i cs = cs
shift_clients (suc n) i cs = shift_clients n (suc i) (set cs i (get_or cs (suc i) no_client))

abbrev pub remove_open : Peers → ℕ → Option ℕ → Peers
remove_open p i none = p
remove_open p i (some s) = record {
  clients =
      shift_clients (p.clients_count - 1 - i) i
        (set p.clients i (record (client_at p i) { sock = none }));
  clients_count = p.clients_count - 1;
  server = remove_client_from_handles p.server i;
  volumes = map (leave_volume i) p.volumes;
  closed_sockets = s ∷ p.closed_sockets;
}

-- `clients_count` is at least 1 where this is called, for the index is below it.
unfoldable pub remove_client : Peers → ℕ → Peers
remove_client p i = remove_open p i (client_at p i).sock

-- How the set-up of a new socket ends: no socket, an error that leaves the socket open, a filter
-- that cannot be set, which closes the socket, or success.
pub data SocketSetUp : Type 0 where
  no_socket : SocketSetUp
  left_open filter_failed ready : ℕ → SocketSetUp

abbrev pub set_socket : Peers → ℕ → Option ℕ → Peers
set_socket p i s = record p { clients = set p.clients i (record (client_at p i) { sock = s }) }

-- `isobusfs_srv_init_client` and the end of `isobusfs_srv_add_client`.
abbrev pub init_client : Peers → ℕ → SocketSetUp → Option ℕ → Peers × Option ℕ
init_client p i how (some s) = (p, none)
init_client p i no_socket none = (p, none)
init_client p i (left_open s) none = (set_socket p i (some s), none)
init_client p i (filter_failed s) none =
    (record (set_socket p i none) { closed_sockets = s ∷ p.closed_sockets }, none)
init_client p i (ready s) none =
    (record (set_socket p i (some s)) { clients_count = suc p.clients_count }, some i)

unfoldable pub add_client : SocketSetUp → Peers → ℕ → Peers × Option ℕ
add_client how p addr =
    let i = p.clients_count in
    let q : Peers = record p {
      clients = set p.clients i (record (client_at p i) { addr = addr });
    } in
    if leb max_clients i then (p, none) else init_client q i how (client_at q i).sock

abbrev pub touched : Timespec → Peers × Option ℕ → Peers × Option ℕ
touched now (p, none) = (p, none)
touched now (p, some i) = (
  record p { clients = set p.clients i (record (client_at p i) { last_received = now }) },
  some i,
)

unfoldable pub get_client : SocketSetUp → Timespec → Peers → ℕ → Peers × Option ℕ
get_client how now p addr = elim (find_client addr p.clients_count p.clients) [
  | some i ↦ touched now (p, some i)
  | none ↦ touched now (add_client how p addr)
]

abbrev pub client_timeout : ℕ
client_timeout = 6000

-- The loop over the clients; every round lowers `clients_count - i`, which is `n`, by one.
unfoldable pub remove_timeouted : Timespec → ℕ → ℕ → Peers → Peers
remove_timeouted now zero i p = p
remove_timeouted now (suc n) i p =
    let c = client_at p i in
    let late = ltb client_timeout (pos_part (timespec_diff_ms now c.last_received)) in
    let next : Peers × ℕ =
      if has_socket c.sock && late then (remove_client p i, i) else (p, suc i) in
    remove_timeouted now n next.1 next.0

unfoldable pub remove_timeouted_clients : Timespec → Peers → Peers
remove_timeouted_clients now p = remove_timeouted now p.clients_count 0 p
