-- ===== src/IsobusServer/Connections/Removal.antt =====
-- What `isobusfs_srv_remove_client` of isobusfs/isobusfs_srv_cm.c does to the clients behind the one
-- that it removes.
use native.Mathlib.Decide.{dec_lt}
use can_utils.Base.{
  ℕ, zero, suc, ◌+◌, ◌-◌, ◌≤◌, ◌<◌, ◌≡◌, refl, ap, ◌∙◌, subst, List, Option, none, some, get_or,
  set, length, arith, get_or-set_self, get_or-set_ne, length-set, lt→leb,
}
use can_utils.IsobusServer.Handles.{max_clients}
use can_utils.IsobusServer.Handles.Invariant.{IsServer}
use can_utils.IsobusServer.Handles.Leave.{holds}
use can_utils.IsobusServer.Handles.Removal.{remove_client_from_handles-Kept}
use can_utils.IsobusServer.Connections.{
  Client, Peers, no_client, client_at, shift_clients, remove_client, remove_open, SocketSetUp,
  init_client, add_client,
}

abbrev slot : List Client → ℕ → Client
slot cs i = get_or cs i no_client

shift_below : (n i j : ℕ) (cs : List Client) → j < i → slot (shift_clients n i cs) j ≡ slot cs j
unfolding shift_clients
shift_below zero i j cs h = refl
shift_below (suc n) i j cs h =
    shift_below n (suc i) j (set cs i (slot cs (suc i))) (omega arith)
    ∙ get_or-set_ne cs i j (slot cs (suc i)) no_client (λ e. absurd (omega arith))

shift_above : (n i j : ℕ) (cs : List Client) → i + n ≤ j → slot (shift_clients n i cs) j ≡ slot cs j
unfolding shift_clients
shift_above zero i j cs h = refl
shift_above (suc n) i j cs h =
    shift_above n (suc i) j (set cs i (slot cs (suc i))) (omega arith)
    ∙ get_or-set_ne cs i j (slot cs (suc i)) no_client (λ e. absurd (omega arith))

shift_inside :
    (n i j : ℕ) (cs : List Client)
    → Dec (i < j)
    → i ≤ j
    → j < i + n
    → i + n < length cs
    → slot (shift_clients n i cs) j ≡ slot cs (suc j)
unfolding shift_clients
shift_inside zero i j cs d h k l = absurd (omega arith)
shift_inside (suc n) i j cs (yes later) h k l =
    shift_inside n (suc i) j (set cs i (slot cs (suc i))) (dec_lt (suc i) j) (omega arith)
      (omega arith) (omega (arith, length-set cs i (slot cs (suc i))))
    ∙ get_or-set_ne cs i (suc j) (slot cs (suc i)) no_client (λ e. absurd (omega arith))
shift_inside (suc n) i j cs (no here) h k l =
    let e : i ≡ j = omega arith in
    subst
      (λ (m : ℕ). slot (shift_clients n (suc i) (set cs i (slot cs (suc i)))) m ≡ slot cs (suc m)) e
      (shift_below n (suc i) i (set cs i (slot cs (suc i))) (omega arith)
        ∙ get_or-set_self cs i (slot cs (suc i)) no_client (omega arith))

pub length-shift : (n i : ℕ) (cs : List Client) → length (shift_clients n i cs) ≡ length cs
unfolding shift_clients
length-shift zero i cs = refl
length-shift (suc n) i cs =
    length-shift n (suc i) (set cs i (slot cs (suc i))) ∙ length-set cs i (slot cs (suc i))

init_refused :
    (p : Peers) (i s : ℕ) (how : SocketSetUp) (o : Option ℕ)
    → o ≡ some s
    → (init_client p i how o).1 ≡ none
init_refused p i s how none e = cc
init_refused p i s how (some t) e = refl

module _ (p : Peers) (i s : ℕ) (full : length p.clients ≡ max_clients)
    (count : p.clients_count ≤ max_clients) (inside : suc i < p.clients_count)
    (opened : (client_at p i).sock ≡ some s) where
  removed : remove_client p i ≡ remove_open p i (some s)
  unfolding remove_client
  removed = rw opened

  moved :
      (k : ℕ)
      → i ≤ k
      → suc k < p.clients_count
      → client_at (remove_client p i) k ≡ client_at p (suc k)
  moved k h l =
      ap (λ (q : Peers). client_at q k) removed
      ∙ shift_inside (p.clients_count - 1 - i) i k _ (dec_lt i k) h (omega arith)
          (omega (arith, length-set p.clients i (record (client_at p i) { sock = none })))
      ∙ get_or-set_ne p.clients i (suc k) _ no_client (λ e. absurd (omega arith))

  stays : client_at (remove_client p i) (p.clients_count - 1) ≡ client_at p (p.clients_count - 1)
  stays =
      ap (λ (q : Peers). client_at q (p.clients_count - 1)) removed
      ∙ shift_above (p.clients_count - 1 - i) i (p.clients_count - 1) _ (omega arith)
      ∙ get_or-set_ne p.clients i (p.clients_count - 1) _ no_client (λ e. absurd (omega arith))

  count_left : (remove_client p i).clients_count ≡ p.clients_count - 1
  count_left = ap (λ (q : Peers). q.clients_count) removed

  length_left : length (remove_client p i).clients ≡ max_clients
  length_left =
      ap (λ (q : Peers). length q.clients) removed
      ∙ length-shift (p.clients_count - 1 - i) i _
      ∙ length-set p.clients i _
      ∙ full

  refused_after :
      (t : ℕ)
      → (client_at p (p.clients_count - 1)).sock ≡ some t
      → (how : SocketSetUp) (addr : ℕ) → (add_client how (remove_client p i) addr).1 ≡ none
  unfolding add_client
  refused_after t last how addr =
      let q = remove_client p i in
      rw (lt→leb max_clients q.clients_count (omega (arith, count_left))) (
        init_refused _ q.clients_count t how _ (
          ap (λ (c : Client). c.sock)
            (get_or-set_self q.clients q.clients_count _ no_client
              (omega (arith, count_left, length_left)))
          ∙ ap (λ (k : ℕ). (client_at q k).sock) count_left
          ∙ ap (λ (c : Client). c.sock) stays
          ∙ last))

-- The removal of a client that is not the last one, from a table of 237 slots in which its socket and
-- that of the last client are open. Every client behind it moves down one slot, but the files that
-- it has open stay with its old slot. And the last client's old slot keeps a socket, so that no new
-- client can be added, whatever its address and however the set-up of its socket would end.
pub remove_client_strands :
    (p : Peers) (i s t : ℕ)
    → length p.clients ≡ max_clients
    → p.clients_count ≤ max_clients
    → suc i < p.clients_count
    → (client_at p i).sock ≡ some s
    → (client_at p (p.clients_count - 1)).sock ≡ some t
    → IsServer p.server
    → let q = remove_client p i in
      ((k : ℕ)
        → i ≤ k
        → suc k < p.clients_count
        → (client_at q k ≡ client_at p (suc k))
          × ((j : ℕ) → holds q.server (suc k) j ≡ holds p.server (suc k) j))
      × ((how : SocketSetUp) (addr : ℕ) → (add_client how q addr).1 ≡ none)
remove_client_strands p i s t full count inside opened last v = (
  λ k h l. (
    moved p i s full count inside opened k h l,
    λ j.
        ap (λ (q : Peers). holds q.server (suc k) j) (removed p i s full count inside opened)
        ∙ (remove_client_from_handles-Kept p.server i v).0.others (suc k) j
            (λ e. absurd (omega arith)),
  ),
  refused_after p i s full count inside opened t last,
)
