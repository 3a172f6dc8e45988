-- ===== src/IsobusServer/Handles.antt =====
-- The table of open files of isobusfs/isobusfs_srv_fa.c, `priv->handles`, and its clients. A client
-- is the index of its slot in `priv->clients`, a `DIR *` is a number, and NULL is `none`. strdup is
-- taken to find memory.
pub mod Clients
pub mod Slots
pub mod Invariant
pub mod Requests
pub mod Grants
pub mod RoundTrip
pub mod Leave
pub mod Removal
use mathlib.Core.Option
use can_utils.Base.{
  ℕ, zero, suc, List, [], ◌∷◌, Bool, true, false, ◌&&◌, ◌||◌, ◌==◌, ltb, leb, if◌then◌else◌, Option,
  none, some, get_or, set, replicate,
}
use can_utils.Base.Int.{ℤ, pos, negsuc}

-- A path without its NUL.
abbrev pub FileName : Type 0
FileName = List ℕ

-- A test `!strcmp(a, b)`.
unfoldable pub same_name : FileName → FileName → Bool
same_name [] [] = true
same_name [] (b ∷ bs) = false
same_name (a ∷ as') [] = false
same_name (a ∷ as') (b ∷ bs) = a == b && same_name as' bs

abbrev pub incr : ℤ → ℤ
incr (pos n) = pos (suc n)
incr (negsuc zero) = pos 0
incr (negsuc (suc n)) = negsuc n

abbrev pub decr : ℤ → ℤ
decr (pos (suc n)) = pos n
decr (pos zero) = negsuc 0
decr (negsuc n) = negsuc (suc n)

abbrev pub is_null : ℤ → Bool
is_null (pos n) = n == 0
is_null (negsuc n) = false

abbrev pub at_least : ℕ → ℤ → Bool
at_least k (pos n) = leb k n
at_least k (negsuc n) = false

abbrev pub max_opened_handles : ℕ
max_opened_handles = 255

abbrev pub max_clients : ℕ
max_clients = 237

pub record Handle : Type 0 where
  pub path : Option FileName
  pub refcount : ℤ
  pub fd : ℕ
  pub offset : ℕ
  pub dir_pos : ℤ
  pub dir : Option ℕ
  pub clients : List (Option ℕ)

-- An entry after `memset`.
unfoldable pub unused : Handle
unused = record {
  path = none;
  refcount = pos 0;
  fd = 0;
  offset = 0;
  dir_pos = pos 0;
  dir = none;
  clients = replicate max_clients none;
}

-- What the server closes.
pub data Closing : Type 0 where
  close closedir : ℕ → Closing

-- The table with the calls of close and closedir so far, the last one first.
pub record Server : Type 0 where
  pub handles : List Handle
  pub handles_count : ℤ
  pub closed : List Closing

abbrev pub handle_at : Server → ℕ → Handle
handle_at s i = get_or s.handles i unused

-- An `int` result: an index into the table, or a negative errno; a table that is counted wrongly
-- makes the server write behind its end.
pub data Grant : Type 0 where
  granted : ℕ → Grant
  failed : ℤ → Grant
  overrun : Grant

abbrev pub neg_enoent : ℤ
neg_enoent = negsuc 1

abbrev pub neg_enospc : ℤ
neg_enospc = negsuc 27

abbrev pub has_path : FileName → Option FileName → Bool
has_path p none = false
has_path p (some q) = same_name q p

unfoldable pub walk_handles : FileName → List Handle → Option ℕ
walk_handles p [] = none
walk_handles p (h ∷ hs) =
    let rest = Option.map (λ i. suc i) (walk_handles p hs) in
    if has_path p h.path then some 0 else rest

abbrev pub is_free : Option FileName → Bool
is_free none = true
is_free (some p) = false

-- The index at which the search for an entry without a path stops.
unfoldable pub free_slot : List Handle → ℕ
free_slot [] = 0
free_slot (h ∷ hs) = let rest = suc (free_slot hs) in if is_free h.path then 0 else rest

unfoldable pub add_file : Server → FileName → ℕ → Option ℕ → Server × Grant
add_file s p fd dir =
    let j = free_slot s.handles in
    if at_least max_opened_handles s.handles_count
    then (s, failed neg_enospc)
    else if ltb j max_opened_handles
    then (
      record s {
        handles = set s.handles j (record (handle_at s j) { path = some p; fd = fd; dir = dir });
        handles_count = incr s.handles_count;
      },
      granted j,
    )
    else (s, overrun)

abbrev pub is_client : ℕ → Option ℕ → Bool
is_client c none = false
is_client c (some d) = d == c

unfoldable pub lists : ℕ → List (Option ℕ) → Bool
lists c [] = false
lists c (x ∷ xs) = is_client c x || lists c xs

-- The first NULL replaced by the client.
unfoldable pub put_client : ℕ → List (Option ℕ) → Option (List (Option ℕ))
put_client c [] = none
put_client c (none ∷ xs) = some (some c ∷ xs)
put_client c (some d ∷ xs) = Option.map (λ ys. some d ∷ ys) (put_client c xs)

unfoldable pub add_client_to_file : ℕ → Handle → Option Handle
add_client_to_file c h =
    if lists c h.clients
    then some h
    else Option.map (λ cs. record h { clients = cs; refcount = incr h.refcount })
        (put_client c h.clients)

abbrev pub enrolled : Server → ℕ → Option Handle → Server × Grant
enrolled s i none = (s, failed neg_enoent)
enrolled s i (some h) = (record s { handles = set s.handles i h }, granted i)

abbrev pub enrol : ℕ → Server × Grant → Server × Grant
enrol c (s, granted i) = enrolled s i (add_client_to_file c (handle_at s i))
enrol c (s, failed e) = (s, failed e)
enrol c (s, overrun) = (s, overrun)

unfoldable pub request_file : Server → ℕ → FileName → ℕ → Option ℕ → Server × Grant
request_file s c p fd dir =
    enrol c
      (elim (walk_handles p s.handles) [ some i ↦ (s, granted i) | none ↦ add_file s p fd dir ])

unfoldable pub get_handle : Server → ℕ → Option Handle
get_handle s i = if ltb i max_opened_handles then some (handle_at s i) else none

-- The client's first seat made NULL.
unfoldable pub drop_client : ℕ → List (Option ℕ) → Option (List (Option ℕ))
drop_client c [] = none
drop_client c (x ∷ xs) =
    let rest = Option.map (λ ys. x ∷ ys) (drop_client c xs) in
    if is_client c x then some (none ∷ xs) else rest

-- The entry with one client less; the last client's seat closes it.
unfoldable pub give_up : Server → ℕ → Handle → Closing → Server
give_up s i h c =
    if is_null h.refcount
    then record s {
      handles = set s.handles i unused;
      handles_count = decr s.handles_count;
      closed = c ∷ s.closed;
    }
    else record s { handles = set s.handles i h }

abbrev pub closing : Handle → Closing
closing h = elim h.dir [ some d ↦ closedir d | none ↦ close h.fd ]

abbrev pub without : Handle → List (Option ℕ) → Handle
without h cs = record h { clients = cs; refcount = decr h.refcount }

abbrev pub released : Server → ℕ → Handle → Option (List (Option ℕ)) → Server × ℤ
released s i h none = (s, neg_enoent)
released s i h (some cs) = (give_up s i (without h cs) (closing h), pos 0)

unfoldable pub release_handle : Server → ℕ → ℕ → Server × ℤ
release_handle s c i = elim (get_handle s i) [
  | none ↦ (s, neg_enoent)
  | some h ↦ released s i h (drop_client c h.clients)
]

abbrev pub evicted : Server → ℕ → Handle → Option (List (Option ℕ)) → Server
evicted s i h none = s
evicted s i h (some cs) = give_up s i (without h cs) (close h.fd)

-- One round of the loop over the handles.
unfoldable pub leave_handle : ℕ → ℕ → Server → Server
leave_handle c i s =
    let h = handle_at s i in if is_free h.path then s else evicted s i h (drop_client c h.clients)

-- The rounds from handle `i` on, of which `n` are left.
unfoldable pub leave_from : ℕ → ℕ → ℕ → Server → Server
leave_from c i zero s = s
leave_from c i (suc n) s = leave_from c (suc i) n (leave_handle c i s)

unfoldable pub remove_client_from_handles : Server → ℕ → Server
remove_client_from_handles s c = leave_from c 0 max_opened_handles s

-- The zeroed table with which the server starts.
unfoldable pub start : Server
start = record { handles = replicate max_opened_handles unused; handles_count = pos 0; closed = [] }
