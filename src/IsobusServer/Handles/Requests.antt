-- ===== src/IsobusServer/Handles/Requests.antt =====
-- `isobusfs_srv_request_file` of isobusfs/isobusfs_srv_fa.c by its outcomes.
use mathlib.Core.Option
use can_utils.Base.{
  ℕ, zero, suc, ◌<◌, List, ◌∷◌, true, false, ◌||◌, ◌==◌, Option, none, some, ◌≡◌, refl, ap, sym,
  ◌∙◌, subst, arith, length, set, replicate, inl, inr, Bool-cases, Option-cases, lt→ltb,
  get_or-set_self,
}
use can_utils.Base.Int.{ℤ, pos, negsuc}
use can_utils.IsobusServer.Handles.{
  FileName, Handle, Server, Grant, granted, failed, unused, handle_at, lists, put_client,
  drop_client, add_client_to_file, add_file, request_file, walk_handles, free_slot, enrol, enrolled,
  incr, decr, without, max_clients, max_opened_handles, neg_enoent, neg_enospc, at_least,
}
use can_utils.IsobusServer.Handles.Clients.{
  Puts, put_client-Puts, lists-replicate, taken-replicate, Once-replicate,
}
use can_utils.IsobusServer.Handles.Slots.{
  Walks, used, tick, walk_handles-Walks, used-le-length, free_slot-free, used-set, has_path_iff,
  set-set, not_walked,
}
use can_utils.IsobusServer.Handles.Invariant.{
  Good, IsServer, unused_path, write-IsServer, rewrite-IsServer,
}

pub decr-incr : (n : ℤ) → decr (incr n) ≡ n
decr-incr (pos n) = refl
decr-incr (negsuc zero) = refl
decr-incr (negsuc (suc n)) = refl

-- An entry `g` that a client has joined. Giving the seat up leads back.
pub record Joined (c : ℕ) (h g : Handle) : Type 0 where
  pub good : Good g
  pub path : g.path ≡ h.path
  pub fd : g.fd ≡ h.fd
  pub dir : g.dir ≡ h.dir
  pub listed : (d : ℕ) → lists d g.clients ≡ ((c == d) || lists d h.clients)
  pub back :
      lists c h.clients ≡ false
      → (drop_client c g.clients ≡ some h.clients) × (without g h.clients ≡ h)

abbrev Joins : ℕ → Handle → Option Handle → Type 0
Joins c h none = Unit {0}
Joins c h (some g) = Joined c h g

seated :
    (c : ℕ) (h : Handle) (p : FileName) (r : Option (List (Option ℕ)))
    → Good h
    → h.path ≡ some p
    → lists c h.clients ≡ false
    → Puts c h.clients r
    → Joins c h (Option.map (λ cs. record h { clients = cs; refcount = incr h.refcount }) r)
seated c h p none g e new s = tt
seated c h p (some cs) g e new s = record {
  good = record {
    seats = s.0 ∙ g.seats;
    refs = ap incr g.refs ∙ ap pos (sym s.1);
    once = s.3 new g.once;
    wiped = λ n. cc;
    held = λ q k. omega (arith, s.1);
  };
  path = refl;
  fd = refl;
  dir = refl;
  listed = s.2;
  back = λ n. (s.4 n, ap (λ (k : ℤ). record h { refcount = k }) (decr-incr h.refcount));
}

pub add_client_to_file-Joins :
    (c : ℕ) (h : Handle) (p : FileName)
    → Good h
    → h.path ≡ some p
    → Joins c h (add_client_to_file c h)
unfolding add_client_to_file
add_client_to_file-Joins c h p g e = elim (Bool-cases (lists c h.clients)) [
  | inl old ↦ rw old (record {
    good = g;
    path = refl;
    fd = refl;
    dir = refl;
    listed = λ d. ground arith;
    back = λ new. cc;
  })
  | inr new ↦ rw new (seated c h p (put_client c h.clients) g e new (put_client-Puts c h.clients))
]

-- A new entry, with its first client.
abbrev pub opened : FileName → ℕ → Option ℕ → Handle
opened p fd dir = record unused { path = some p; fd = fd; dir = dir }

unfoldable pub first_client : ℕ → FileName → ℕ → Option ℕ → Handle
first_client c p fd dir = record (opened p fd dir) {
  refcount = pos 1;
  clients = some c ∷ replicate 236 none;
}

add_client_to_file-opened :
    (c : ℕ) (p : FileName) (fd : ℕ) (dir : Option ℕ)
    → add_client_to_file c (opened p fd dir) ≡ some (first_client c p fd dir)
unfolding add_client_to_file first_client unused put_client
add_client_to_file-opened c p fd dir = rw (lists-replicate c max_clients)

pub first_client-Good :
    (c : ℕ) (p : FileName) (fd : ℕ) (dir : Option ℕ) → Good (first_client c p fd dir)
unfolding first_client
first_client-Good c p fd dir = record {
  seats = omega arith;
  refs = ap pos (omega (arith, taken-replicate 236));
  once = (lists-replicate c 236, Once-replicate 236);
  wiped = λ e. cc;
  held = λ q e. omega arith;
}

pub data Requests (s : Server) (c : ℕ) (p : FileName) (fd : ℕ) (dir : Option ℕ)
    : Server × Grant → Type 0 where
  shared :
      (i : ℕ) (h : Handle)
      → walk_handles p s.handles ≡ some i
      → (handle_at s i).path ≡ some p
      → i < max_opened_handles
      → Joined c (handle_at s i) h
      → Requests s c p fd dir (record s { handles = set s.handles i h }, granted i)
  crowded :
      (i : ℕ) → walk_handles p s.handles ≡ some i → Requests s c p fd dir (s, failed neg_enoent)
  added :
      (i : ℕ)
      → walk_handles p s.handles ≡ none
      → handle_at s i ≡ unused
      → i < max_opened_handles
      → Requests s c p fd dir (
        record s {
          handles = set s.handles i (first_client c p fd dir);
          handles_count = incr s.handles_count;
        },
        granted i,
      )
  exhausted :
      walk_handles p s.handles ≡ none
      → used s.handles ≡ max_opened_handles
      → Requests s c p fd dir (s, failed neg_enospc)

join :
    (s : Server) (c : ℕ) (p : FileName) (fd : ℕ) (dir : Option ℕ) (i : ℕ) (r : Option Handle)
    → walk_handles p s.handles ≡ some i
    → (handle_at s i).path ≡ some p
    → i < max_opened_handles
    → Joins c (handle_at s i) r
    → Requests s c p fd dir (enrolled s i r)
join s c p fd dir i none w e less j = crowded i w
join s c p fd dir i (some h) w e less j = shared i h w e less j

add :
    (s : Server) (c : ℕ) (p : FileName) (fd : ℕ) (dir : Option ℕ)
    → IsServer s
    → walk_handles p s.handles ≡ none
    → Requests s c p fd dir (enrol c (add_file s p fd dir))
unfolding add_file
add s c p fd dir v w = elim (Bool-cases (at_least max_opened_handles s.handles_count)) [
  | inl full ↦ rw full (exhausted w (room full))
  | inr less ↦
      let (low, path) = free_slot-free s.handles (free less) in
      let j = free_slot s.handles in
      let low' : j < max_opened_handles = omega (arith, v.full) in
      let e : handle_at s j ≡ unused = (v.good j).wiped path in
      rw (less, lt→ltb j max_opened_handles low')
        (subst (Requests s c p fd dir) (sym (enters j e low)) (added j w e low'))
]
  where
    room : at_least max_opened_handles s.handles_count ≡ true → used s.handles ≡ max_opened_handles
    room h = ground (arith, v.counted, v.full, used-le-length s.handles)

    free : at_least max_opened_handles s.handles_count ≡ false → used s.handles < length s.handles
    free h = ground (arith, v.counted, v.full)

    enters :
        (j : ℕ)
        → handle_at s j ≡ unused
        → j < length s.handles
        → ◌≡◌ {A = Server × Grant}
            (enrol c (
              record s {
                handles =
                    set s.handles j (record (handle_at s j) { path = some p; fd = fd; dir = dir });
                handles_count = incr s.handles_count;
              },
              granted j,
            ))
            (
              record s {
                handles = set s.handles j (first_client c p fd dir);
                handles_count = incr s.handles_count;
              },
              granted j,
            )
    enters j e less = rw e (
        rw (get_or-set_self s.handles j (opened p fd dir) unused less) (
          rw (add_client_to_file-opened c p fd dir)
            (rw (set-set s.handles j (opened p fd dir) (first_client c p fd dir)))))

pub request_file-Requests :
    (s : Server) (c : ℕ) (p : FileName) (fd : ℕ) (dir : Option ℕ)
    → IsServer s
    → Requests s c p fd dir (request_file s c p fd dir)
unfolding request_file
request_file-Requests s c p fd dir v = elim (Option-cases (walk_handles p s.handles)) [
  | inl w ↦ rw w (add s c p fd dir v w)
  | inr (i, w) ↦
      let (low, hit) = subst (Walks p s.handles) w (walk_handles-Walks p s.handles) in
      let path = (has_path_iff p (handle_at s i).path).0 hit in
      rw w (
        join s c p fd dir i _ w path (omega (arith, v.full))
          (add_client_to_file-Joins c (handle_at s i) p (v.good i) path))
]

pub request_file-IsServer :
    {s : Server} {c : ℕ} {p : FileName} {fd : ℕ} {dir : Option ℕ} {r : Server × Grant}
    → IsServer s
    → Requests s c p fd dir r
    → IsServer r.0
unfolding first_client
request_file-IsServer {s} v (shared i h w e less j) =
    rewrite-IsServer s i h v (omega (arith, v.full)) j.good j.path
request_file-IsServer v (crowded i w) = v
request_file-IsServer {s} {c} {p} {fd} {dir} v (added i w e less) =
    write-IsServer s i (first_client c p fd dir) (incr s.handles_count) s.closed v
      (omega (arith, v.full)) (first_client-Good c p fd dir)
      (ap incr v.counted
        ∙ ap pos (
            omega (
              arith,
              used-set s.handles i (first_client c p fd dir) (omega (arith, v.full)),
              ap (λ (h : Handle). tick h.path) e,
              ap tick unused_path,
            )))
      (λ j q f k. absurd (not_walked p s.handles j w (k ∙ sym f)))
request_file-IsServer v (exhausted w u) = v
