-- ===== src/IsobusServer/Handles/RoundTrip.antt =====
-- A handle of isobusfs/isobusfs_srv_fa.c requested and released.
use can_utils.Base.{
  ℕ, ◌<◌, List, ◌∷◌, false, Option, none, some, ◌≡◌, ◌≢◌, ◌⊎◌, inl, inr, refl, ap, ◌∙◌, subst,
  arith, length, set, replicate, get_or-set_self, ==_refl,
}
use can_utils.Base.Int.{ℤ, pos}
use can_utils.IsobusServer.Handles.{
  FileName, Handle, Server, Grant, Closing, close, closedir, granted, failed, overrun, unused,
  handle_at, request_file, max_opened_handles, walk_handles, release_handle, drop_client, without,
  closing, incr, give_up, is_null,
}
use can_utils.IsobusServer.Handles.Slots.{set-set_back, not_walked}
use can_utils.IsobusServer.Handles.Invariant.{IsServer}
use can_utils.IsobusServer.Handles.Requests.{
  Requests, shared, crowded, added, exhausted, Joined, first_client, opened, request_file-Requests,
  decr-incr,
}
use can_utils.IsobusServer.Handles.Leave.{holds}
use can_utils.IsobusServer.Handles.Removal.{get_handle-low}

-- How a file or a directory is closed that a request has opened.
abbrev pub closed_by : ℕ → Option ℕ → Closing
closed_by fd none = close fd
closed_by fd (some d) = closedir d

-- What a release closes: nothing if some entry had the path before the request, and else the one
-- descriptor or stream of the request.
abbrev pub Closes : Server → FileName → ℕ → Option ℕ → List Closing → Type 0
Closes s p fd dir closed =
    (((i : ℕ) × ((handle_at s i).path ≡ some p)) × (closed ≡ s.closed))
    ⊎ (((i : ℕ) → (handle_at s i).path ≢ some p) × (closed ≡ closed_by fd dir ∷ s.closed))

-- The server after a release, and the result 0.
abbrev pub Released : Server → FileName → ℕ → Option ℕ → Server × ℤ → Type 0
Released s p fd dir r =
    (r.0.handles ≡ s.handles)
    × (r.0.handles_count ≡ s.handles_count)
    × Closes s p fd dir r.0.closed
    × (r.1 ≡ pos 0)

closing-opened :
    (p : FileName) (fd : ℕ) (dir : Option ℕ) → closing (opened p fd dir) ≡ closed_by fd dir
closing-opened p fd none = refl
closing-opened p fd (some d) = refl

release-written :
    (s : Server) (c i : ℕ) (g : Handle) (cs : List (Option ℕ))
    → i < max_opened_handles
    → i < length s.handles
    → drop_client c g.clients ≡ some cs
    → release_handle (record s { handles = set s.handles i g }) c i
      ≡ (give_up (record s { handles = set s.handles i g }) i (without g cs) (closing g), pos 0)
unfolding release_handle give_up
release-written s c i g cs low less d =
    rw (get_handle-low (record s { handles = set s.handles i g }) i low, release_handle)
      (rw (get_or-set_self s.handles i g unused less) (rw d))

abbrev Restores : Server → ℕ → FileName → ℕ → Option ℕ → Server × Grant → Type 0
Restores s c p fd dir (t, granted i) = Released s p fd dir (release_handle t c i)
Restores s c p fd dir (t, failed e) = Unit {0}
Restores s c p fd dir (t, overrun) = Unit {0}

Restores-shared :
    (s : Server) (c : ℕ) (p : FileName) (fd : ℕ) (dir : Option ℕ) (i : ℕ) (h : Handle)
    → IsServer s
    → walk_handles p s.handles ≡ some i
    → (handle_at s i).path ≡ some p
    → i < max_opened_handles
    → Joined c (handle_at s i) h
    → holds s c i ≡ false
    → Restores s c p fd dir (record s { handles = set s.handles i h }, granted i)
unfolding give_up
Restores-shared s c p fd dir i h v w e less j new =
    let (d, back) = j.back new in
    rw (release-written s c i h (handle_at s i).clients less (omega (arith, v.full)) d) (
      rw (ap (λ (x : Handle). is_null x.refcount) back ∙ busy, back)
        (
          set-set_back s.handles i (handle_at s i) h refl (omega (arith, v.full)),
          refl,
          inl ((i, e), refl),
          refl,
        ))
  where
    busy : is_null (handle_at s i).refcount ≡ false
    busy = ap is_null (v.good i).refs ∙ ground (arith, (v.good i).held p e)

Restores-added :
    (s : Server) (c : ℕ) (p : FileName) (fd : ℕ) (dir : Option ℕ) (i : ℕ)
    → IsServer s
    → walk_handles p s.handles ≡ none
    → handle_at s i ≡ unused
    → i < max_opened_handles
    → Restores s c p fd dir (
      record s {
        handles = set s.handles i (first_client c p fd dir);
        handles_count = incr s.handles_count;
      },
      granted i,
    )
unfolding give_up first_client drop_client
Restores-added s c p fd dir i v w e less =
    let t : Server = record s { handles_count = incr s.handles_count } in
    rw
      (release-written t c i (first_client c p fd dir) (none ∷ replicate 236 none) less
        (omega (arith, v.full)) (rw (==_refl c)))
      (
        set-set_back s.handles i unused (first_client c p fd dir) e (omega (arith, v.full)),
        decr-incr s.handles_count,
        inr (λ j f. not_walked p s.handles j w f, ap (λ x. x ∷ s.closed) (closing-opened p fd dir)),
        refl,
      )

restores :
    {s : Server} {c : ℕ} {p : FileName} {fd : ℕ} {dir : Option ℕ} {r : Server × Grant}
    → IsServer s
    → ((j : ℕ) → (handle_at s j).path ≡ some p → holds s c j ≡ false)
    → Requests s c p fd dir r
    → Restores s c p fd dir r
restores {s} {c} {p} {fd} {dir} v new (shared i h w e less j) =
    Restores-shared s c p fd dir i h v w e less j (new i e)
restores v new (crowded i w) = tt
restores {s} {c} {p} {fd} {dir} v new (added i w e less) = Restores-added s c p fd dir i v w e less
restores v new (exhausted w u) = tt

-- A handle that a client gets for a path it does not hold, and releases at once: the release
-- succeeds, and the table and its count are as before the request. Nothing is closed if the path was
-- open in some entry before the request; if not, exactly the directory stream of the request is
-- closed by closedir, or its descriptor by close where it has none.
pub release-request :
    (s t : Server) (c : ℕ) (p : FileName) (fd : ℕ) (dir : Option ℕ) (i : ℕ)
    → IsServer s
    → ((j : ℕ) → (handle_at s j).path ≡ some p → holds s c j ≡ false)
    → request_file s c p fd dir ≡ (t, granted i)
    → Released s p fd dir (release_handle t c i)
release-request s t c p fd dir i v new e =
    subst (Restores s c p fd dir) e (restores v new (request_file-Requests s c p fd dir v))
