-- ===== src/IsobusServer/Handles/Grants.antt =====
-- What a client has after `isobusfs_srv_request_file` of isobusfs/isobusfs_srv_fa.c.
use can_utils.Base.{
  ℕ, ◌<◌, ◌⊎◌, true, ◌==◌, Option, none, some, ◌≡◌, ◌≢◌, refl, ap, sym, ◌∙◌, subst, arith, length,
  set, ==_iff, inl, inr, ◌↔◌, Bool-cases, get_or-set_self, ==_refl, ne→==,
}
use can_utils.Base.Int.{ℤ}
use can_utils.IsobusServer.Handles.{
  FileName, Handle, Server, Grant, granted, failed, overrun, unused, handle_at, lists, request_file,
  max_opened_handles, neg_enoent, neg_enospc, walk_handles,
}
use can_utils.IsobusServer.Handles.Clients.{lists-replicate}
use can_utils.IsobusServer.Handles.Slots.{at, used, at-set}
use can_utils.IsobusServer.Handles.Invariant.{IsServer, unused_path}
use can_utils.IsobusServer.Handles.Requests.{
  Requests, shared, crowded, added, exhausted, first_client, request_file-Requests,
  request_file-IsServer,
}
use can_utils.IsobusServer.Handles.Leave.{holds, unused_lists}

-- A table in which the client has got the handle `i` of the path.
pub record Granted (s : Server) (c : ℕ) (p : FileName) (t : Server) (i : ℕ) : Type 0 where
  pub valid : IsServer t
  pub low : i < max_opened_handles
  pub path : (handle_at t i).path ≡ some p
  pub listed : holds t c i ≡ true
  pub paths : (j : ℕ) (q : FileName) → (handle_at s j).path ≡ some q → (handle_at t j).path ≡ some q
  pub others : (d j : ℕ) → c ≢ d → holds t d j ≡ holds s d j
  pub elsewhere : (j : ℕ) → i ≢ j → handle_at t j ≡ handle_at s j
  pub nothing_closed : t.closed ≡ s.closed

-- The entry that was written, and what the others are.
record Wrote (s : Server) (c : ℕ) (p : FileName) (i : ℕ) (g : Handle) : Type 0 where
  path : g.path ≡ some p
  listed : lists c g.clients ≡ true
  keeps : (q : FileName) → (handle_at s i).path ≡ some q → g.path ≡ some q
  others : (d : ℕ) → c ≢ d → lists d g.clients ≡ holds s d i

abbrev Either : Server → ℕ → Handle → ℕ → Handle → Type 0
Either s i g j x = ((i ≡ j) × (x ≡ g)) ⊎ (x ≡ handle_at s j)

either :
    (s : Server) (i : ℕ) (g : Handle) (j : ℕ)
    → i < length s.handles
    → Either s i g j (at (set s.handles i g) j)
either s i g j less = elim (Bool-cases (i == j)) [
  | inl e ↦ inl ((==_iff i j).0 e, rw (at-set s.handles i j g less, e))
  | inr ne ↦ inr (rw (at-set s.handles i j g less, ne))
]

module _ (s : Server) (c : ℕ) (p : FileName) (i : ℕ) (g : Handle) (w : Wrote s c p i g) where
  kept_path :
      (j : ℕ) (x : Handle) (q : FileName)
      → Either s i g j x
      → (handle_at s j).path ≡ some q
      → x.path ≡ some q
  kept_path j x q (inl (e, f)) h =
      ap (λ (y : Handle). y.path) f
      ∙ w.keeps q (subst (λ (k : ℕ). (handle_at s k).path ≡ some q) (sym e) h)
  kept_path j x q (inr f) h = ap (λ (y : Handle). y.path) f ∙ h

  kept_others : (d j : ℕ) (x : Handle) → Either s i g j x → c ≢ d → lists d x.clients ≡ holds s d j
  kept_others d j x (inl (e, f)) ne =
      subst (λ (k : ℕ). lists d x.clients ≡ holds s d k) e
        (ap (λ (y : Handle). lists d y.clients) f ∙ w.others d ne)
  kept_others d j x (inr f) ne = ap (λ (y : Handle). lists d y.clients) f

  kept_elsewhere : (j : ℕ) (x : Handle) → Either s i g j x → i ≢ j → x ≡ handle_at s j
  kept_elsewhere j x (inl (e, f)) ne = absurd (ne e)
  kept_elsewhere j x (inr f) ne = f

  wrote-Granted :
      (n : ℤ)
      → let t : Server = record s { handles = set s.handles i g; handles_count = n } in
        IsServer t → i < max_opened_handles → i < length s.handles → Granted s c p t i
  wrote-Granted n v low less =
      let self = get_or-set_self s.handles i g unused less in
      record {
        valid = v;
        low = low;
        path = ap (λ (y : Handle). y.path) self ∙ w.path;
        listed = ap (λ (y : Handle). lists c y.clients) self ∙ w.listed;
        paths = λ j q. kept_path j (at (set s.handles i g) j) q (either s i g j less);
        others = λ d j. kept_others d j (at (set s.handles i g) j) (either s i g j less);
        elsewhere = λ j. kept_elsewhere j (at (set s.handles i g) j) (either s i g j less);
        nothing_closed = refl;
      }

-- The path is open in some entry.
abbrev pub IsOpen : Server → FileName → Type 0
IsOpen s p = (i : ℕ) × (walk_handles p s.handles ≡ some i)

abbrev pub Granting : Server → ℕ → FileName → Server × Grant → Type 0
Granting s c p (t, granted i) = Granted s c p t i
Granting s c p (t, failed e) =
    (t ≡ s)
    × (((walk_handles p s.handles ≡ none)
          × (used s.handles ≡ max_opened_handles)
          × (e ≡ neg_enospc))
        ⊎ (IsOpen s p × (e ≡ neg_enoent)))
Granting s c p (t, overrun) = ⊥

outcome :
    {s : Server} {c : ℕ} {p : FileName} {fd : ℕ} {dir : Option ℕ} {r : Server × Grant}
    → IsServer s
    → Requests s c p fd dir r
    → Granting s c p r
unfolding first_client lists
outcome {s} {c} {p} {fd} {dir} v (shared i h w e less j) =
    wrote-Granted s c p i h
      (record {
        path = j.path ∙ e;
        listed = rw (j.listed c, ==_refl c);
        keeps = λ q k. j.path ∙ k;
        others = λ d ne. rw (j.listed d, ne→== c d ne);
      })
      s.handles_count (request_file-IsServer {fd = fd} {dir = dir} v (shared i h w e less j)) less
      (omega (arith, v.full))
outcome v (crowded i w) = (refl, inr ((i, w), refl))
outcome {s} {c} {p} {fd} {dir} v (added i w e less) =
    wrote-Granted s c p i (first_client c p fd dir)
      (record {
        path = refl;
        listed = rw (==_refl c);
        keeps = λ q k. cc (unused_path, ap (λ (h : Handle). h.path) e);
        others = λ d ne. rw (ne→== c d ne) (
            lists-replicate d 236
            ∙ sym (ap (λ (h : Handle). lists d h.clients) e ∙ unused_lists d));
      })
      _ (request_file-IsServer v (added i w e less)) less (omega (arith, v.full))
outcome v (exhausted w u) = (refl, inl (w, u, refl))

-- A request for a path, on every branch. A granted handle is below 255, is that of an entry with
-- the path, and lists the client; open files keep their paths, other clients their seats, other
-- entries everything, and nothing is closed. A failed one leaves the server as it is: all 255 entries are in
-- use and none has the path, or the entry with the path has no seat left. The table is never written
-- behind its end.
pub request_file-Granting :
    (s : Server) (c : ℕ) (p : FileName) (fd : ℕ) (dir : Option ℕ)
    → IsServer s
    → Granting s c p (request_file s c p fd dir)
request_file-Granting s c p fd dir v = outcome v (request_file-Requests s c p fd dir v)

-- Two requests, granted one after the other, get the same handle exactly when they name the same path.
pub handles_identify :
    (s t u : Server) (c d : ℕ) (p q : FileName) (fd e : ℕ) (dir f : Option ℕ) (i j : ℕ)
    → IsServer s
    → request_file s c p fd dir ≡ (t, granted i)
    → request_file t d q e f ≡ (u, granted j)
    → (i ≡ j) ↔ (p ≡ q)
handles_identify s t u c d p q fd e dir f i j v first second =
    let a = subst (Granting s c p) first (request_file-Granting s c p fd dir v) in
    let b = subst (Granting t d q) second (request_file-Granting t d q e f a.valid) in
    let old : (handle_at u i).path ≡ some p = b.paths i p a.path in
    (
      λ same. cc (subst (λ (k : ℕ). (handle_at u k).path ≡ some p) same old, b.path),
      λ same. b.valid.distinct i j q (old ∙ ap some same) b.path,
    )
