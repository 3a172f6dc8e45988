-- ===== src/IsobusServer/Handles/Invariant.antt =====
-- What the table of isobusfs/isobusfs_srv_fa.c always satisfies, and that each operation keeps it.
use can_utils.Base.{
  ℕ, ◌<◌, List, Bool, true, false, ◌==◌, Option, none, some, ◌≡◌, refl, ap, sym, ◌∙◌, subst, arith,
  length, set, replicate, if◌then◌else◌, ==_iff, length-set, length-replicate,
}
use can_utils.Base.Int.{ℤ, pos}
use can_utils.IsobusServer.Handles.{
  FileName, Handle, Server, Closing, unused, start, handle_at, max_clients, max_opened_handles,
}
use can_utils.IsobusServer.Handles.Clients.{taken, Once, taken-replicate, Once-replicate}
use can_utils.IsobusServer.Handles.Slots.{
  at, used, tick, used-set, at-set, used-replicate, at-replicate,
}

-- An entry: its count is that of the seats taken, no client has two, an entry without a path is
-- zeroed, and one with a path has a client.
pub record Good (h : Handle) : Type 0 where
  pub seats : length h.clients ≡ max_clients
  pub refs : h.refcount ≡ pos (taken h.clients)
  pub once : Once h.clients
  pub wiped : h.path ≡ none → h ≡ unused
  pub held : (p : FileName) → h.path ≡ some p → 0 < taken h.clients

-- The table: its entries are good, `handles_count` counts those in use, and no two have one path.
pub record IsServer (s : Server) : Type 0 where
  pub full : length s.handles ≡ max_opened_handles
  pub good : (i : ℕ) → Good (handle_at s i)
  pub counted : s.handles_count ≡ pos (used s.handles)
  pub distinct :
      (i j : ℕ) (p : FileName)
      → (handle_at s i).path ≡ some p
      → (handle_at s j).path ≡ some p
      → i ≡ j

pub unused_path : unused.path ≡ none
unfolding unused
unused_path = refl

pub unused-Good : Good unused
unfolding unused
unused-Good = record {
  seats = length-replicate {A = Option ℕ} max_clients none;
  refs = ap pos (sym (taken-replicate max_clients));
  once = Once-replicate max_clients;
  wiped = λ e. refl;
  held = λ p e. cc;
}

pub start-IsServer : IsServer start
unfolding start
start-IsServer = record {
  full = length-replicate max_opened_handles unused;
  good = λ i. subst Good (sym (at-replicate max_opened_handles i)) unused-Good;
  counted = ap pos (sym (used-replicate max_opened_handles));
  distinct = λ i j p e f. absurd (no_path i p e);
}
  where
    no_path :
        (i : ℕ) (p : FileName) → (at (replicate max_opened_handles unused) i).path ≡ some p → ⊥
    no_path i p e =
        cc (unused_path, sym e, ap (λ (h : Handle). h.path) (at-replicate max_opened_handles i))

-- A write of a good entry whose path is new to the others.
pub write-IsServer :
    (s : Server) (i : ℕ) (h : Handle) (n : ℤ) (closed : List Closing)
    → IsServer s
    → i < length s.handles
    → Good h
    → n ≡ pos (used (set s.handles i h))
    → ((j : ℕ) (p : FileName) → h.path ≡ some p → (handle_at s j).path ≡ some p → i ≡ j)
    → IsServer (record s { handles = set s.handles i h; handles_count = n; closed = closed })
write-IsServer s i h n closed v less g count new = record {
  full = length-set s.handles i h ∙ v.full;
  good = λ j. rw (at-set s.handles i j h less) (pick j (i == j));
  counted = count;
  distinct = λ j k p e f.
      apart j k p (i == j) (i == k) (==_iff i j).0 (==_iff i k).0
        (subst (λ (x : Handle). x.path ≡ some p) (at-set s.handles i j h less) e)
        (subst (λ (x : Handle). x.path ≡ some p) (at-set s.handles i k h less) f);
}
  where
    pick : (j : ℕ) (b : Bool) → Good (if b then h else at s.handles j)
    pick j true = g
    pick j false = v.good j

    apart :
        (j k : ℕ) (p : FileName) (a b : Bool)
        → (a ≡ true → i ≡ j)
        → (b ≡ true → i ≡ k)
        → (if a then h else at s.handles j).path ≡ some p
        → (if b then h else at s.handles k).path ≡ some p
        → j ≡ k
    apart j k p true true x y e f = sym (x refl) ∙ y refl
    apart j k p true false x y e f = sym (x refl) ∙ new k p e f
    apart j k p false true x y e f = sym (sym (y refl) ∙ new j p f e)
    apart j k p false false x y e f = v.distinct j k p e f

-- A write that keeps the path of the entry.
pub rewrite-IsServer :
    (s : Server) (i : ℕ) (h : Handle)
    → IsServer s
    → i < length s.handles
    → Good h
    → h.path ≡ (handle_at s i).path
    → IsServer (record s { handles = set s.handles i h })
rewrite-IsServer s i h v less g same =
    write-IsServer s i h s.handles_count s.closed v less g
      (v.counted ∙ ap pos (omega (arith, used-set s.handles i h less, ap tick same)))
      (λ j p e f. v.distinct i j p (sym same ∙ e) f)
