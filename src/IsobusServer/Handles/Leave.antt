-- ===== src/IsobusServer/Handles/Leave.antt =====
-- What `isobusfs_srv_release_handle` and `isobusfs_srv_remove_client_from_handles` of
-- isobusfs/isobusfs_srv_fa.c change.
use can_utils.Base.{
  ℕ, zero, suc, ◌+◌, ◌-◌, ◌<◌, ◌⊎◌, List, ◌∷◌, Bool, true, false, ◌==◌, Option, some, ◌≡◌, ◌≢◌,
  refl, ap, sym, ◌∙◌, subst, arith, length, set, if◌then◌else◌, ==_iff, inl, inr, Bool-cases,
  get_or-set_self,
}
use can_utils.Base.Int.{pos}
use can_utils.IsobusServer.Handles.{
  FileName, Handle, Server, Closing, unused, handle_at, lists, give_up, without, decr, is_null,
  max_clients, max_opened_handles,
}
use can_utils.IsobusServer.Handles.Clients.{taken, Drops, lists-replicate, lists_none}
use can_utils.IsobusServer.Handles.Slots.{at, used, tick, used-set, at-set}
use can_utils.IsobusServer.Handles.Invariant.{
  Good, IsServer, unused_path, unused-Good, write-IsServer, rewrite-IsServer,
}

-- The client is listed by the handle.
abbrev pub holds : Server → ℕ → ℕ → Bool
holds s c i = lists c (handle_at s i).clients

-- A table in which only seats of the client were given up.
pub record Kept (s : Server) (c : ℕ) (t : Server) : Type 0 where
  pub valid : IsServer t
  pub others : (d i : ℕ) → c ≢ d → holds t d i ≡ holds s d i
  pub paths :
      (d i : ℕ)
      → holds t d i ≡ true
      → ((handle_at t i).path ≡ (handle_at s i).path) × (holds s d i ≡ true)
  pub untouched : (i : ℕ) → holds s c i ≡ false → handle_at t i ≡ handle_at s i

pub Kept-trans : {s t u : Server} (c : ℕ) → Kept s c t → Kept t c u → Kept s c u
Kept-trans {s} {t} {u} c a b = record {
  valid = b.valid;
  others = λ d i ne. b.others d i ne ∙ a.others d i ne;
  paths = λ d i h. let (e, k) = b.paths d i h in let (f, l) = a.paths d i k in (e ∙ f, l);
  untouched = λ i h.
      let e = a.untouched i h in b.untouched i (ap (λ (x : Handle). lists c x.clients) e ∙ h) ∙ e;
}

pub unused_lists : (c : ℕ) → lists c unused.clients ≡ false
unfolding unused
unused_lists c = lists-replicate c max_clients

-- An entry that has lost a client.
record Lost (c : ℕ) (h g : Handle) : Type 0 where
  good : Good g
  gone : lists c g.clients ≡ false
  others : (d : ℕ) → c ≢ d → lists d g.clients ≡ lists d h.clients
  same_path : (d : ℕ) → lists d g.clients ≡ true → (g.path ≡ h.path) × (lists d h.clients ≡ true)

-- An entry after the write of `g` at `i`.
abbrev Reads : Server → ℕ → Handle → ℕ → Handle → Type 0
Reads s i g j x = ((i ≡ j) × (x ≡ g)) ⊎ (x ≡ handle_at s j)

write-Reads :
    (s t : Server) (i : ℕ) (g : Handle)
    → t.handles ≡ set s.handles i g
    → i < length s.handles
    → (j : ℕ) → Reads s i g j (handle_at t j)
write-Reads s t i g e less j =
    let read = ap (λ (hs : List Handle). at hs j) e ∙ at-set s.handles i j g less in
    elim (Bool-cases (i == j)) [
      | inl same ↦
          inl ((==_iff i j).0 same, read ∙ ap (λ (b : Bool). if b then g else handle_at s j) same)
      | inr ne ↦ inr (read ∙ ap (λ (b : Bool). if b then g else handle_at s j) ne)
    ]

module _ (s : Server) (c i : ℕ) (g : Handle) (had : holds s c i ≡ true)
    (l : Lost c (handle_at s i) g) where
  read_others :
      (j : ℕ) (x : Handle) (d : ℕ) → Reads s i g j x → c ≢ d → lists d x.clients ≡ holds s d j
  read_others j x d (inl (e, f)) ne =
      subst (λ (k : ℕ). lists d x.clients ≡ holds s d k) e (rw f (l.others d ne))
  read_others j x d (inr f) ne = rw f

  read_paths :
      (j : ℕ) (x : Handle) (d : ℕ)
      → Reads s i g j x
      → lists d x.clients ≡ true
      → (x.path ≡ (handle_at s j).path) × (holds s d j ≡ true)
  read_paths j x d (inl (e, f)) h =
      subst (λ (k : ℕ). (x.path ≡ (handle_at s k).path) × (holds s d k ≡ true)) e
        (let (p, q) = l.same_path d (ap (λ (y : Handle). lists d y.clients) (sym f) ∙ h) in
          (ap (λ (y : Handle). y.path) f ∙ p, q))
  read_paths j x d (inr f) h =
      (ap (λ (y : Handle). y.path) f, ap (λ (y : Handle). lists d y.clients) (sym f) ∙ h)

  read_untouched : (j : ℕ) (x : Handle) → Reads s i g j x → holds s c j ≡ false → x ≡ handle_at s j
  read_untouched j x (inl (e, f)) h = cc (ap (λ (k : ℕ). holds s c k) e)
  read_untouched j x (inr f) h = f

  read_gone : (x : Handle) → x ≡ g → lists c x.clients ≡ false
  read_gone x e = rw e l.gone

  write-Kept :
      (t : Server)
      → IsServer t
      → t.handles ≡ set s.handles i g
      → i < length s.handles
      → Kept s c t × (holds t c i ≡ false)
  write-Kept t v e less =
      let read = write-Reads s t i g e less in
      let kept : Kept s c t = record {
        valid = v;
        others = λ d j ne. read_others j (handle_at t j) d (read j) ne;
        paths = λ d j h. read_paths j (handle_at t j) d (read j) h;
        untouched = λ j h. read_untouched j (handle_at t j) (read j) h;
      } in
      (
        kept,
        read_gone (handle_at t i)
            (ap (λ (hs : List Handle). at hs i) e ∙ get_or-set_self s.handles i g unused less),
      )

decr_pos : (n : ℕ) → 0 < n → decr (pos n) ≡ pos (n - 1)
decr_pos zero h = absurd (omega arith)
decr_pos (suc n) h = ap pos (omega arith)

refs_left :
    (c : ℕ) (h : Handle) (cs : List (Option ℕ))
    → Good h
    → Drops c h.clients (some cs)
    → decr h.refcount ≡ pos (taken cs)
refs_left c h cs g d =
    ap decr g.refs ∙ decr_pos (taken h.clients) (omega (arith, d.1)) ∙ ap pos (omega (arith, d.1))

unused-Lost :
    (c : ℕ) (h : Handle) (cs : List (Option ℕ))
    → Drops c h.clients (some cs)
    → taken cs ≡ 0
    → Lost c h unused
unused-Lost c h cs d z = record {
  good = unused-Good;
  gone = unused_lists c;
  others = λ e ne. unused_lists e ∙ sym (lists_none e cs z) ∙ d.4 e ne;
  same_path = λ e k. cc (unused_lists e);
}

without-Lost :
    (c : ℕ) (h : Handle) (p : FileName) (cs : List (Option ℕ))
    → Good h
    → h.path ≡ some p
    → Drops c h.clients (some cs)
    → 0 < taken cs
    → Lost c h (without h cs)
without-Lost c h p cs g e d left = record {
  good = record {
    seats = d.0 ∙ g.seats;
    refs = refs_left c h cs g d;
    once = d.6 g.once;
    wiped = λ n. cc;
    held = λ q k. left;
  };
  gone = d.3 g.once;
  others = d.4;
  same_path = λ f k. (refl, kept f k (lists f h.clients) refl);
}
  where
    kept :
        (f : ℕ) → lists f cs ≡ true → (b : Bool) → lists f h.clients ≡ b → lists f h.clients ≡ true
    kept f k true e = e
    kept f k false e = cc (d.5 f e)

pub give_up-Kept :
    (s : Server) (c i : ℕ) (p : FileName) (cs : List (Option ℕ)) (k : Closing)
    → IsServer s
    → i < max_opened_handles
    → (handle_at s i).path ≡ some p
    → Drops c (handle_at s i).clients (some cs)
    → Kept s c (give_up s i (without (handle_at s i) cs) k)
      × (holds (give_up s i (without (handle_at s i) cs) k) c i ≡ false)
unfolding give_up
give_up-Kept s c i p cs k v less e d = elim (Bool-cases (is_null (decr (handle_at s i).refcount))) [
  | inl last ↦ rw last (
      write-Kept s c i unused d.2
        (unused-Lost c (handle_at s i) cs d (null (ap is_null (sym refs) ∙ last))) _
        (write-IsServer s i unused (decr s.handles_count) (k ∷ s.closed) v (omega (arith, v.full))
          unused-Good count (λ j q f. cc unused_path))
        refl (omega (arith, v.full)))
  | inr more ↦
      let l =
        without-Lost c (handle_at s i) p cs (v.good i) e d (seats (ap is_null (sym refs) ∙ more)) in
      rw more (
        write-Kept s c i (without (handle_at s i) cs) d.2 l _
          (rewrite-IsServer s i (without (handle_at s i) cs) v (omega (arith, v.full)) l.good refl)
          refl (omega (arith, v.full)))
]
  where
    refs : decr (handle_at s i).refcount ≡ pos (taken cs)
    refs = refs_left c (handle_at s i) cs (v.good i) d

    null : is_null (pos (taken cs)) ≡ true → taken cs ≡ 0
    null h = ground arith

    seats : is_null (pos (taken cs)) ≡ false → 0 < taken cs
    seats h = ground arith

    one : used (set s.handles i unused) + 1 ≡ used s.handles
    one =
        omega (
          arith,
          used-set s.handles i unused (omega (arith, v.full)),
          ap tick e,
          ap tick unused_path,
        )

    count : decr s.handles_count ≡ pos (used (set s.handles i unused))
    count =
        ap decr v.counted
        ∙ decr_pos (used s.handles) (omega (arith, one))
        ∙ ap pos (omega (arith, one))
