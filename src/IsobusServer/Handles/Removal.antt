-- ===== src/IsobusServer/Handles/Removal.antt =====
-- `isobusfs_srv_release_handle` and `isobusfs_srv_remove_client_from_handles` of
-- isobusfs/isobusfs_srv_fa.c, whole.
use native.Mathlib.Decide.{dec_lt}
use can_utils.Base.{
  ℕ, zero, suc, ◌+◌, ◌≤◌, ◌<◌, List, true, false, Option, none, some, ◌≡◌, refl, ap, ◌∙◌, subst,
  arith, inl, inr, Bool-cases, lt→ltb, le→ltb,
}
use can_utils.IsobusServer.Handles.{
  FileName, Handle, Server, handle_at, lists, is_free, drop_client, get_handle, closing, released,
  release_handle, evicted, leave_handle, leave_from, remove_client_from_handles, max_opened_handles,
  close,
}
use can_utils.IsobusServer.Handles.Clients.{Drops, drop_client-Drops}
use can_utils.IsobusServer.Handles.Slots.{at_outside}
use can_utils.IsobusServer.Handles.Invariant.{IsServer}
use can_utils.IsobusServer.Handles.Leave.{holds, Kept, Kept-trans, unused_lists, give_up-Kept}

-- Nobody leaves.
stay-Kept : (s : Server) (c : ℕ) → IsServer s → Kept s c s
stay-Kept s c v = record {
  valid = v;
  others = λ d i ne. refl;
  paths = λ d i h. (refl, h);
  untouched = λ i h. refl;
}

path_of : (h : Handle) → is_free h.path ≡ false → (p : FileName) × (h.path ≡ some p)
path_of h e = go h.path refl e
  where
    go : (o : Option FileName) → h.path ≡ o → is_free o ≡ false → (p : FileName) × (h.path ≡ some p)
    go none f e = cc
    go (some p) f e = (p, f)

free_path : (h : Handle) → is_free h.path ≡ true → h.path ≡ none
free_path h e = go h.path refl e
  where
    go : (o : Option FileName) → h.path ≡ o → is_free o ≡ true → h.path ≡ none
    go none f e = f
    go (some p) f e = cc

free_lists :
    (s : Server) (c i : ℕ) → IsServer s → is_free (handle_at s i).path ≡ true → holds s c i ≡ false
free_lists s c i v e =
    ap (λ (h : Handle). lists c h.clients) ((v.good i).wiped (free_path (handle_at s i) e))
    ∙ unused_lists c

evicted-Kept :
    (s : Server) (c i : ℕ) (p : FileName) (r : Option (List (Option ℕ)))
    → IsServer s
    → i < max_opened_handles
    → (handle_at s i).path ≡ some p
    → Drops c (handle_at s i).clients r
    → Kept s c (evicted s i (handle_at s i) r) × (holds (evicted s i (handle_at s i) r) c i ≡ false)
evicted-Kept s c i p none v less e d = (stay-Kept s c v, d)
evicted-Kept s c i p (some cs) v less e d =
    give_up-Kept s c i p cs (close (handle_at s i).fd) v less e d

leave_handle-Kept :
    (s : Server) (c i : ℕ)
    → IsServer s
    → i < max_opened_handles
    → Kept s c (leave_handle c i s) × (holds (leave_handle c i s) c i ≡ false)
unfolding leave_handle
leave_handle-Kept s c i v less = elim (Bool-cases (is_free (handle_at s i).path)) [
  | inl free ↦ rw free (stay-Kept s c v, free_lists s c i v free)
  | inr busy ↦
      let (p, e) = path_of (handle_at s i) busy in
      rw busy (
        evicted-Kept s c i p (drop_client c (handle_at s i).clients) v less e
          (drop_client-Drops c (handle_at s i).clients))
]

-- Once away, a client stays away.
away : {s t : Server} (c i : ℕ) → Kept s c t → holds s c i ≡ false → holds t c i ≡ false
away c i k h = ap (λ (x : Handle). lists c x.clients) (k.untouched i h) ∙ h

leave_from-Kept :
    (c i n : ℕ) (s : Server)
    → IsServer s
    → i + n ≡ max_opened_handles
    → ((j : ℕ) → j < i → holds s c j ≡ false)
    → Kept s c (leave_from c i n s)
      × ((j : ℕ) → j < max_opened_handles → holds (leave_from c i n s) c j ≡ false)
unfolding leave_from
leave_from-Kept c i zero s v e h = (stay-Kept s c v, λ j less. h j (omega arith))
leave_from-Kept c i (suc n) s v e h =
    let (k, gone) = leave_handle-Kept s c i v (omega arith) in
    let (l, all) =
      leave_from-Kept c (suc i) n (leave_handle c i s) k.valid (omega arith)
        (λ j less. before k gone j (dec_lt j i) less) in
    (Kept-trans c k l, all)
  where
    before :
        Kept s c (leave_handle c i s)
        → holds (leave_handle c i s) c i ≡ false
        → (j : ℕ) → Dec (j < i)
        → j < suc i
        → holds (leave_handle c i s) c j ≡ false
    before k gone j (yes low) less = away c j k (h j low)
    before k gone j (no high) less =
        subst (λ (x : ℕ). holds (leave_handle c i s) c x ≡ false) (omega arith) gone

-- When a client is removed, no handle lists it any more, every other client keeps its seats and
-- the files they are of, the handles that it had no part in are left as they were, and the table
-- stays well formed.
pub remove_client_from_handles-Kept :
    (s : Server) (c : ℕ)
    → IsServer s
    → Kept s c (remove_client_from_handles s c)
      × ((i : ℕ) → holds (remove_client_from_handles s c) c i ≡ false)
unfolding remove_client_from_handles
remove_client_from_handles-Kept s c v =
    let (k, all) =
      leave_from-Kept c 0 max_opened_handles s v refl (λ j less. absurd (omega arith)) in
    (k, λ i. everywhere k all i (dec_lt i max_opened_handles))
  where
    everywhere :
        Kept s c (remove_client_from_handles s c)
        → ((i : ℕ) → i < max_opened_handles → holds (remove_client_from_handles s c) c i ≡ false)
        → (i : ℕ) → Dec (i < max_opened_handles)
        → holds (remove_client_from_handles s c) c i ≡ false
    everywhere k all i (yes low) = all i low
    everywhere k all i (no high) =
        ap (λ (h : Handle). lists c h.clients)
          (at_outside (remove_client_from_handles s c).handles i (omega (arith, k.valid.full)))
        ∙ unused_lists c

pub get_handle-low :
    (s : Server) (i : ℕ) → i < max_opened_handles → get_handle s i ≡ some (handle_at s i)
unfolding get_handle
get_handle-low s i low = rw (lt→ltb i max_opened_handles low)

get_handle-none : (s : Server) (i : ℕ) → max_opened_handles ≤ i → get_handle s i ≡ none
unfolding get_handle
get_handle-none s i h = rw (le→ltb i max_opened_handles h)

released-Kept :
    (s : Server) (c i : ℕ) (r : Option (List (Option ℕ)))
    → IsServer s
    → i < max_opened_handles
    → Drops c (handle_at s i).clients r
    → Kept s c (released s i (handle_at s i) r).0
      × (holds (released s i (handle_at s i) r).0 c i ≡ false)
released-Kept s c i none v less d = (stay-Kept s c v, d)
released-Kept s c i (some cs) v less d = elim (Bool-cases (is_free (handle_at s i).path)) [
  | inl free ↦ cc (free_lists s c i v free, d.2)
  | inr busy ↦
      let (p, e) = path_of (handle_at s i) busy in
      give_up-Kept s c i p cs (closing (handle_at s i)) v less e d
]

-- A release gives up the client's seat of the one handle and nothing else.
pub release_handle-Kept :
    (s : Server) (c i : ℕ)
    → IsServer s
    → Kept s c (release_handle s c i).0 × (holds (release_handle s c i).0 c i ≡ false)
unfolding release_handle
release_handle-Kept s c i v = elim (dec_lt i max_opened_handles) [
  | yes low ↦
      rw (get_handle-low s i low, release_handle)
        (released-Kept s c i (drop_client c (handle_at s i).clients) v low
          (drop_client-Drops c (handle_at s i).clients))
  | no high ↦
      rw (get_handle-none s i (omega arith), release_handle)
        (
          stay-Kept s c v,
          ap (λ (h : Handle). lists c h.clients) (at_outside s.handles i (omega (arith, v.full)))
              ∙ unused_lists c,
        )
]
