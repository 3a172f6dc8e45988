-- ===== src/IsobusServer/Open/Outcome.antt =====
-- What an Open File Request of isobusfs/isobusfs_srv_fa.c leaves, on every branch.
use can_utils.Base.{
  ℕ, zero, suc, ◌%◌, ◌^◌, ◌≡◌, ◌≢◌, ◌⊎◌, inl, inr, refl, ap, sym, subst, List, ◌==◌, bit_and,
  Option, none, some, arith, Bool-cases, Option-cases, ◌<◌, ◌-◌, take, drop,
}
use can_utils.Base.Int.{pos, negsuc}
use can_utils.IsobusServer.Handles.{
  FileName, Server, Closing, close, closedir, Grant, granted, failed, overrun, handle_at,
  walk_handles, max_opened_handles,
}
use can_utils.IsobusServer.Handles.Slots.{used}
use can_utils.IsobusServer.Handles.Invariant.{IsServer}
use can_utils.IsobusServer.Handles.Grants.{Granted, Granting, request_file-Granting}
use can_utils.IsobusServer.Paths.{
  Volume, Converted, converted, refused, path_to_linux_path, volume_end, find_volume,
}
use can_utils.IsobusServer.Open.{
  Descriptor, got, denied, FileKind, regular, directory, special, FileSystem, Config, Answer,
  answered, crashed, neg, opendir_error, open_error, also_closed, requested, stat_directory,
  stream_directory, open_linux_directory, open_directory, stat_file, new_file, open_linux_file,
  open_file, open_request, access_flags, append_flag, open_mask,
}

-- A success with a handle of the path, or an error that leaves the table.
abbrev Linux : Server → ℕ → FileName → Answer → Type 0
Linux s c p crashed = ⊥
Linux s c p (answered t e h) =
    ((e ≡ pos 0) × Granted s c p t h) ⊎ ((e ≢ pos 0) × IsServer t × (t.handles ≡ s.handles))

closed-IsServer : (k : Closing) (s : Server) → IsServer s → IsServer (also_closed k s)
closed-IsServer k s v = record {
  full = v.full;
  good = v.good;
  counted = v.counted;
  distinct = v.distinct;
}

errs :
    (s t : Server) (c : ℕ) (p : FileName) (e : ℕ)
    → IsServer t
    → t.handles ≡ s.handles
    → (e ≡ 0 → ⊥)
    → Linux s c p (answered t (pos e) 0)
errs s t c p e v same ne = inr (λ k. absurd (ne (zero_of k)), v, same)
  where
    zero_of : pos e ≡ pos 0 → e ≡ 0
    zero_of k = cc k

requested-Linux :
    (s : Server) (c : ℕ) (p : FileName) (k : Closing) (r : Server × Grant)
    → IsServer s
    → Granting s c p r
    → Linux s c p (requested k r)
requested-Linux s c p k (t, granted i) v o =
    inl (refl, subst (Granted s c p t) (sym (small o.low)) o)
  where
    small : i < max_opened_handles → i % 2 ^ 8 ≡ i
    small h = omega arith
requested-Linux s c p k (t, failed e) v o = inr (
  fails o.1,
  closed-IsServer k t (subst IsServer (sym o.0) v),
  ap (λ (x : Server). x.handles) o.0,
)
  where
    fails :
        ((walk_handles p s.handles ≡ none)
            × (used s.handles ≡ max_opened_handles)
            × (e ≡ negsuc 27))
          ⊎ (((i : ℕ) × (walk_handles p s.handles ≡ some i)) × (e ≡ negsuc 1))
        → e ≢ pos 0
    fails (inl x) h = cc x.2
    fails (inr x) h = cc x.1
requested-Linux s c p k (t, overrun) v o = absurd o

module _ (s : Server) (c : ℕ) (p : FileName) (v : IsServer s) where
  stat_directory-Linux :
      (d fd : ℕ) (k : Option FileKind) → Linux s c p (stat_directory s c p d fd k)
  stat_directory-Linux d fd (some directory) =
      requested-Linux s c p (closedir d) _ v (request_file-Granting s c p fd (some d) v)
  stat_directory-Linux d fd (some regular) =
      errs s (also_closed (closedir d) s) c p 2 (closed-IsServer _ s v) refl (λ e. omega arith)
  stat_directory-Linux d fd (some special) =
      errs s (also_closed (closedir d) s) c p 2 (closed-IsServer _ s v) refl (λ e. omega arith)
  stat_directory-Linux d fd none =
      errs s (also_closed (closedir d) s) c p 2 (closed-IsServer _ s v) refl (λ e. omega arith)

  opendir_fails : (e : ℕ) → opendir_error e ≡ 0 → ⊥
  opendir_fails e h = ground arith

  stream_directory-Linux :
      (fs : FileSystem) (d : Descriptor) → Linux s c p (stream_directory fs s c p d)
  stream_directory-Linux fs (denied e) = errs s s c p (opendir_error e) v refl (opendir_fails e)
  stream_directory-Linux fs (got d) = elim (Option-cases (fs.dirfd d)) [
    | inl e ↦
        rw (e, stream_directory)
          (errs s (also_closed (closedir d) s) c p 44 (closed-IsServer _ s v) refl
            (λ e. omega arith))
    | inr (fd, e) ↦ rw (e, stream_directory) (stat_directory-Linux d fd (fs.fstat fd))
  ]

  open_linux_directory-Linux : (fs : FileSystem) → Linux s c p (open_linux_directory fs s c p)
  unfolding open_linux_directory
  open_linux_directory-Linux fs = elim (Option-cases (walk_handles p s.handles)) [
    | inl e ↦ rw (e, open_linux_directory) (stream_directory-Linux fs (fs.opendir p))
    | inr (i, e) ↦ rw (e, open_linux_directory) (errs s s c p 44 v refl (λ e. omega arith))
  ]

  stat_file-Linux : (fd : ℕ) (k : Option FileKind) → Linux s c p (stat_file s c p fd k)
  stat_file-Linux fd (some regular) =
      requested-Linux s c p (close fd) _ v (request_file-Granting s c p fd none v)
  stat_file-Linux fd (some directory) =
      errs s (also_closed (close fd) s) c p 2 (closed-IsServer _ s v) refl (λ e. omega arith)
  stat_file-Linux fd (some special) =
      errs s (also_closed (close fd) s) c p 2 (closed-IsServer _ s v) refl (λ e. omega arith)
  stat_file-Linux fd none =
      errs s (also_closed (close fd) s) c p 44 (closed-IsServer _ s v) refl (λ e. omega arith)

  open_fails : (e : ℕ) → open_error e ≡ 0 → ⊥
  open_fails e h = ground arith

  new_file-Linux : (fs : FileSystem) (d : Descriptor) → Linux s c p (new_file fs s c p d)
  new_file-Linux fs (denied e) = errs s s c p (open_error e) v refl (open_fails e)
  new_file-Linux fs (got fd) = stat_file-Linux fd (fs.fstat fd)

  open_linux_file-Linux :
      (fs : FileSystem) (flags : ℕ) → Linux s c p (open_linux_file fs s c flags p)
  unfolding open_linux_file
  open_linux_file-Linux fs flags = elim (Option-cases (walk_handles p s.handles)) [
    | inl e ↦ rw (e, open_linux_file) (new_file-Linux fs (fs.open_file p flags))
    | inr (i, e) ↦
        rw (e, open_linux_file)
          (requested-Linux s c p (close (handle_at s i).fd) _ v
            (request_file-Granting s c p (handle_at s i).fd none v))
  ]

-- The same for a path of the ISOBUS file system.
abbrev pub Opens : Config → Server → ℕ → FileName → Answer → Type 0
Opens cfg s c path crashed = ⊥
Opens cfg s c path (answered t e h) =
    ((e ≡ pos 0)
      × ((p : FileName) × (path_to_linux_path cfg.volumes cfg.mfs_dir path ≡ converted p)
          × Granted s c p t h))
    ⊎ ((e ≢ pos 0) × IsServer t × (t.handles ≡ s.handles))

Linux-Opens :
    (cfg : Config) (s : Server) (c : ℕ) (path p : FileName) (a : Answer)
    → path_to_linux_path cfg.volumes cfg.mfs_dir path ≡ converted p
    → Linux s c p a
    → Opens cfg s c path a
Linux-Opens cfg s c path p crashed e o = o
Linux-Opens cfg s c path p (answered t k h) e (inl (z, g)) = inl (z, (p, e, g))
Linux-Opens cfg s c path p (answered t k h) e (inr x) = inr x

Converted-cases :
    (x : Converted) → ((p : FileName) × (x ≡ converted p)) ⊎ ((e : ℕ) × (x ≡ refused e))
Converted-cases (converted p) = inl (p, refl)
Converted-cases (refused e) = inr (e, refl)

-- A path is never refused with an errno of 0.
refused_errno :
    (vs : List Volume) (mfs path : FileName) (e : ℕ)
    → path_to_linux_path vs mfs path ≡ refused e
    → e ≢ 0
unfolding path_to_linux_path
refused_errno vs mfs path e h z = elim (Option-cases (volume_end path)) [
  | inl n ↦ ground arith
  | inr (k, n) ↦ elim (Option-cases (find_volume (take (k - 2) (drop 2 path)) vs)) [
    | inl m ↦ ground arith
    | inr (v, m) ↦ ground arith
  ]
]

neg_ne : (e : ℕ) → e ≢ 0 → neg e ≢ pos 0
neg_ne zero h k = h refl
neg_ne (suc e) h k = cc k

flags_cases :
    (flags : ℕ)
    → (access_flags flags (bit_and flags open_mask) ≡ none)
      ⊎ ((o : ℕ) × (access_flags flags (bit_and flags open_mask) ≡ some o))
flags_cases flags = Option-cases (access_flags flags (bit_and flags open_mask))

open_directory-Opens :
    (cfg : Config) (fs : FileSystem) (s : Server) (c : ℕ) (path : FileName)
    → IsServer s
    → Opens cfg s c path (open_directory cfg fs s c path)
unfolding open_directory
open_directory-Opens cfg fs s c path v =
    elim (Converted-cases (path_to_linux_path cfg.volumes cfg.mfs_dir path)) [
      | inl (p, e) ↦
          rw (e, open_directory)
            (Linux-Opens cfg s c path p _ e (open_linux_directory-Linux s c p v fs))
      | inr (e, h) ↦
          rw (h, open_directory)
            (inr (neg_ne e (refused_errno cfg.volumes cfg.mfs_dir path e h), v, refl))
    ]

open_file-Opens :
    (cfg : Config) (fs : FileSystem) (s : Server) (c : ℕ) (path : FileName) (flags : ℕ)
    → IsServer s
    → Opens cfg s c path (open_file cfg fs s c path flags)
unfolding open_file
open_file-Opens cfg fs s c path flags v =
    elim (Converted-cases (path_to_linux_path cfg.volumes cfg.mfs_dir path)) [
      | inl (p, e) ↦ elim (flags_cases flags) [
        | inl n ↦ rw (e, open_file) (rw (n, open_file) (inr (λ k. cc k, v, refl)))
        | inr (o, n) ↦
            rw (e, open_file)
              (rw (n, open_file)
                (Linux-Opens cfg s c path p _ e
                  (open_linux_file-Linux s c p v fs (append_flag flags o))))
      ]
      | inr (e, h) ↦
          rw (h, open_file)
            (inr (neg_ne e (refused_errno cfg.volumes cfg.mfs_dir path e h), v, refl))
    ]

-- An Open File Request for an absolute path, whatever the file system answers. Either the error
-- code is 0, and the client has got the handle of the Linux path that the path stands for, as a
-- request of that path grants it; or it is not 0, and the table is as before. The table stays well
-- formed, and nothing is written behind it.
pub open_request-Opens :
    (cfg : Config) (fs : FileSystem) (s : Server) (c : ℕ) (path : FileName) (flags : ℕ)
    → IsServer s
    → Opens cfg s c path (open_request cfg fs s c path flags)
unfolding open_request
open_request-Opens cfg fs s c path flags v = elim (Bool-cases (bit_and flags open_mask == 3)) [
  | inl e ↦ rw e (open_directory-Opens cfg fs s c path v)
  | inr e ↦ rw e (open_file-Opens cfg fs s c path flags v)
]
