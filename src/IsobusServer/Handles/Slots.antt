-- ===== src/IsobusServer/Handles/Slots.antt =====
-- The entries of the table in isobusfs/isobusfs_srv_fa.c: which are in use, and the two searches.
use mathlib.Core.Option
use can_utils.Base.{
  ℕ, zero, suc, ◌+◌, ◌≤◌, ◌<◌, List, [], ◌∷◌, true, false, ◌==◌, Option, none, some, ◌≡◌, refl, ap,
  sym, ◌↔◌, arith, length, get_or, set, replicate, if◌then◌else◌, ==_iff, inl, inr, Bool-cases,
  get_or-set_self, get_or-set_ne, subst,
}
use can_utils.IsobusServer.Handles.{
  FileName, Handle, unused, same_name, has_path, is_free, walk_handles, free_slot,
}

pub same_name_iff : (p q : FileName) → (same_name p q ≡ true) ↔ (p ≡ q)
unfolding same_name
same_name_iff [] [] = (λ e. refl, λ e. refl)
same_name_iff [] (b ∷ q) = (λ e. cc, λ e. cc)
same_name_iff (a ∷ p) [] = (λ e. cc, λ e. cc)
same_name_iff (a ∷ p) (b ∷ q) =
    (λ e. ground (arith, (same_name_iff p q).0), λ e. ground (arith, (same_name_iff p q).1))

pub has_path_iff : (p : FileName) (o : Option FileName) → (has_path p o ≡ true) ↔ (o ≡ some p)
has_path_iff p none = (λ e. cc, λ e. cc)
has_path_iff p (some q) =
    (λ e. ap some ((same_name_iff q p).0 e), λ e. (same_name_iff q p).1 (cc e))

abbrev pub at : List Handle → ℕ → Handle
at hs i = get_or hs i unused

abbrev pub Walks : FileName → List Handle → Option ℕ → Type 0
Walks p hs none = (i : ℕ) → has_path p (at hs i).path ≡ false
Walks p hs (some i) = (i < length hs) × (has_path p (at hs i).path ≡ true)

Walks-cons :
    (p : FileName) (h : Handle) (hs : List Handle) (r : Option ℕ)
    → has_path p h.path ≡ false
    → Walks p hs r
    → Walks p (h ∷ hs) (Option.map (λ i. suc i) r)
Walks-cons p h hs none miss w = λ i. here i
  where
    here : (i : ℕ) → has_path p (at (h ∷ hs) i).path ≡ false
    here zero = miss
    here (suc i) = w i
Walks-cons p h hs (some i) miss w = (omega arith, w.1)

-- The search finds an entry with the path, and fails only where there is none.
pub walk_handles-Walks : (p : FileName) (hs : List Handle) → Walks p hs (walk_handles p hs)
unfolding walk_handles unused
walk_handles-Walks p [] = λ i. refl
walk_handles-Walks p (h ∷ hs) = elim (Bool-cases (has_path p h.path)) [
  | inl hit ↦ rw hit (omega arith, hit)
  | inr miss ↦ rw miss (Walks-cons p h hs (walk_handles p hs) miss (walk_handles-Walks p hs))
]

pub not_walked :
    (p : FileName) (hs : List Handle) (i : ℕ)
    → walk_handles p hs ≡ none
    → (at hs i).path ≡ some p
    → ⊥
not_walked p hs i w e =
    cc (subst (Walks p hs) w (walk_handles-Walks p hs) i, (has_path_iff p (at hs i).path).1 e)

abbrev pub tick : Option FileName → ℕ
tick none = 0
tick (some p) = 1

-- The entries with a path.
abbrev pub used : List Handle → ℕ
used [] = 0
used (h ∷ hs) = tick h.path + used hs

pub tick-le : (o : Option FileName) → tick o ≤ 1
tick-le none = omega arith
tick-le (some p) = omega arith

pub used-le-length : (hs : List Handle) → used hs ≤ length hs
used-le-length [] = omega arith
used-le-length (h ∷ hs) = omega (arith, tick-le h.path, used-le-length hs)

free_path : (o : Option FileName) → (is_free o ≡ true) → o ≡ none
free_path none e = refl
free_path (some p) e = cc

taken_path : (o : Option FileName) → (is_free o ≡ false) → tick o ≡ 1
taken_path none e = cc
taken_path (some p) e = refl

pub free_slot-free :
    (hs : List Handle)
    → used hs < length hs
    → (free_slot hs < length hs) × ((at hs (free_slot hs)).path ≡ none)
unfolding free_slot
free_slot-free [] less = absurd (omega arith)
free_slot-free (h ∷ hs) less = elim (Bool-cases (is_free h.path)) [
  | inl hit ↦ rw hit (omega arith, free_path h.path hit)
  | inr miss ↦
      let (low, free) = free_slot-free hs (omega (arith, taken_path h.path miss)) in
      rw miss (omega arith, free)
]

pub used-set :
    (hs : List Handle) (i : ℕ) (h : Handle)
    → i < length hs
    → used (set hs i h) + tick (at hs i).path ≡ used hs + tick h.path
used-set [] i h less = absurd (omega arith)
used-set (x ∷ hs) zero h less = omega arith
used-set (x ∷ hs) (suc i) h less = omega (arith, used-set hs i h (omega arith))

pub at-set :
    (hs : List Handle) (i j : ℕ) (h : Handle)
    → i < length hs
    → at (set hs i h) j ≡ (if i == j then h else at hs j)
at-set hs i j h less = elim (Bool-cases (i == j)) [
  | inl e ↦ rw (e, ← (==_iff i j).0 e) (get_or-set_self hs i h unused less)
  | inr ne ↦ rw ne (get_or-set_ne hs i j h unused (λ e. ground arith))
]

pub set-set_back :
    (hs : List Handle) (i : ℕ) (g h : Handle)
    → at hs i ≡ g
    → i < length hs
    → set (set hs i h) i g ≡ hs
set-set_back [] i g h e less = refl
set-set_back (x ∷ hs) zero g h e less = ap (λ (y : Handle). y ∷ hs) (sym e)
set-set_back (x ∷ hs) (suc i) g h e less = ap (◌∷◌ x) (set-set_back hs i g h e (omega arith))

pub used-replicate : (n : ℕ) → used (replicate n unused) ≡ 0
unfolding unused
used-replicate zero = refl
used-replicate (suc n) = omega (arith, used-replicate n)

pub at-replicate : (n i : ℕ) → at (replicate n unused) i ≡ unused
at-replicate zero i = refl
at-replicate (suc n) zero = refl
at-replicate (suc n) (suc i) = at-replicate n i

-- Behind its end the table reads as an unused entry.
pub at_outside : (hs : List Handle) (i : ℕ) → length hs ≤ i → at hs i ≡ unused
at_outside [] i h = refl
at_outside (x ∷ hs) zero h = absurd (omega arith)
at_outside (x ∷ hs) (suc i) h = at_outside hs i (omega arith)

pub set-set : (hs : List Handle) (i : ℕ) (g h : Handle) → set (set hs i g) i h ≡ set hs i h
set-set [] i g h = refl
set-set (x ∷ hs) zero g h = refl
set-set (x ∷ hs) (suc i) g h = ap (◌∷◌ x) (set-set hs i g h)
