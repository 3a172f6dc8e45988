-- ===== src/J1939Acd/Names.antt =====
-- The table of the names that are heard: no name holds two addresses.
use can_utils.Base.{
  ℕ, ◌<◌, List, Bool, true, not, ◌&&◌, ◌==◌, ltb, ◌≡◌, ◌≢◌, ◌⊎◌, inl, inr, refl, arith,
  if◌then◌else◌, Bool-cases, length, set, get_or-set_self, get_or-set_ne, length-set, ap, subst,
  ◌∙◌, sym, ==_iff,
}
use can_utils.J1939Acd.{Entry, entry_at, lookup_name, j1939_idle_addr}
use can_utils.J1939Acd.Choose.{first_addr-Finds}
use can_utils.J1939Acd.Loop.{learn, forget, set_name, set_seen}

abbrev pub name_at : List Entry → ℕ → ℕ
name_at addr j = (entry_at addr j).name

-- The table has its 254 entries, and a name stands in one of them at most.
pub record IsTable (addr : List Entry) : Type 0 where
  pub full : length addr ≡ j1939_idle_addr
  pub once :
      (i j : ℕ)
      → i < j1939_idle_addr
      → j < j1939_idle_addr
      → name_at addr i ≢ 0
      → name_at addr i ≡ name_at addr j
      → i ≡ j

-- A lookup finds the address that holds a name.
pub lookup_name_finds :
    (addr : List Entry) (name : ℕ)
    → ((lookup_name addr name < j1939_idle_addr) × (name_at addr (lookup_name addr name) ≡ name))
      ⊎ ((lookup_name addr name ≡ j1939_idle_addr)
          × ((k : ℕ) → k < j1939_idle_addr → name_at addr k ≢ name))
unfolding lookup_name
lookup_name_finds addr name =
    elim (first_addr-Finds (λ j. name_at addr j == name) 0 j1939_idle_addr (omega arith)) [
      | inl found ↦ inl (found.1, (==_iff _ _).0 found.0)
      | inr missing ↦ inr (missing.0, λ k small e. ground (arith, missing.1 k small, e))
    ]

pub name_at-set :
    (addr : List Entry) (j : ℕ) (v : Entry) (k : ℕ)
    → j < length addr
    → name_at (set addr j v) k ≡ (if k == j then v.name else name_at addr k)
name_at-set addr j v k h = elim (Bool-cases (k == j)) [
  | inl same ↦ rw same (
      subst (λ i. name_at (set addr j v) i ≡ v.name) (sym ((==_iff k j).0 same))
        (ap (λ (e : Entry). e.name) (get_or-set_self addr j v _ h)))
  | inr other ↦ rw other (ap (λ (e : Entry). e.name) (get_or-set_ne addr j k v _ (ground arith)))
]

-- A name may be set where no other address has it.
set_name-IsTable :
    (addr : List Entry) (j name : ℕ)
    → IsTable addr
    → j < j1939_idle_addr
    → ((k : ℕ) → k < j1939_idle_addr → k ≢ j → name ≢ 0 → name_at addr k ≢ name)
    → IsTable (set_name addr j name)
unfolding set_name
set_name-IsTable addr j name t h free =
    let v : Entry = record (entry_at addr j) { name = name } in
    record {
      full = length-set addr j v ∙ t.full;
      once = λ i k hi hk ne same. ground (
        arith,
        t.full,
        name_at-set addr j v i,
        name_at-set addr j v k,
        t.once i k,
        free i hi,
        free k hk,
      );
    }

set_seen-IsTable :
    (addr : List Entry) (j : ℕ) → IsTable addr → j < j1939_idle_addr → IsTable (set_seen addr j)
unfolding set_seen
set_seen-IsTable addr j t h =
    let v : Entry = record (entry_at addr j) { seen = true } in
    record {
      full = length-set addr j v ∙ t.full;
      once = λ i k hi hk ne same. ground (
        arith,
        t.full,
        name_at-set addr j v i,
        name_at-set addr j v k,
        t.once i k,
        t.once i j,
        t.once j k,
      );
    }

abbrev moves : List Entry → ℕ → ℕ → Bool
moves addr name sa =
    not (lookup_name addr name == sa) && ltb (lookup_name addr name) j1939_idle_addr

pub forget-IsTable :
    (addr : List Entry) (name sa : ℕ) → IsTable addr → IsTable (forget addr name sa)
unfolding forget
forget-IsTable addr name sa t = elim (Bool-cases (moves addr name sa)) [
  | inl move ↦ rw move (
      set_name-IsTable addr _ 0 t (ground (arith, move))
        (λ k small other some_name. absurd (some_name refl)))
  | inr stay ↦ rw stay t
]

-- Afterwards the name stands at no other address.
pub forget-free :
    (addr : List Entry) (name sa k : ℕ)
    → IsTable addr
    → k < j1939_idle_addr
    → k ≢ sa
    → name ≢ 0
    → name_at (forget addr name sa) k ≢ name
unfolding forget set_name
forget-free addr name sa k t small other some_name here = elim (Bool-cases (moves addr name sa)) [
  | inl move ↦
      let old : ℕ = lookup_name addr name in
      let gone : name_at (set_name addr old 0) k ≡ name = (rw move at here) in
      ground (
        arith,
        move,
        gone,
        t.full,
        name_at-set addr old (record (entry_at addr old) { name = 0 }) k,
        lookup_name_finds addr name,
        t.once k old,
      )
  | inr stay ↦
      let kept : name_at addr k ≡ name = (rw stay at here) in
      elim (lookup_name_finds addr name) [
        | inl found ↦ ground (arith, stay, kept, found.0, found.1, t.once k (lookup_name addr name))
        | inr missing ↦ missing.1 k small kept
      ]
]

pub learn-IsTable :
    (addr : List Entry) (name sa : ℕ)
    → IsTable addr
    → sa < j1939_idle_addr
    → IsTable (learn addr name sa)
unfolding learn
learn-IsTable addr name sa t h =
    set_seen-IsTable _ sa
      (set_name-IsTable _ sa name (forget-IsTable addr name sa t) h
        (λ k small other some_name. forget-free addr name sa k t small other some_name))
      h
