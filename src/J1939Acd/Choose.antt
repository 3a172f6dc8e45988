-- ===== src/J1939Acd/Choose.antt =====
-- `choose_new_sa` finds an address whenever there is one to claim, and no other.
use can_utils.Base.{
  ℕ, zero, suc, ◌+◌, ◌≤◌, ◌<◌, List, Bool, true, false, ◌&&◌, ◌||◌, ◌==◌, ltb, leb, ◌≡◌, ◌≢◌, ◌⊎◌,
  inl, inr, refl, arith, if◌then◌else◌, Bool-cases, subst, sym, ==_iff, lt→ltb,
}
use can_utils.J1939Acd.{
  Entry, entry_at, first_addr, next_addr, is_empty, is_weaker, choose_new_sa, j1939_idle_addr,
}

-- The address that is looked at first, and then the others.
fails_on : (test : ℕ → Bool) (j k : ℕ) → test j ≡ false → (k ≢ j → test k ≡ false) → test k ≡ false
fails_on test j k here other = elim (Bool-cases (k == j)) [
  | inl e ↦ subst (λ i. test i ≡ false) (sym ((==_iff k j).0 e)) here
  | inr ne ↦ other (ground arith)
]

-- What the loop finds: an address that passes, or none of those it looks at passes.
abbrev pub Finds : (ℕ → Bool) → (ℕ → Type 0) → ℕ → Type 0
Finds test Seen r =
    ((test r ≡ true) × (r < j1939_idle_addr))
    ⊎ ((r ≡ j1939_idle_addr) × ((k : ℕ) → k < j1939_idle_addr → Seen k → test k ≡ false))

abbrev Between : ℕ → ℕ → ℕ → Type 0
Between j n k = (j ≤ k) × (k < j + n)

pub first_addr-Finds :
    (test : ℕ → Bool) (j n : ℕ)
    → j + n ≤ j1939_idle_addr
    → Finds test (Between j n) (first_addr test j n)
unfolding first_addr
first_addr-Finds test j zero h = inr (refl, λ k small seen. absurd (omega (arith, seen)))
first_addr-Finds test j (suc n) h = elim (Bool-cases (test j)) [
  | inl pass ↦ rw pass (inl (pass, omega arith))
  | inr pass ↦ rw pass (elim (first_addr-Finds test (j + 1) n (omega arith)) [
    | inl found ↦ inl found
    | inr missing ↦ inr (
      missing.0,
      λ k small seen.
          fails_on test j k pass
            (λ ne. missing.1 k small (ground (arith, seen), omega (arith, seen))),
    )
  ])
]

-- The addresses that `n` steps of the circle from `j` on look at.
abbrev Circle : ℕ → ℕ → ℕ → Type 0
Circle j n k = Between j n k ⊎ (k + j1939_idle_addr < j + n)

abbrev wrapped : ℕ → ℕ
wrapped j = if leb j1939_idle_addr j then 0 else j

wrapped-lt : (j : ℕ) → wrapped j < j1939_idle_addr
wrapped-lt j = ground arith

step-Circle :
    (j n k : ℕ)
    → j < j1939_idle_addr
    → k < j1939_idle_addr
    → Circle j (suc n) k
    → k ≢ j
    → Circle (wrapped (j + 1)) n k
step-Circle j n k h small seen ne = ground (arith, seen)

pub next_addr-Finds :
    (test : ℕ → Bool) (j n : ℕ) → Finds test (Circle (wrapped j) n) (next_addr test j n)
unfolding next_addr
next_addr-Finds test j zero =
    inr (refl, λ k small seen. absurd (ground (arith, seen, wrapped-lt j)))
next_addr-Finds test j (suc n) = elim (Bool-cases (test (wrapped j))) [
  | inl pass ↦ rw pass (inl (pass, wrapped-lt j))
  | inr pass ↦ rw pass (elim (next_addr-Finds test (wrapped j + 1) n) [
    | inl found ↦ inl found
    | inr missing ↦ inr (
      missing.0,
      λ k small seen.
          fails_on test (wrapped j) k pass
            (λ ne. missing.1 k small (step-Circle (wrapped j) n k (wrapped-lt j) small seen ne)),
    )
  ])
]

all_around : (j k : ℕ) → k < j1939_idle_addr → Circle (wrapped j) j1939_idle_addr k
all_around j k small = ground (arith, wrapped-lt j)

abbrev pub Claimable : List Entry → ℕ → ℕ → Type 0
Claimable addr name j =
    ((entry_at addr j).in_use ≡ true)
    × (((entry_at addr j).name ≡ 0) ⊎ (name ≤ (entry_at addr j).name))

tests-Claimable :
    (addr : List Entry) (name j : ℕ)
    → (is_empty addr name j || is_weaker addr name j) ≡ true
    → Claimable addr name j
tests-Claimable addr name j h = ground arith

-- The address that is chosen is one of the range and holds no stronger name; if none is chosen,
-- every address of the range is held by a stronger name.
pub choose_new_sa-Claimable :
    (addr : List Entry) (name sa : ℕ)
    → ((choose_new_sa addr name sa < j1939_idle_addr)
        × Claimable addr name (choose_new_sa addr name sa))
      ⊎ ((choose_new_sa addr name sa ≡ j1939_idle_addr)
          × ((k : ℕ)
              → k < j1939_idle_addr
              → (entry_at addr k).in_use ≡ true
              → ((entry_at addr k).name ≢ 0) × ((entry_at addr k).name < name)))
unfolding choose_new_sa
choose_new_sa-Claimable addr name sa = elim (Bool-cases current) [
  | inl keep ↦
      rw keep (inl (ground (arith, keep), tests-Claimable addr name sa (ground (arith, keep))))
  | inr change ↦
      rw change (elim (first_addr-Finds (is_empty addr name) 0 j1939_idle_addr (omega arith)) [
        | inl found ↦
            rw (lt→ltb _ _ found.1) (inl (found.1, tests-Claimable addr name _ (rw found.0 refl)))
        | inr none_empty ↦
            rw none_empty.0 (elim (next_addr-Finds (is_weaker addr name) (sa + 1) j1939_idle_addr) [
              | inl found ↦ inl (found.1, tests-Claimable addr name _ (ground (arith, found.0)))
              | inr none_weaker ↦ inr (
                none_weaker.0,
                λ k small used.
                    all_held k used (none_empty.1 k small (ground arith))
                      (none_weaker.1 k small (all_around (sa + 1) k small)),
              )
            ])
      ])
]
  where
    current : Bool
    current = ltb sa j1939_idle_addr && (is_empty addr name sa || is_weaker addr name sa)

    all_held :
        (k : ℕ)
        → (entry_at addr k).in_use ≡ true
        → is_empty addr name k ≡ false
        → is_weaker addr name k ≡ false
        → ((entry_at addr k).name ≢ 0) × ((entry_at addr k).name < name)
    all_held k used not_empty not_weaker = ground (arith, used, not_empty, not_weaker)
