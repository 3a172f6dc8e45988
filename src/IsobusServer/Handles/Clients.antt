-- ===== src/IsobusServer/Handles/Clients.antt =====
-- The client seats of one entry of the table in isobusfs/isobusfs_srv_fa.c.
use mathlib.Core.Option
use can_utils.Base.{
  ℕ, zero, suc, List, [], ◌∷◌, true, false, ◌||◌, ◌==◌, Option, none, some, ◌≡◌, ◌≢◌, refl, ap,
  arith, length, replicate, ==_refl, inl, inr, Bool-cases,
}
use can_utils.IsobusServer.Handles.{is_client, lists, put_client, drop_client}

-- The seats that are taken.
abbrev pub taken : List (Option ℕ) → ℕ
taken [] = 0
taken (none ∷ xs) = taken xs
taken (some d ∷ xs) = suc (taken xs)

-- No client has two seats.
abbrev pub Once : List (Option ℕ) → Type 0
Once [] = Unit {0}
Once (none ∷ xs) = Once xs
Once (some d ∷ xs) = (lists d xs ≡ false) × Once xs

-- What a new seat changes.
abbrev pub Puts : ℕ → List (Option ℕ) → Option (List (Option ℕ)) → Type 0
Puts c xs none = Unit {0}
Puts c xs (some ys) =
    (length ys ≡ length xs)
    × (taken ys ≡ suc (taken xs))
    × ((d : ℕ) → lists d ys ≡ ((c == d) || lists d xs))
    × (lists c xs ≡ false → Once xs → Once ys)
    × (lists c xs ≡ false → drop_client c ys ≡ some xs)

Puts-cons :
    (c d : ℕ) (xs : List (Option ℕ)) (r : Option (List (Option ℕ)))
    → Puts c xs r
    → Puts c (some d ∷ xs) (Option.map (λ ys. some d ∷ ys) r)
unfolding lists drop_client
Puts-cons c d xs none h = tt
Puts-cons c d xs (some ys) h = (
  ap suc h.0,
  ap suc h.1,
  λ e. ground (arith, h.2 e),
  λ new once. ground (arith, h.2 d, h.3),
  λ new. ground (arith, h.4),
)

pub put_client-Puts : (c : ℕ) (xs : List (Option ℕ)) → Puts c xs (put_client c xs)
unfolding put_client lists drop_client
put_client-Puts c [] = tt
put_client-Puts c (none ∷ xs) =
    (refl, refl, λ d. refl, λ new once. (new, once), λ new. rw (==_refl c))
put_client-Puts c (some d ∷ xs) = Puts-cons c d xs (put_client c xs) (put_client-Puts c xs)

-- What a seat given up changes.
abbrev pub Drops : ℕ → List (Option ℕ) → Option (List (Option ℕ)) → Type 0
Drops c xs none = lists c xs ≡ false
Drops c xs (some ys) =
    (length ys ≡ length xs)
    × (taken xs ≡ suc (taken ys))
    × (lists c xs ≡ true)
    × (Once xs → lists c ys ≡ false)
    × ((d : ℕ) → c ≢ d → lists d ys ≡ lists d xs)
    × ((d : ℕ) → lists d xs ≡ false → lists d ys ≡ false)
    × (Once xs → Once ys)

Drops-cons :
    (c : ℕ) (x : Option ℕ) (xs : List (Option ℕ)) (r : Option (List (Option ℕ)))
    → is_client c x ≡ false
    → Drops c xs r
    → Drops c (x ∷ xs) (Option.map (λ ys. x ∷ ys) r)
unfolding lists
Drops-cons c x xs none miss h = rw (miss, h)
Drops-cons c none xs (some ys) miss h = (ap suc h.0, h.1, h.2, h.3, h.4, h.5, h.6)
Drops-cons c (some d) xs (some ys) miss h = (
  ap suc h.0,
  ap suc h.1,
  ground arith,
  λ once. ground (arith, h.3),
  λ e ne. ground (arith, h.4 e),
  λ e new. ground (arith, h.5 e),
  λ once. ground (arith, h.5 d, h.6),
)

pub drop_client-Drops : (c : ℕ) (xs : List (Option ℕ)) → Drops c xs (drop_client c xs)
unfolding drop_client lists
drop_client-Drops c [] = refl
drop_client-Drops c (none ∷ xs) =
    Drops-cons c none xs (drop_client c xs) refl (drop_client-Drops c xs)
drop_client-Drops c (some d ∷ xs) = elim (Bool-cases (d == c)) [
  | inl hit ↦ rw hit (
    refl,
    refl,
    rw hit,
    λ once. ground arith,
    λ e ne. ground arith,
    λ e new. ground arith,
    λ once. once.1,
  )
  | inr miss ↦ rw miss (Drops-cons c (some d) xs (drop_client c xs) miss (drop_client-Drops c xs))
]

pub taken-replicate : (n : ℕ) → taken (replicate n none) ≡ 0
taken-replicate zero = refl
taken-replicate (suc n) = taken-replicate n

pub Once-replicate : (n : ℕ) → Once (replicate n none)
Once-replicate zero = tt
Once-replicate (suc n) = Once-replicate n

pub lists-replicate : (c n : ℕ) → lists c (replicate n none) ≡ false
unfolding lists
lists-replicate c zero = refl
lists-replicate c (suc n) = lists-replicate c n

-- Without a seat taken, no client is listed.
pub lists_none : (c : ℕ) (xs : List (Option ℕ)) → taken xs ≡ 0 → lists c xs ≡ false
unfolding lists
lists_none c [] h = refl
lists_none c (none ∷ xs) h = lists_none c xs h
lists_none c (some d ∷ xs) h = absurd (omega arith)
