-- ===== src/SlcanPty/Arrays.antt =====
-- Texts in the buffer, under the loops that move and change it.
use can_utils.Base.{
  ℕ, zero, suc, ◌+◌, ◌≤◌, ◌<◌, List, [], ◌∷◌, ◌++◌, true, ◌&&◌, ltb, leb, ◌≡◌, ◌≢◌, refl, ap₂,
  arith, ◌⊎◌, if◌then◌else◌, length, ◌∙◌, subst, ==_refl, ne→==,
}
use can_utils.Base.Spells.{Spells}
use can_utils.SlcanPty.{Buffer, update, copy_down, store, chars}
use can_utils.SlcanPty.Loop.{strip, has_cr}

-- A write outside a text.
pub Spells-update :
    (buf : Buffer) (j v i : ℕ) (t : List ℕ)
    → (j < i) ⊎ (i + length t ≤ j)
    → Spells buf i t
    → Spells (update buf j v) i t
unfolding update
Spells-update buf j v i [] away h = tt
Spells-update buf j v i (c ∷ t) away (h, k) =
    (ground (arith, h, away), Spells-update buf j v (i + 1) t (omega (arith, away)) k)

pub chars-Spells : (buf : Buffer) (i : ℕ) (t : List ℕ) → Spells buf i t → chars buf i (length t) ≡ t
unfolding chars
chars-Spells buf i [] h = refl
chars-Spells buf i (c ∷ t) (h, k) = ap₂ ◌∷◌ h (chars-Spells buf (i + 1) t k)

copy_down_at :
    (buf : Buffer) (from i n j : ℕ)
    → 0 < from
    → copy_down buf from i n j ≡ (if leb i j && ltb j (i + n) then buf (from + j) else buf j)
unfolding copy_down update
copy_down_at buf from i zero j pos = ground arith
copy_down_at buf from i (suc n) j pos =
    ground (arith, copy_down_at (update buf i (buf (from + i))) from (i + 1) n j, pos, apart)
  where
    apart : (j ≡ i) ⊎ (j ≢ i)
    apart = ground arith

pub Spells-copy_down :
    (buf : Buffer) (from n i : ℕ) (t : List ℕ)
    → 0 < from
    → i + length t ≤ n
    → Spells buf (from + i) t
    → Spells (copy_down buf from 0 n) i t
Spells-copy_down buf from n i [] pos fits h = tt
Spells-copy_down buf from n i (c ∷ t) pos fits (h, k) = (
  copy_down_at buf from 0 n i pos ∙ ground (arith, h, fits),
  Spells-copy_down buf from n (i + 1) t pos (omega (arith, fits))
      (subst (λ x. Spells buf x t) {x = from + i + 1} (omega arith) k),
)

store_before : (buf : Buffer) (i : ℕ) (t : List ℕ) (j : ℕ) → j < i → store buf i t j ≡ buf j
unfolding store update
store_before buf i [] j h = refl
store_before buf i (c ∷ t) j h =
    store_before (update buf i c) (i + 1) t j (omega arith) ∙ ground (arith, h)

update_self : (buf : Buffer) (i c : ℕ) → update buf i c i ≡ c
unfolding update
update_self buf i c = rw ==_refl refl

pub store-Spells : (buf : Buffer) (i : ℕ) (t : List ℕ) → Spells (store buf i t) i t
unfolding store
store-Spells buf i [] = tt
store-Spells buf i (c ∷ t) = (
  store_before (update buf i c) (i + 1) t i (omega arith) ∙ update_self buf i c,
  store-Spells (update buf i c) (i + 1) t,
)

pub has_cr-Spells :
    (buf : Buffer) (i : ℕ) (p q : List ℕ)
    → Spells buf i (p ++ (b'\r' ∷ q))
    → has_cr buf i (length (p ++ (b'\r' ∷ q))) ≡ true
unfolding has_cr
has_cr-Spells buf i [] q (h, k) = rw h refl
has_cr-Spells buf i (c ∷ p) q (h, k) = ground (arith, has_cr-Spells buf (i + 1) p q k)

-- A text that is empty or starts with no line end.
abbrev pub Starts : List ℕ → Type 0
Starts [] = Unit
Starts (c ∷ t) = c ≢ b'\r'

pub strip-Starts :
    (buf : Buffer) (t : List ℕ) → Starts t → Spells buf 0 t → strip buf (length t) ≡ (buf, length t)
unfolding strip
strip-Starts buf [] s h = refl
strip-Starts buf (c ∷ t) s h = rw (h.0, ne→== c b'\r' s) refl

-- One line end before such a text.
pub strip-cr :
    (buf : Buffer) (t : List ℕ)
    → Starts t
    → Spells buf 0 (b'\r' ∷ t)
    → (strip buf (suc (length t)) ≡ (copy_down buf 1 0 (suc (length t)), length t))
      × Spells (copy_down buf 1 0 (suc (length t))) 0 t
unfolding strip
strip-cr buf t s h =
    let moved : Spells (copy_down buf 1 0 (suc (length t))) 0 t =
      Spells-copy_down buf 1 (suc (length t)) 0 t (omega arith) (omega arith) h.1 in
    (rw h.0 (strip-Starts _ t s moved), moved)
