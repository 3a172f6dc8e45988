-- ===== src/Base/Spells.antt =====
-- A text that stands in an array.
use Prim.Native.Nat.{ℕ, zero, suc, ◌+◌}
use mathlib.Core.Path.{◌≡◌, ap, subst, ◌∙◌}
use mathlib.Core.List.{List, [], ◌∷◌, ◌++◌}
use native.Mathlib.Omega.{arith}
use can_utils.Base.Lists.{length, drop}

-- `cs` reads as the text from index `i` on.
abbrev pub Spells : (ℕ → ℕ) → ℕ → List ℕ → Type 0
Spells cs i [] = Unit
Spells cs i (c ∷ s) = (cs i ≡ c) × Spells cs (i + 1) s

pub Spells-shift :
    (cs ds : ℕ → ℕ) (i j : ℕ) (s : List ℕ)
    → ((k : ℕ) → cs (i + k) ≡ ds (j + k))
    → Spells ds j s
    → Spells cs i s
Spells-shift cs ds i j [] same h = tt
Spells-shift cs ds i j (c ∷ s) same (h, t) = (
  ap cs (omega arith) ∙ same 0 ∙ ap ds (omega arith) ∙ h,
  Spells-shift cs ds (i + 1) (j + 1) s
      (λ k. ap cs {y = i + (k + 1)} (omega arith) ∙ same (k + 1) ∙ ap ds (omega arith)) t,
)

pub Spells-append :
    (cs : ℕ → ℕ) (i : ℕ) (p q : List ℕ)
    → Spells cs i (p ++ q)
    → Spells cs i p × Spells cs (i + length p) q
Spells-append cs i [] q h = (tt, subst (λ k. Spells cs k q) (omega arith) h)
Spells-append cs i (c ∷ p) q (h, t) =
    let rest = Spells-append cs (i + 1) p q t in
    ((h, rest.0), subst (λ k. Spells cs k q) (omega arith) rest.1)

-- The text from its `k`-th character on.
pub Spells-drop : (cs : ℕ → ℕ) (k i : ℕ) (s : List ℕ) → Spells cs i s → Spells cs (i + k) (drop k s)
Spells-drop cs zero i s h = subst (λ j. Spells cs j s) (omega arith) h
Spells-drop cs (suc k) i [] h = tt
Spells-drop cs (suc k) i (c ∷ s) h =
    subst (λ j. Spells cs j (drop k s)) {x = i + 1 + k} (omega arith)
      (Spells-drop cs k (i + 1) s h.1)
