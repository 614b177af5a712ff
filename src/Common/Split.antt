-- ===== src/Common/Split.antt =====
-- Texts that are joined by a separator which some part does not hold.
use rfguard.Common.Tests.{ℕ, ◌≡◌, refl, ◌≢◌, [], ◌∷◌, ◌++◌, arith}
use rfguard.Common.Text.{Text}
use rfguard.Common.Lists.{All}

-- The text does not hold the character.
abbrev pub Free : ℕ → Text → Type 0
Free sep s = All (λ c. c ≢ sep) s

not-Free-middle : (sep : ℕ) (s t : Text) → ¬ Free sep (s ++ sep ∷ t)
not-Free-middle sep [] t h = h.0 refl
not-Free-middle sep (c ∷ s) t h = not-Free-middle sep s t h.1

-- A separator that the second part does not hold is the last one.
pub split_last :
    (sep : ℕ) (s t u v : Text)
    → Free sep t
    → Free sep v
    → s ++ sep ∷ t ≡ u ++ sep ∷ v
    → (s ≡ u) × (t ≡ v)
split_last sep [] t [] v f g e = (refl, ground arith)
split_last sep [] t (x ∷ u) v f g e =
    let same : t ≡ u ++ sep ∷ v = ground arith in absurd (not-Free-middle sep u v (rw same at f))
split_last sep (x ∷ s) t [] v f g e =
    let same : v ≡ s ++ sep ∷ t = ground arith in absurd (not-Free-middle sep s t (rw same at g))
split_last sep (x ∷ s) t (y ∷ u) v f g e =
    let same : s ++ sep ∷ t ≡ u ++ sep ∷ v = ground arith in
    ground (arith, split_last sep s t u v f g same)

-- A separator that the first part does not hold is the first one.
pub split_first :
    (sep : ℕ) (s t u v : Text)
    → Free sep s
    → Free sep u
    → s ++ sep ∷ t ≡ u ++ sep ∷ v
    → (s ≡ u) × (t ≡ v)
split_first sep [] t [] v f g e = (refl, ground arith)
split_first sep [] t (x ∷ u) v f g e = ground arith
split_first sep (x ∷ s) t [] v f g e = ground arith
split_first sep (x ∷ s) t (y ∷ u) v f g e =
    let same : s ++ sep ∷ t ≡ u ++ sep ∷ v = ground arith in
    ground (arith, split_first sep s t u v f.1 g.1 same)
