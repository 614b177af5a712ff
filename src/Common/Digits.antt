-- ===== src/Common/Digits.antt =====
-- The number that a row of decimal digits stands for.
use rfguard.Common.Tests.{ℕ, ◌+◌, ◌-◌, ◌*◌, ◌≡◌, refl, [], ◌∷◌, ◌++◌}
use rfguard.Common.Text.{Text}

-- After the digits that make up `acc`.
unfoldable pub number_from : ℕ → Text → ℕ
number_from acc [] = acc
number_from acc (c ∷ s) = number_from (acc * 10 + (c - b'0')) s

pub number_from-snoc :
    (acc : ℕ) (s : Text) (c : ℕ)
    → number_from acc (s ++ c ∷ []) ≡ number_from acc s * 10 + (c - b'0')
unfolding number_from
number_from-snoc acc [] c = refl
number_from-snoc acc (x ∷ s) c = number_from-snoc (acc * 10 + (x - b'0')) s c
