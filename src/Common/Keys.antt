-- ===== src/Common/Keys.antt =====
-- Lists of distinct keys, and the size of a map that holds just those.
use rfguard.Common.Tests.{
  ◌≡◌, refl, ap, Bool, true, false, ◌||◌, List, [], ◌∷◌, Option, none, some, arith,
}
use rfguard.Common.Eq.{Eq, ◌==◌, beq_refl}
use rfguard.Common.Lists.{length}
use rfguard.Common.Maps.{
  Map, lookup, has, delete, Distinct, has-delete, delete-Distinct, length-delete,
}

abbrev pub is_some {ℓ} : {A : Type ℓ} → Option A → Bool
is_some none = false
is_some (some a) = true

module _ {ℓ} {K : Type ℓ} ⦃e : Eq K⦄ where
  abbrev pub contains : K → List K → Bool
  contains k [] = false
  contains k (x ∷ xs) = x == k || contains k xs

  abbrev pub Unique : List K → Type 0
  Unique [] = Unit {0}
  Unique (x ∷ xs) = (contains x xs ≡ false) × Unique xs

  module _ {κ} {V : Type κ} where
    pub has-lookup : (k : K) (m : Map K V) → has k m ≡ is_some (lookup k m)
    unfolding has lookup
    has-lookup k [] = refl
    has-lookup k ((j, v) ∷ m) = ground (arith, has-lookup k m)

    nil_of_has_none : (m : Map K V) → ((k : K) → has k m ≡ false) → m ≡ []
    unfolding has
    nil_of_has_none [] h = refl
    nil_of_has_none ((j, v) ∷ m) h = ground (arith, h j, beq_refl j)

    -- Two lists of the same keys, without repetition, are equally long.
    pub length-eq_of_keys :
        (ks : List K) (m : Map K V)
        → Unique ks
        → Distinct m
        → ((k : K) → has k m ≡ contains k ks)
        → length m ≡ length ks
    length-eq_of_keys [] m u d h = ap length (nil_of_has_none m h)
    length-eq_of_keys (x ∷ ks) m u d h = ground (
      arith,
      length-delete x m d,
      h x,
      beq_refl x,
      length-eq_of_keys ks (delete x m) u.1 (delete-Distinct x m d)
          (λ k. ground (arith, has-delete x k m, h k, e.beq_iff x k, u.0)),
    )
