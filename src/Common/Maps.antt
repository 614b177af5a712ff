-- ===== src/Common/Maps.antt =====
-- Go maps, as association lists with distinct keys: `m[k]`, `m[k] = v`, `delete(m, k)`, `len(m)`.
-- The order of the list stands for the order in which one `range` visits the map.
use rfguard.Common.Tests.{
  suc, ◌≡◌, refl, Bool, true, false, ◌||◌, List, [], ◌∷◌, Option, none, some, arith, if◌then◌else◌,
}
use rfguard.Common.Eq.{Eq, ◌==◌}
use rfguard.Common.Lists.{length}

abbrev pub Map {ℓ κ} : Type ℓ → Type κ → Type (ℓ ⊔ κ)
Map K V = List (K × V)

module _ {ℓ κ} {K : Type ℓ} {V : Type κ} ⦃e : Eq K⦄ where
  unfoldable pub lookup : K → Map K V → Option V
  lookup k [] = none
  lookup k ((j, v) ∷ m) = if j == k then some v else lookup k m

  unfoldable pub has : K → Map K V → Bool
  has k [] = false
  has k ((j, v) ∷ m) = j == k || has k m

  unfoldable pub insert : K → V → Map K V → Map K V
  insert key new [] = (key, new) ∷ []
  insert key new ((i, old) ∷ rest) =
      if i == key then (key, new) ∷ rest else (i, old) ∷ insert key new rest

  unfoldable pub delete : K → Map K V → Map K V
  delete k [] = []
  delete k ((j, w) ∷ m) = let rest = delete k m in if j == k then rest else (j, w) ∷ rest

  -- No key stands twice.
  abbrev pub Distinct : Map K V → Type 0
  Distinct [] = Unit {0}
  Distinct ((j, v) ∷ m) = (has j m ≡ false) × Distinct m

  pub lookup-insert :
      (set asked : K) (v : V) (m : Map K V)
      → lookup asked (insert set v m) ≡ (if set == asked then some v else lookup asked m)
  unfolding lookup insert
  lookup-insert set asked v [] = refl
  lookup-insert set asked v ((i, w) ∷ m) =
      ground (
        arith,
        lookup-insert set asked v m,
        e.beq_iff set asked,
        e.beq_iff i set,
        e.beq_iff i asked,
      )

  pub has-insert : (k j : K) (v : V) (m : Map K V) → has j (insert k v m) ≡ (k == j || has j m)
  unfolding has insert
  has-insert k j v [] = refl
  has-insert k j v ((i, w) ∷ m) =
      ground (arith, e.beq_iff k j, e.beq_iff i k, e.beq_iff i j, has-insert k j v m)

  pub lookup-delete :
      (k j : K) (m : Map K V) → lookup j (delete k m) ≡ (if k == j then none else lookup j m)
  unfolding lookup delete
  lookup-delete k j [] = ground arith
  lookup-delete k j ((i, w) ∷ m) =
      ground (arith, e.beq_iff k j, e.beq_iff i k, e.beq_iff i j, lookup-delete k j m)

  pub has-delete :
      (k j : K) (m : Map K V) → has j (delete k m) ≡ (if k == j then false else has j m)
  unfolding has delete
  has-delete k j [] = ground arith
  has-delete k j ((i, w) ∷ m) =
      ground (arith, e.beq_iff k j, e.beq_iff i k, e.beq_iff i j, has-delete k j m)

  pub insert-Distinct : (k : K) (v : V) (m : Map K V) → Distinct m → Distinct (insert k v m)
  unfolding insert has
  insert-Distinct k v [] d = (refl, tt)
  insert-Distinct k v ((i, w) ∷ m) d =
      ground (arith, insert-Distinct k v m d.1, e.beq_iff i k, has-insert k i v m, e.beq_iff k i)

  pub delete-Distinct : (k : K) (m : Map K V) → Distinct m → Distinct (delete k m)
  unfolding delete
  delete-Distinct k [] d = d
  delete-Distinct k ((i, w) ∷ m) d = ground (arith, delete-Distinct k m d.1, has-delete k i m)

  -- A key that is not there is not deleted, and one that is there goes.
  pub delete_absent : (k : K) (m : Map K V) → has k m ≡ false → delete k m ≡ m
  unfolding has delete
  delete_absent k [] h = refl
  delete_absent k ((i, w) ∷ m) h = ground (arith, delete_absent k m)

  pub length-delete :
      (k : K) (m : Map K V) → Distinct m → has k m ≡ true → suc (length (delete k m)) ≡ length m
  unfolding has delete
  length-delete k [] d h = ground arith
  length-delete k ((i, w) ∷ m) d h =
      ground (arith, length-delete k m d.1, delete_absent k m, e.beq_iff i k)

  pub length-insert :
      (k : K) (v : V) (m : Map K V)
      → length (insert k v m) ≡ (if has k m then length m else suc (length m))
  unfolding has insert
  length-insert k v [] = refl
  length-insert k v ((i, w) ∷ m) = ground (arith, length-insert k v m)

  pub has_of_lookup : (k : K) (v : V) (m : Map K V) → lookup k m ≡ some v → has k m ≡ true
  unfolding has lookup
  has_of_lookup k v [] h = ground arith
  has_of_lookup k v ((i, w) ∷ m) h = ground (arith, has_of_lookup k v m)

  pub lookup_of_has : (k : K) (m : Map K V) → has k m ≡ false → lookup k m ≡ none
  unfolding has lookup
  lookup_of_has k [] h = refl
  lookup_of_has k ((i, w) ∷ m) h = ground (arith, lookup_of_has k m)

  pub has_of_none : (k : K) (m : Map K V) → lookup k m ≡ none → has k m ≡ false
  unfolding has lookup
  has_of_none k [] h = refl
  has_of_none k ((i, w) ∷ m) h = ground (arith, has_of_none k m)

  pub ruleset map_laws = (lookup-insert, has-insert, lookup-delete, has-delete)
