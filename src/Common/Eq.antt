-- ===== src/Common/Eq.antt =====
-- The equality test of the types that Go compares by `==`, as an interface.
use rfguard.Common.Tests.{
  ℕ, ◌≡◌, refl, ◌≢◌, ◌↔◌, Bool, true, false, eqb, eqb_iff, Bool-cases, inl, inr, ◌⊎◌, arith,
}

pub record Eq {ℓ} (A : Type ℓ) : Type ℓ where
  pub beq : A → A → Bool
  pub beq_iff : (x y : A) → (beq x y ≡ true) ↔ (x ≡ y)

instance abbrev pub nat_eq : Eq ℕ
nat_eq = record { beq = eqb; beq_iff = eqb_iff }

infix 50 ◌==◌
abbrev pub ◌==◌ {ℓ} : {A : Type ℓ} ⦃d : Eq A⦄ → A → A → Bool
◌==◌ ⦃d⦄ x y = d.beq x y

module _ {ℓ} {A : Type ℓ} ⦃e : Eq A⦄ where
  pub beq_refl : (a : A) → (a == a) ≡ true
  beq_refl a = (e.beq_iff a a).1 refl

  pub beq_ne : (a b : A) → a ≢ b → (a == b) ≡ false
  beq_ne a b h = elim (Bool-cases (a == b)) [ inl t ↦ absurd (h ((e.beq_iff a b).0 t)) | inr f ↦ f ]

  pub eq-or-ne : (a b : A) → (a ≡ b) ⊎ (a ≢ b)
  eq-or-ne a b = elim (Bool-cases (a == b)) [
    | inl t ↦ inl ((e.beq_iff a b).0 t)
    | inr f ↦ inr (λ p. ground (arith, e.beq_iff a b))
  ]
