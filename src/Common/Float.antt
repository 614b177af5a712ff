-- ===== src/Common/Float.antt =====
-- What the program uses of `float64`: the conversions from and to `int`, the four operations and
-- the two orders. Proofs use the laws of `IsOrdered` alone, all of which hold in IEEE 754 for the values named
-- there; the laws of arithmetic that rounding breaks are not assumed.
use rfguard.Common.Tests.{ℕ, ◌≡◌, Bool, false}
use rfguard.Common.Int.{ℤ, pos, ◌≤ℤ◌, ◌<ℤ◌}

pub record Float (F : Type 0) : Type 0 where
  pub of_int : ℤ → F
  -- `int(x)`, which truncates.
  pub to_int : F → ℤ
  pub add : F → F → F
  pub sub : F → F → F
  pub mul : F → F → F
  pub div : F → F → F
  pub lt : F → F → Bool
  pub le : F → F → Bool

module _ {F : Type 0} ⦃d : Float F⦄ where
  abbrev pub zero_f : F
  zero_f = d.of_int (pos 0)

  abbrev pub one_f : F
  one_f = d.of_int (pos 1)

  -- A decimal literal: `decimal 7 10` is 0.7.
  abbrev pub decimal : ℕ → ℕ → F
  decimal n k = d.div (d.of_int (pos n)) (d.of_int (pos k))

-- `x < y` is false for a NaN, so `¬ (y < x)` says less than `x <= y`.
pub record IsOrdered (F : Type 0) ⦃d : Float F⦄ : Type 0 where
  -- Conversion from `int` never turns an order round.
  pub of_int_mono : (a b : ℤ) → a ≤ℤ b → d.lt (d.of_int b) (d.of_int a) ≡ false
  -- Nor does division by a positive `int`.
  pub div_mono :
      (a b n : ℤ)
      → a ≤ℤ b
      → pos 0 <ℤ n
      → d.lt (d.div (d.of_int b) (d.of_int n)) (d.div (d.of_int a) (d.of_int n)) ≡ false
  pub div_self : (n : ℤ) → pos 0 <ℤ n → d.div (d.of_int n) (d.of_int n) ≡ d.of_int (pos 1)
  pub zero_div : (n : ℤ) → pos 0 <ℤ n → d.div (d.of_int (pos 0)) (d.of_int n) ≡ d.of_int (pos 0)
  pub lt_irrefl : (x : F) → d.lt x x ≡ false
  -- The literal 0.0001 is positive.
  pub small_pos : d.le (decimal 1 10_000) zero_f ≡ false
