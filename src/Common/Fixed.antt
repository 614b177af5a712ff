-- ===== src/Common/Fixed.antt =====
-- An executable `float64` for the tests: fixed point with nine decimals, which meets the laws.
use native.Mathlib.Nat.{
  div-zero, div-mul-le_self, le-div_iff_mul-le, le_trans, div-eq_of_eq-mul_left,
}
use rfguard.Common.Tests.{ap, ℕ, zero, suc, ◌*◌, ◌/◌, ◌≤◌, ◌≡◌, false, arith, refl}
use rfguard.Common.Int.{
  ℤ, pos, negsuc, ◌+ℤ◌, ◌-ℤ◌, ◌*ℤ◌, quot, ltb_ℤ, neg_ℕ, ◌≤ℤ◌, ◌<ℤ◌, ge→ltb_ℤ, leb_ℤ,
}
use rfguard.Common.Float.{Float, IsOrdered}

abbrev scale : ℕ
scale = 1_000_000_000

unfoldable pub scaled : ℤ → ℤ
scaled (pos n) = pos (n * scale)
scaled (negsuc n) = neg_ℕ (suc n * scale)

-- The quotient by any integer; by 0 it is 0.
unfoldable pub ratio : ℤ → ℤ → ℤ
unfolding quot ◌-ℤ◌
ratio a (pos n) = quot a n
ratio a (negsuc n) = quot (pos 0 -ℤ a) (suc n)

instance unfoldable pub fixed_float : Float ℤ
unfolding scaled ratio
fixed_float = record {
  of_int = scaled;
  to_int = λ x. quot x scale;
  add = ◌+ℤ◌;
  sub = ◌-ℤ◌;
  mul = λ x y. quot (x *ℤ y) scale;
  div = λ x y. ratio (scaled x) y;
  lt = ltb_ℤ;
  le = leb_ℤ;
}

scaled_mono : (a b : ℤ) → a ≤ℤ b → scaled a ≤ℤ scaled b
unfolding scaled
scaled_mono a b h = ground arith

div_mono : (a b k : ℕ) → a ≤ b → a / k ≤ b / k
div_mono a b zero h = rw (div-zero a) (omega arith)
div_mono a b (suc k) h =
    (le-div_iff_mul-le {k = suc k} {x = a / suc k} (omega arith)).1
      (le_trans (div-mul-le_self a (suc k)) h)

quot_mono : (a b : ℤ) (k : ℕ) → a ≤ℤ b → quot a k ≤ℤ quot b k
unfolding quot
quot_mono (pos m) (pos n) k h = ground (arith, div_mono m n k)
quot_mono (pos m) (negsuc n) k h = absurd (omega arith)
quot_mono (negsuc m) (pos n) k h = ground arith
quot_mono (negsuc m) (negsuc n) k h = ground (arith, div_mono (suc n) (suc m) k)

fixed_div_mono :
    (a b n : ℤ)
    → a ≤ℤ b
    → pos 0 <ℤ n
    → ltb_ℤ (ratio (scaled (scaled b)) (scaled n)) (ratio (scaled (scaled a)) (scaled n)) ≡ false
unfolding ratio scaled
fixed_div_mono a b (pos n) h k =
    ge→ltb_ℤ (quot (scaled (scaled b)) (n * scale)) (quot (scaled (scaled a)) (n * scale)) (
      quot_mono (scaled (scaled a)) (scaled (scaled b)) (n * scale)
        (scaled_mono (scaled a) (scaled b) (scaled_mono a b h)))
fixed_div_mono a b (negsuc n) h k = absurd (omega arith)

fixed_div_self : (n : ℤ) → pos 0 <ℤ n → ratio (scaled (scaled n)) (scaled n) ≡ scaled (pos 1)
unfolding ratio scaled quot
fixed_div_self (pos n) k = ap pos (div-eq_of_eq-mul_left (omega arith) (omega arith))
fixed_div_self (negsuc n) k = absurd (omega arith)

fixed_zero_div : (n : ℤ) → pos 0 <ℤ n → ratio (scaled (scaled (pos 0))) (scaled n) ≡ scaled (pos 0)
unfolding ratio scaled quot
fixed_zero_div (pos n) k = ap pos (div-eq_of_eq-mul_left (omega arith) (omega arith))
fixed_zero_div (negsuc n) k = absurd (omega arith)

pub Fixed-IsOrdered : IsOrdered ℤ
unfolding scaled ratio quot fixed_float
Fixed-IsOrdered = record {
  of_int_mono = λ a b h. ge→ltb_ℤ (scaled b) (scaled a) (scaled_mono a b h);
  div_mono = fixed_div_mono;
  div_self = fixed_div_self;
  zero_div = fixed_zero_div;
  lt_irrefl = λ x. ge→ltb_ℤ x x (omega arith);
  small_pos = refl;
}
