-- ===== src/Cooldown/Keys.antt =====
-- `Allow` gives each reader and window a key of its own.
use rfguard.Common.Tests.{ℕ, zero, suc, ◌+◌, ◌/◌, ◌%◌, ◌≤◌, ◌<◌, ◌≡◌, ap, sym, [], ◌∷◌, arith}
use rfguard.Common.Lists.{All, All-append}
use rfguard.Common.Text.{Text}
use rfguard.Common.Split.{Free, split_last}
use rfguard.Common.Int.{ℤ, pos, negsuc}
use rfguard.Common.Digits.{number_from, number_from-snoc}
use rfguard.Cooldown.{digits_of, itoa, window_key}

abbrev pub IsDigit : ℕ → Type 0
IsDigit c = (b'0' ≤ c) × (c ≤ b'9')

pub digits_of-IsDigit : (fuel n : ℕ) → All IsDigit (digits_of fuel n)
unfolding digits_of
digits_of-IsDigit zero n = tt
digits_of-IsDigit (suc fuel) n = ground (
  arith,
  All-append IsDigit (digits_of fuel (n / 10)) ((b'0' + n % 10) ∷ [])
      (digits_of-IsDigit fuel (n / 10)) (omega arith),
)

-- With more fuel than the number the digits stand for it.
pub number_from-digits_of : (fuel n : ℕ) → n < fuel → number_from 0 (digits_of fuel n) ≡ n
unfolding number_from digits_of
number_from-digits_of zero n h = absurd (omega arith)
number_from-digits_of (suc fuel) n h = ground (
  arith,
  number_from-digits_of fuel (n / 10),
  number_from-snoc 0 (digits_of fuel (n / 10)) (b'0' + n % 10),
)

itoa-injective : (a b : ℤ) → itoa a ≡ itoa b → a ≡ b
unfolding itoa
itoa-injective (pos m) (pos n) e =
    ground (
      arith,
      number_from-digits_of (suc m) m,
      number_from-digits_of (suc n) n,
      ap (number_from 0) e,
    )
itoa-injective (pos m) (negsuc n) e =
    let digits = rw e at (digits_of-IsDigit (suc m) m) in absurd (omega (arith, digits.0))
itoa-injective (negsuc m) (pos n) e =
    let digits = rw (sym e) at (digits_of-IsDigit (suc n) n) in absurd (omega (arith, digits.0))
itoa-injective (negsuc m) (negsuc n) e =
    let tails : digits_of (suc (suc m)) (suc m) ≡ digits_of (suc (suc n)) (suc n) = ground arith in
    ground (
      arith,
      number_from-digits_of (suc (suc m)) (suc m),
      number_from-digits_of (suc (suc n)) (suc n),
      ap (number_from 0) tails,
    )

Free-of_IsDigit : (s : Text) → All IsDigit s → Free b'|' s
Free-of_IsDigit [] h = tt
Free-of_IsDigit (c ∷ s) h = (omega arith, Free-of_IsDigit s h.1)

itoa-Free : (a : ℤ) → Free b'|' (itoa a)
unfolding itoa
itoa-Free (pos n) = Free-of_IsDigit _ (digits_of-IsDigit (suc n) n)
itoa-Free (negsuc n) = (omega arith, Free-of_IsDigit _ (digits_of-IsDigit (suc (suc n)) (suc n)))

-- Two readers, or two windows of one, never share a key, also where a reader ID holds the separator.
pub window_key-injective :
    (r s : Text) (a b : ℤ) → window_key r a ≡ window_key s b → (r ≡ s) × (a ≡ b)
unfolding window_key
window_key-injective r s a b e =
    let (readers, windows) = split_last b'|' r (itoa a) s (itoa b) (itoa-Free a) (itoa-Free b) e in
    (readers, itoa-injective a b windows)
