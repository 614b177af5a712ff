-- ===== src/Normalize/Unix.antt =====
-- Unix timestamps: a number of seconds, or of milliseconds if it has thirteen digits or more.
use rfguard.Common.Tests.{
  ℕ, zero, suc, ◌+◌, ◌*◌, ◌/◌, ◌%◌, ◌≤◌, ◌<◌, ◌≡◌, refl, true, false, not, [], ◌∷◌, some,
  if◌then◌else◌, arith, ltb, leb, Bool-cases, inl, inr,
}
use rfguard.Common.Lists.{length, length-append, All, all}
use rfguard.Common.Text.{Text, is_empty, is_space, trim_end, trim_space}
use rfguard.Common.Int.{pos, max_int, ◌+ℤ◌}
use rfguard.Common.Clock.{Time, second}
use rfguard.Cooldown.{digits_of, itoa}
use rfguard.Cooldown.Keys.{IsDigit, digits_of-IsDigit, number_from-digits_of}
use rfguard.Normalize.{
  Times, epoch, is_digit, is_numeric, millisecond, parse_int, parse_timestamp, parse_unix, wrap_int,
}

ten_to : ℕ → ℕ
ten_to zero = 1
ten_to (suc k) = 10 * ten_to k

ten_to-pos : (k : ℕ) → 0 < ten_to k
unfolding ten_to
ten_to-pos zero = omega arith
ten_to-pos (suc k) = omega (arith, ten_to-pos k)

length-digits_of-le : (k fuel n : ℕ) → n < 10 * ten_to k → length (digits_of fuel n) ≤ suc k
unfolding ten_to digits_of
length-digits_of-le k zero n h = omega arith
length-digits_of-le zero (suc fuel) n h = ground arith
length-digits_of-le (suc k) (suc fuel) n h =
    let below : n / 10 < 10 * ten_to k = omega arith in
    ground (
      arith,
      length-digits_of-le k fuel (n / 10) below,
      length-append (digits_of fuel (n / 10)) ((b'0' + n % 10) ∷ []),
    )

length-digits_of-ge : (k fuel n : ℕ) → n < fuel → ten_to k ≤ n → k < length (digits_of fuel n)
unfolding ten_to digits_of
length-digits_of-ge k zero n room h = absurd (omega arith)
length-digits_of-ge zero (suc fuel) n room h =
    ground (arith, length-append (digits_of fuel (n / 10)) ((b'0' + n % 10) ∷ []))
length-digits_of-ge (suc k) (suc fuel) n room h =
    let room' : n / 10 < fuel = omega (arith, ten_to-pos k) in
    let below : ten_to k ≤ n / 10 = omega arith in
    ground (
      arith,
      ten_to-pos k,
      length-digits_of-ge k fuel (n / 10) room' below,
      length-append (digits_of fuel (n / 10)) ((b'0' + n % 10) ∷ []),
    )

trim_end_digits : (s : Text) → All IsDigit s → trim_end is_space s ≡ s
unfolding trim_end is_space
trim_end_digits [] h = refl
trim_end_digits (c ∷ s) h = ground (arith, trim_end_digits s h.1, h.0)

trim_space_digits : (s : Text) → All IsDigit s → trim_space s ≡ s
unfolding trim_space is_space
trim_space_digits [] h = unfold trim_end in refl
trim_space_digits (c ∷ s) h =
    let solid : is_space c ≡ false = ground (arith, h.0) in rw solid (trim_end_digits (c ∷ s) h)

all_digits : (s : Text) → All IsDigit s → all is_digit s ≡ true
all_digits [] h = refl
all_digits (c ∷ s) h = ground (arith, all_digits s h.1, h.0)

is_numeric_digits : (s : Text) → All IsDigit s → is_empty s ≡ false → is_numeric s ≡ true
unfolding is_numeric
is_numeric_digits s h full = ground (arith, all_digits s h)

is_empty_of_length : (s : Text) → 0 < length s → is_empty s ≡ false
is_empty_of_length [] h = absurd (omega arith)
is_empty_of_length (c ∷ s) h = refl

-- The instant that a Unix timestamp stands for.
abbrev pub unix_time : ℕ → Time
unix_time n = epoch +ℤ pos (if ltb n 1_000_000_000_000 then n * second else n * millisecond)

wrap_int_small : (n : ℕ) → n ≤ max_int → wrap_int n ≡ pos n
unfolding wrap_int
wrap_int_small n h = ground arith

parse_int-itoa : (n : ℕ) → n ≤ max_int → parse_int (itoa (pos n)) ≡ some n
unfolding parse_int itoa
parse_int-itoa n h = ground (arith, number_from-digits_of (suc n) n (omega arith))

itoa-IsDigit : (n : ℕ) → All IsDigit (itoa (pos n))
unfolding itoa
itoa-IsDigit n = digits_of-IsDigit (suc n) n

length-itoa-pos : (n : ℕ) → 0 < length (itoa (pos n))
unfolding itoa digits_of
length-itoa-pos n = ground (arith, length-append (digits_of n (n / 10)) ((b'0' + n % 10) ∷ []))

long_itoa : (n : ℕ) → leb 13 (length (itoa (pos n))) ≡ not (ltb n 1_000_000_000_000)
unfolding itoa ten_to
long_itoa n = elim (Bool-cases (ltb n 1_000_000_000_000)) [
  | inl small ↦
      let below : n < 10 * ten_to 11 = ground arith in
      ground (arith, length-digits_of-le 11 (suc n) n below)
  | inr large ↦
      let above : ten_to 12 ≤ n = ground arith in
      ground (arith, length-digits_of-ge 12 (suc n) n (omega arith) above)
]

parse_unix-itoa :
    (n : ℕ) → n * millisecond ≤ max_int → parse_unix (itoa (pos n)) ≡ some (unix_time n)
unfolding parse_unix
parse_unix-itoa n h =
    let read = parse_int-itoa n (omega arith) in
    elim (Bool-cases (ltb n 1_000_000_000_000)) [
      | inl small ↦ rw (long_itoa n, small, read) refl
      | inr large ↦ rw (long_itoa n, large, read, wrap_int_small (n * millisecond) h) refl
    ]

-- A decimal number of seconds below 10^12, or of milliseconds from there on as long as `int64` holds
-- its nanoseconds, is read as that instant, in every location.
pub parse_timestamp-itoa :
    {Location : Type 0} (times : Times Location) (n : ℕ) (loc : Location) (now : Time)
    → n * millisecond ≤ max_int
    → parse_timestamp times (itoa (pos n)) loc now ≡ some (unix_time n)
unfolding parse_timestamp
parse_timestamp-itoa times n loc now h =
    let digits = itoa-IsDigit n in
    let full = is_empty_of_length (itoa (pos n)) (length-itoa-pos n) in
    rw
      (
        trim_space_digits (itoa (pos n)) digits,
        full,
        is_numeric_digits (itoa (pos n)) digits full,
        parse_unix-itoa n h,
      )
      refl
