-- ===== src/Access/Uid.antt =====
-- `normalizeUID`: upper-case hexadecimal digits, whatever the case and the separators.
use mathlib.Core.List.{append-nil}
use rfguard.Common.Tests.{
  ℕ, ◌≤◌, ◌≡◌, refl, sym, ◌∙◌, true, [], ◌∷◌, ◌++◌, none, some, arith, ◌⊎◌, Bool-cases, inl, inr,
}
use rfguard.Common.Lists.{All, drop_while}
use rfguard.Common.Text.{Text, is_empty, trim_space, trim_end, is_space, lower, to_lower}
use rfguard.Access.{hex_digit, hex_digits, normalize_uid}

abbrev pub IsUpperHex : ℕ → Type 0
IsUpperHex c = ((b'0' ≤ c) × (c ≤ b'9')) ⊎ ((b'A' ≤ c) × (c ≤ b'F'))

hex_digit-IsUpperHex : (r c : ℕ) → hex_digit r ≡ some c → IsUpperHex c
unfolding hex_digit
hex_digit-IsUpperHex r c h = ground arith

hex_digit_of_IsUpperHex : (c : ℕ) → IsUpperHex c → hex_digit c ≡ some c
unfolding hex_digit
hex_digit_of_IsUpperHex c h = ground arith

hex_digits-IsUpperHex : (s : Text) → All IsUpperHex (hex_digits s)
unfolding hex_digits
hex_digits-IsUpperHex [] = tt
hex_digits-IsUpperHex (r ∷ s) = ground (arith, hex_digit-IsUpperHex r, hex_digits-IsUpperHex s)

hex_digits_of_IsUpperHex : (s : Text) → All IsUpperHex s → hex_digits s ≡ s
unfolding hex_digits
hex_digits_of_IsUpperHex [] h = refl
hex_digits_of_IsUpperHex (c ∷ s) h =
    ground (arith, hex_digit_of_IsUpperHex c h.0, hex_digits_of_IsUpperHex s h.1)

hex_digits-append : (s t : Text) → hex_digits (s ++ t) ≡ hex_digits s ++ hex_digits t
unfolding hex_digits
hex_digits-append [] t = refl
hex_digits-append (r ∷ s) t = ground (arith, hex_digits-append s t)

hex_digit_space : (r : ℕ) → is_space r ≡ true → hex_digit r ≡ none
unfolding hex_digit is_space
hex_digit_space r h = ground arith

hex_digits-drop_while : (s : Text) → hex_digits (drop_while is_space s) ≡ hex_digits s
unfolding hex_digits
hex_digits-drop_while [] = refl
hex_digits-drop_while (r ∷ s) = ground (arith, hex_digit_space r, hex_digits-drop_while s)

hex_digits-trim_end : (s : Text) → hex_digits (trim_end is_space s) ≡ hex_digits s
unfolding hex_digits trim_end
hex_digits-trim_end [] = refl
hex_digits-trim_end (r ∷ s) = ground (arith, hex_digit_space r, hex_digits-trim_end s)

pub hex_digits-trim_space : (s : Text) → hex_digits (trim_space s) ≡ hex_digits s
unfolding trim_space
hex_digits-trim_space s = hex_digits-trim_end (drop_while is_space s) ∙ hex_digits-drop_while s

-- Trimming makes no difference, since no space is a digit.
pub normalize_uid-hex_digits : (s : Text) → normalize_uid s ≡ hex_digits s
unfolding normalize_uid
normalize_uid-hex_digits s = elim (Bool-cases (is_empty (trim_space s))) [
  | inl empty ↦ ground (arith, hex_digits-trim_space s)
  | inr full ↦ rw full (hex_digits-trim_space s)
]

hex_digit-lower : (r : ℕ) → hex_digit (lower r) ≡ hex_digit r
unfolding hex_digit lower
hex_digit-lower r = ground arith

hex_digits-to_lower : (s : Text) → hex_digits (to_lower s) ≡ hex_digits s
unfolding hex_digits to_lower
hex_digits-to_lower [] = refl
hex_digits-to_lower (r ∷ s) = ground (arith, hex_digit-lower r, hex_digits-to_lower s)

-- A normalised UID is a row of upper-case hexadecimal digits, and normalising it again changes nothing.
pub normalize_uid_lem :
    (s : Text)
    → All IsUpperHex (normalize_uid s) × (normalize_uid (normalize_uid s) ≡ normalize_uid s)
normalize_uid_lem s =
    let same = normalize_uid-hex_digits s in
    let hex = rw (sym same) at (hex_digits-IsUpperHex s) in
    (
      hex,
      normalize_uid-hex_digits (normalize_uid s) ∙ hex_digits_of_IsUpperHex (normalize_uid s) hex,
    )

-- Case does not matter, nor does what stands between two parts, if no digit is in it: "dead-beef" and
-- "DE AD BE EF" are one UID.
pub normalize_uid_parts :
    (s sep t : Text)
    → normalize_uid sep ≡ []
    → (normalize_uid (s ++ sep ++ t) ≡ normalize_uid s ++ normalize_uid t)
      × (normalize_uid (to_lower s) ≡ normalize_uid s)
normalize_uid_parts s sep t h =
    let flat = sym (normalize_uid-hex_digits sep) ∙ h in
    (
      rw
          (
            normalize_uid-hex_digits (s ++ sep ++ t),
            normalize_uid-hex_digits s,
            normalize_uid-hex_digits t,
            hex_digits-append (s ++ sep) t,
            hex_digits-append s sep,
            flat,
            append-nil (hex_digits s),
          )
          refl,
      rw (normalize_uid-hex_digits (to_lower s), normalize_uid-hex_digits s)
          (hex_digits-to_lower s),
    )

pub normalize_uid-nil : normalize_uid [] ≡ []
unfolding normalize_uid trim_space
normalize_uid-nil = refl
