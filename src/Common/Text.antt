-- ===== src/Common/Text.antt =====
-- Go strings, as lists of code points: valid UTF-8 is assumed, and `range` over a string is
-- recursion over the list. `strings.TrimSpace` and `strings.ToLower` are written out.
use Prim.Native.Char.{code}
use Prim.Native.String.{String}
use rfguard.Common.Tests.{
  ℕ, ◌+◌, ◌≤◌, ◌≡◌, refl, ap, ◌↔◌, Bool, true, false, ◌&&◌, ◌||◌, List, [], ◌∷◌, ◌++◌, map, arith,
  leb, eqb, eqb_iff, if◌then◌else◌,
}
use rfguard.Common.Eq.{Eq}
use rfguard.Common.Lists.{length, drop_while}

abbrev pub Text : Type 0
Text = List ℕ

-- The code points of a literal.
abbrev pub codes : String → Text
codes String.[] = []
codes (String.◌∷◌ c s) = code c ∷ codes s

abbrev pub eq_text : Text → Text → Bool
eq_text [] [] = true
eq_text [] (y ∷ t) = false
eq_text (x ∷ s) [] = false
eq_text (x ∷ s) (y ∷ t) = eqb x y && eq_text s t

pub eq_text_iff : (s t : Text) → (eq_text s t ≡ true) ↔ (s ≡ t)
eq_text_iff [] [] = ground arith
eq_text_iff [] (y ∷ t) = ground arith
eq_text_iff (x ∷ s) [] = ground arith
eq_text_iff (x ∷ s) (y ∷ t) = ground (arith, eq_text_iff s t, eqb_iff x y)

instance abbrev pub text_eq : Eq Text
text_eq = record { beq = eq_text; beq_iff = eq_text_iff }

abbrev pub is_empty : Text → Bool
is_empty [] = true
is_empty (c ∷ s) = false

-- `unicode.IsSpace`.
unfoldable pub is_space : ℕ → Bool
is_space c =
    (leb 0x09 c && leb c 0x0d)
    || eqb c 0x20
    || eqb c 0x85
    || eqb c 0xa0
    || eqb c 0x1680
    || (leb 0x2000 c && leb c 0x200a)
    || eqb c 0x2028
    || eqb c 0x2029
    || eqb c 0x202f
    || eqb c 0x205f
    || eqb c 0x3000

-- Drop the characters at the end that pass the test.
unfoldable pub trim_end : (ℕ → Bool) → Text → Text
trim_end p [] = []
trim_end p (c ∷ s) = let rest = trim_end p s in if is_empty rest && p c then [] else c ∷ rest

-- `strings.TrimSpace`.
unfoldable pub trim_space : Text → Text
unfolding is_space trim_end
trim_space s = trim_end is_space (drop_while is_space s)

-- `strings.ToLower`. Beyond ASCII only the two characters whose lower case is an ASCII letter are
-- mapped: no test of the program can tell the others apart.
unfoldable pub lower : ℕ → ℕ
lower c =
    if leb b'A' c && leb c b'Z'
    then c + 32
    else if eqb c 0x130
    then b'i'
    else if eqb c 0x212a
    then b'k'
    else c

unfoldable pub to_lower : Text → Text
unfolding lower
to_lower = map lower

-- `strings.Join`.
unfoldable pub join : Text → List Text → Text
join sep [] = []
join sep (s ∷ []) = s
join sep (s ∷ t ∷ rest) = s ++ sep ++ join sep (t ∷ rest)

pub drop_while_idem : (p : ℕ → Bool) (s : Text) → drop_while p (drop_while p s) ≡ drop_while p s
drop_while_idem p [] = refl
drop_while_idem p (c ∷ s) = ground (arith, drop_while_idem p s)

pub trim_end_idem : (p : ℕ → Bool) (s : Text) → trim_end p (trim_end p s) ≡ trim_end p s
unfolding trim_end
trim_end_idem p [] = refl
trim_end_idem p (c ∷ s) = ground (arith, trim_end_idem p s)

length-drop_while : (p : ℕ → Bool) (s : Text) → length (drop_while p s) ≤ length s
length-drop_while p [] = omega arith
length-drop_while p (c ∷ s) = ground (arith, length-drop_while p s)

-- Trimming the end leaves the first character alone, if that is kept.
pub drop_while-trim_end :
    (p : ℕ → Bool) (s : Text) → drop_while p s ≡ s → drop_while p (trim_end p s) ≡ trim_end p s
unfolding trim_end
drop_while-trim_end p [] h = refl
drop_while-trim_end p (c ∷ s) h =
    let short = length-drop_while p s in let same = ap length h in ground (arith, same, short)

-- Trimming twice is trimming once.
pub trim_space_idem : (s : Text) → trim_space (trim_space s) ≡ trim_space s
unfolding trim_space
trim_space_idem s =
    rw (drop_while-trim_end is_space _ (drop_while_idem is_space s))
      (trim_end_idem is_space (drop_while is_space s))

pub lower_idem : (c : ℕ) → lower (lower c) ≡ lower c
unfolding lower
lower_idem c = ground arith

pub to_lower_idem : (s : Text) → to_lower (to_lower s) ≡ to_lower s
unfolding to_lower
to_lower_idem [] = refl
to_lower_idem (c ∷ s) = cc (lower_idem c, to_lower_idem s)
