-- ===== src/Ingest/Plain/Pairs.antt =====
-- The pairs that a line of plain text holds.
use rfguard.Common.Tests.{
  ℕ, zero, suc, ◌+◌, ◌≤◌, ◌<◌, ◌≡◌, ◌≢◌, refl, ap, ◌∙◌, Bool, true, false, not, List, [], ◌∷◌, ◌++◌,
  some, eqb, arith, Bool-cases, Option-cases, inl, inr,
}
use rfguard.Common.Lists.{length, length-append, All, all}
use rfguard.Common.Text.{Text}
use rfguard.Ingest.Plain.{span, re_space, in_key, key_with, key_and, match_pair, find_all, pairs_of}

length-span : (p : ℕ → Bool) (s : Text) → length (span p s).0 + length (span p s).1 ≡ length s
unfolding span
length-span p [] = refl
length-span p (c ∷ s) = ground (arith, length-span p s)

key_with-shorter :
    (key : Text) (v pair : Text × Text) (rest : Text)
    → key_with key v ≡ some (pair, rest)
    → rest ≡ v.1
key_with-shorter key ([], after) pair rest h = ground (arith, h)
key_with-shorter key (c ∷ value, after) pair rest h = ground (arith, h)

key_and-shorter :
    (k pair : Text × Text) (rest : Text)
    → key_and k ≡ some (pair, rest)
    → length rest < length k.0 + length k.1
key_and-shorter (key, []) pair rest h = ground (arith, h)
key_and-shorter ([], c ∷ s) pair rest h = ground (arith, h)
key_and-shorter (d ∷ key, c ∷ s) pair rest h = elim (Bool-cases (eqb c b'=')) [
  | inl equals ↦
      let value = span (λ e. not (re_space e)) s in
      let same = key_with-shorter (d ∷ key) value pair rest (rw equals at h) in
      rw same (omega (arith, length-span (λ e. not (re_space e)) s))
  | inr other ↦ ground (arith, h, other)
]

-- What a match leaves is shorter than the text.
match_pair-shorter :
    (s : Text) (pair : Text × Text) (rest : Text)
    → match_pair s ≡ some (pair, rest)
    → length rest < length s
unfolding match_pair
match_pair-shorter s pair rest h =
    omega (arith, key_and-shorter (span in_key s) pair rest h, length-span in_key s)

find_all_same : (n k : ℕ) (s : Text) → length s ≤ n → length s ≤ k → find_all n s ≡ find_all k s
unfolding find_all
find_all_same zero zero s h l = refl
find_all_same zero (suc k) [] h l = refl
find_all_same zero (suc k) (c ∷ s) h l = absurd (omega (arith, h))
find_all_same (suc n) zero [] h l = refl
find_all_same (suc n) zero (c ∷ s) h l = absurd (omega (arith, l))
find_all_same (suc n) (suc k) [] h l = refl
find_all_same (suc n) (suc k) (c ∷ s) h l = elim (Option-cases (match_pair (c ∷ s))) [
  | inl missed ↦ rw (find_all, missed) (find_all_same n k s (omega (arith, h)) (omega (arith, l)))
  | inr ((pair, rest), found) ↦
      let short = match_pair-shorter (c ∷ s) pair rest found in
      rw (find_all, found)
        (ap (◌∷◌ pair) (find_all_same n k rest (omega (arith, h, short)) (omega (arith, l, short))))
]

-- As much fuel as the line is long is enough: with more of it, the matches are the same.
pub find_all-pairs_of : (n : ℕ) (line : Text) → length line ≤ n → find_all n line ≡ pairs_of line
find_all-pairs_of n line h = find_all_same n (length line) line h (omega arith)

-- The names and values that a pair can hold, and a line of pairs.
abbrev pub IsPair : Text × Text → Type 0
IsPair (key, value) =
    (key ≢ []) × (value ≢ []) × (all in_key key ≡ true) × (all (λ c. not (re_space c)) value ≡ true)

abbrev pub write_pair : Text × Text → Text → Text
write_pair (key, value) rest = key ++ (b'=' ∷ value ++ rest)

unfoldable pub write_pairs : List (Text × Text) → Text
write_pairs [] = []
write_pairs (pair ∷ pairs) = write_pair pair (b' ' ∷ write_pairs pairs)

span-append :
    (p : ℕ → Bool) (s : Text) (c : ℕ) (t : Text)
    → all p s ≡ true
    → p c ≡ false
    → span p (s ++ (c ∷ t)) ≡ (s, c ∷ t)
unfolding span
span-append p [] c t h g = rw g refl
span-append p (d ∷ s) c t h g = rw (span-append p s c t (ground (arith, h)) g) (ground (arith, h))

match_pair-write :
    (pair : Text × Text) (rest : Text)
    → IsPair pair
    → match_pair (write_pair pair (b' ' ∷ rest)) ≡ some (pair, b' ' ∷ rest)
unfolding match_pair
match_pair-write ([], value) rest h = absurd (h.0 refl)
match_pair-write (c ∷ key, []) rest h = absurd (h.1 refl)
match_pair-write (c ∷ key, d ∷ value) rest h =
    ap key_and (span-append in_key (c ∷ key) b'=' (d ∷ value ++ (b' ' ∷ rest)) h.2 refl)
    ∙ ap (key_with (c ∷ key)) (span-append (λ e. not (re_space e)) (d ∷ value) b' ' rest h.3 refl)

find_all-space : (n : ℕ) (rest : Text) → find_all (suc n) (b' ' ∷ rest) ≡ find_all n rest
unfolding find_all match_pair span
find_all-space n rest = refl

find_all-write_pair :
    (n : ℕ) (pair : Text × Text) (rest : Text)
    → IsPair pair
    → find_all (suc n) (write_pair pair (b' ' ∷ rest)) ≡ pair ∷ find_all n (b' ' ∷ rest)
unfolding find_all
find_all-write_pair n ([], value) rest h = absurd (h.0 refl)
find_all-write_pair n (c ∷ key, value) rest h =
    rw (find_all, match_pair-write (c ∷ key, value) rest h) refl

length-write_pair :
    (pair : Text × Text) (rest : Text) → suc (length rest) ≤ length (write_pair pair rest)
length-write_pair (key, value) rest =
    omega (arith, length-append key (b'=' ∷ value ++ rest), length-append value rest)

find_all-write_pairs :
    (pairs : List (Text × Text)) (n : ℕ)
    → All IsPair pairs
    → length (write_pairs pairs) ≤ n
    → find_all n (write_pairs pairs) ≡ pairs
unfolding write_pairs find_all
find_all-write_pairs [] zero h l = refl
find_all-write_pairs [] (suc n) h l = refl
find_all-write_pairs (pair ∷ pairs) zero h l =
    absurd (omega (arith, l, length-write_pair pair (b' ' ∷ write_pairs pairs)))
find_all-write_pairs (pair ∷ pairs) (suc zero) h l =
    absurd (omega (arith, l, length-write_pair pair (b' ' ∷ write_pairs pairs)))
find_all-write_pairs (pair ∷ pairs) (suc (suc n)) h l =
    let long = length-write_pair pair (b' ' ∷ write_pairs pairs) in
    find_all-write_pair (suc n) pair (write_pairs pairs) h.0
    ∙ ap (◌∷◌ pair) (
        find_all-space n (write_pairs pairs)
        ∙ find_all-write_pairs pairs n h.1 (omega (arith, l, long)))

-- A line of pairs, each `key=value` with a space behind it, is taken apart into these pairs, if the
-- keys are of letters and underscores and no value has space in it.
pub pairs_of-write_pairs :
    (pairs : List (Text × Text)) → All IsPair pairs → pairs_of (write_pairs pairs) ≡ pairs
pairs_of-write_pairs pairs h =
    find_all-write_pairs pairs (length (write_pairs pairs)) h (omega arith)
