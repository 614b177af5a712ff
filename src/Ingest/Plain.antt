-- ===== src/Ingest/Plain.antt =====
-- internal/ingest/parser.go: the lines of plain text. The three regular expressions are matchers over
-- the characters. They are greedy and never go back: in each, no character fits two pieces that
-- follow each other.
pub mod Pairs
use rfguard.Common.Tests.{
  ℕ, zero, suc, Bool, true, false, not, ◌||◌, ◌&&◌, List, [], ◌∷◌, ◌++◌, Option, none, some, eqb,
  leb, if◌then◌else◌,
}
use rfguard.Common.Lists.{length, drop_while}
use rfguard.Common.Maps.{Map, insert}
use rfguard.Common.Text.{Text, text_eq, is_empty, is_space, trim_space, to_lower}
use rfguard.Normalize.{EventFields, is_digit}
use rfguard.Ingest.Fields.{
  first_non_empty, no_fields, reader_names, uid_names, result_names, error_names,
}

-- The longest start of a text that passes a test, and the rest.
unfoldable pub span : (ℕ → Bool) → Text → Text × Text
span p [] = ([], [])
span p (c ∷ s) = let rest = span p s in if p c then (c ∷ rest.0, rest.1) else ([], c ∷ s)

-- `\s` of a regular expression.
abbrev pub re_space : ℕ → Bool
re_space c = eqb c 0x09 || eqb c 0x0a || eqb c 0x0c || eqb c 0x0d || eqb c 0x20

-- `[0-9:.+-Z]`, in which `+-Z` is a range.
abbrev pub in_time : ℕ → Bool
in_time c = leb b'+' c && leb c b'Z'

abbrev pub is_letter : ℕ → Bool
is_letter c = (leb b'A' c && leb c b'Z') || (leb b'a' c && leb c b'z')

-- `[a-zA-Z_]` where case is ignored, so that a long s and a kelvin sign are letters, too.
abbrev pub in_key : ℕ → Bool
in_key c = is_letter c || eqb c b'_' || eqb c 0x17f || eqb c 0x212a

pub data Piece : Type 0 where
  exactly : ℕ → (ℕ → Bool) → Piece
  one_or_more : (ℕ → Bool) → Piece
  one_or_two : (ℕ → Bool) → Piece

unfoldable pub match_count : ℕ → (ℕ → Bool) → Text → Option (Text × Text)
match_count zero p s = some ([], s)
match_count (suc n) p [] = none
match_count (suc n) p (c ∷ s) = elim (match_count n p s) [
  | none ↦ none
  | some (m, rest) ↦ if p c then some (c ∷ m, rest) else none
]

unfoldable pub match_piece : Piece → Text → Option (Text × Text)
unfolding match_count span
match_piece (exactly n p) s = match_count n p s
match_piece (one_or_more p) s = if is_empty (span p s).0 then none else some (span p s)
match_piece (one_or_two p) s = elim (match_count 2 p s) [
  | none ↦ match_count 1 p s
  | some m ↦ some m
]

unfoldable pub match_all : List Piece → Text → Option (Text × Text)
unfolding match_piece
match_all [] s = some ([], s)
match_all (piece ∷ pieces) s = elim (match_piece piece s) [
  | none ↦ none
  | some (m, rest) ↦ elim (match_all pieces rest) [
    | none ↦ none
    | some (n, after) ↦ some (m ++ n, after)
  ]
]

abbrev pub char : ℕ → Piece
char c = exactly 1 (eqb c)

-- The groups of `reTimestamp` and of `reSyslogTS`.
abbrev pub re_timestamp : List Piece
re_timestamp =
    exactly 4 is_digit
    ∷ char b'-'
    ∷ exactly 2 is_digit
    ∷ char b'-'
    ∷ exactly 2 is_digit
    ∷ exactly 1 (λ c. eqb c b' ' || eqb c b'T')
    ∷ one_or_more in_time
    ∷ []

abbrev pub re_syslog_ts : List Piece
re_syslog_ts =
    exactly 3 is_letter
    ∷ one_or_more re_space
    ∷ one_or_two is_digit
    ∷ one_or_more re_space
    ∷ exactly 2 is_digit
    ∷ char b':'
    ∷ exactly 2 is_digit
    ∷ char b':'
    ∷ exactly 2 is_digit
    ∷ []

-- A match at the start of a line, behind space: the group and what follows it.
abbrev pub match_at_start : List Piece → Text → Option (Text × Text)
match_at_start pieces line = match_all pieces (drop_while re_space line)

unfoldable pub extract_timestamp : Text → Text × Text
unfolding match_all
extract_timestamp line = elim (match_at_start re_timestamp line) [
  | some (ts, rest) ↦ (trim_space ts, trim_space rest)
  | none ↦ elim (match_at_start re_syslog_ts line) [
    | some (ts, rest) ↦ (trim_space ts, trim_space rest)
    | none ↦ ([], line)
  ]
]

abbrev pub key_with : Text → Text × Text → Option ((Text × Text) × Text)
key_with key (value, rest) = if is_empty value then none else some ((key, value), rest)

abbrev pub key_and : Text × Text → Option ((Text × Text) × Text)
key_and (key, []) = none
key_and (key, c ∷ s) =
    if is_empty key
    then none
    else if eqb c b'='
    then key_with key (span (λ d. not (re_space d)) s)
    else none

-- `reKV` at the start of a text: the two groups, and what follows them.
unfoldable pub match_pair : Text → Option ((Text × Text) × Text)
unfolding span
match_pair s = key_and (span in_key s)

-- `FindAllStringSubmatch`: the matches from left to right, on fuel.
unfoldable pub find_all : ℕ → Text → List (Text × Text)
unfolding match_pair
find_all zero s = []
find_all (suc n) [] = []
find_all (suc n) (c ∷ s) = elim (match_pair (c ∷ s)) [
  | none ↦ find_all n s
  | some (pair, rest) ↦ pair ∷ find_all n rest
]

abbrev pub pairs_of : Text → List (Text × Text)
pairs_of line = find_all (length line) line

unfoldable pub store_pairs : List (Text × Text) → Map Text Text → Map Text Text
store_pairs [] kv = kv
store_pairs ((key, value) ∷ pairs) kv = store_pairs pairs (insert (to_lower key) value kv)

-- The first of `strings.Fields`, if there is one.
unfoldable pub first_token : Text → Text
first_token s = (span (λ c. not (is_space c)) (drop_while is_space s)).0

unfoldable pub parse_plain : Text → EventFields
unfolding extract_timestamp find_all store_pairs first_non_empty first_token
parse_plain line =
    let found = extract_timestamp line in
    let kv = store_pairs (pairs_of line) [] in
    let reader = first_non_empty kv reader_names in
    record {
      timestamp = if is_empty found.0 then (extract_timestamp found.1).0 else found.0;
      reader_id = if is_empty reader && not (is_empty found.1) then first_token found.1 else reader;
      uid = first_non_empty kv uid_names;
      result = first_non_empty kv result_names;
      error_code = first_non_empty kv error_names;
      extras = kv;
      raw = [];
    }
