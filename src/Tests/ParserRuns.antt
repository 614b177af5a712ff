-- ===== src/Tests/ParserRuns.antt =====
-- The parsers on small lines, and the theorems about them at such lines.
use rfguard.Common.Tests.{◌≡◌, refl, List, [], ◌∷◌, ◌++◌, none, some, arith}
use rfguard.Common.Text.{Text, codes, trim_space, to_lower, is_space}
use rfguard.Ingest.Fields.{Json, no_fields}
use rfguard.Common.Csv.{read, read_fields, step, unix_lines}
use rfguard.Ingest.Csv.{
  parse_csv, assign_fields, looks_like_header, new_csv_parser, of_read, of_record,
}
use rfguard.Ingest.Csv.Header.{reader_id, slot_of, assign_fields_lem}
use rfguard.Ingest.Plain.{pairs_of, span, extract_timestamp, match_all, match_piece, match_count}
use rfguard.Ingest.Plain.Pairs.{write_pairs, pairs_of-write_pairs}

-- A decoder that knows no object.
abbrev pub no_json : Json Text
no_json = record { unmarshal = λ s. none; unmarshal_list = λ s. none; sprint = λ s. s }

abbrev cells : List Text
cells = codes "a, \"b\"" ∷ codes " c" ∷ []

read_quoted : read (codes "\"a, \"\"b\"\"\",\" c\",d") ≡ some (cells ++ (codes "d" ∷ []))
unfolding read read_fields step unix_lines is_space
read_quoted = refl

read_stray : read (codes "a\"b,c") ≡ none
unfolding read read_fields step unix_lines is_space
read_stray = refl

-- A first line whose result is the word `error` is taken for a header.
header_by_error : parse_csv new_csv_parser (codes "t,r1,AA,error") ≡ (
  some none,
  record { header = some (codes "t" ∷ codes "r1" ∷ codes "aa" ∷ codes "error" ∷ []) },
)
unfolding parse_csv read read_fields step unix_lines is_space of_read of_record looks_like_header
    to_lower trim_space
header_by_error = refl

-- The time of a line goes on over what is between `+` and `Z`.
long_time :
    extract_timestamp (codes "2024-01-02 03:04:05,READER x")
    ≡ (codes "2024-01-02 03:04:05,READER", codes "x")
unfolding extract_timestamp match_all match_piece match_count span trim_space is_space
long_time = refl

assign_fields_lem_example :
    slot_of reader_id (
      assign_fields no_fields
        (codes "ts" ∷ codes " Reader" ∷ codes "uid" ∷ [])
        (codes "9" ∷ codes " r1 " ∷ codes "AA" ∷ []))
    ≡ trim_space (codes " r1 ")
unfolding trim_space to_lower is_space
assign_fields_lem_example =
    assign_fields_lem reader_id no_fields (codes " Reader") (codes " r1 ") (codes "ts" ∷ [])
      (codes "uid" ∷ []) (codes "9" ∷ []) (codes "AA" ∷ []) refl refl (refl, tt)

abbrev two_pairs : List (Text × Text)
two_pairs = (codes "uid", codes "AA11") ∷ (codes "result", codes "a=b") ∷ []

pairs_of-write_pairs_example : pairs_of (write_pairs two_pairs) ≡ two_pairs
pairs_of-write_pairs_example = pairs_of-write_pairs two_pairs (
  ((λ e. ground (arith, e)), (λ e. ground (arith, e)), refl, refl),
  (((λ e. ground (arith, e)), (λ e. ground (arith, e)), refl, refl), tt),
)
