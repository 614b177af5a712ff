-- ===== src/Ingest/Csv.antt =====
-- internal/ingest/parser.go: the lines with commas. `encoding/csv` of the standard library is in
-- Common/Csv.
pub mod Header
use rfguard.Common.Tests.{
  ℕ, zero, suc, Bool, true, false, ◌||◌, ◌&&◌, List, [], ◌∷◌, ◌++◌, Option, none, some, map, eqb,
  if◌then◌else◌,
}
use rfguard.Common.Csv.{read}
use rfguard.Common.Keys.{contains}
use rfguard.Common.Maps.{insert}
use rfguard.Common.Text.{Text, text_eq, codes, is_empty, is_space, trim_space, to_lower}
use rfguard.Normalize.{EventFields}
use rfguard.Ingest.Fields.{
  no_fields, timestamp_names, reader_names, uid_names, result_names, error_names,
}

pub record CsvParser : Type 0 where
  pub header : Option (List Text)

abbrev pub new_csv_parser : CsvParser
new_csv_parser = record { header = none }

abbrev pub header_words : List Text
header_words =
    codes "timestamp"
    ∷ codes "time"
    ∷ codes "ts"
    ∷ codes "reader"
    ∷ codes "reader_id"
    ∷ codes "uid"
    ∷ codes "card"
    ∷ codes "result"
    ∷ codes "status"
    ∷ codes "error"
    ∷ codes "error_code"
    ∷ []

abbrev pub clean_name : Text → Text
clean_name v = to_lower (trim_space v)

unfoldable pub looks_like_header : List Text → Bool
looks_like_header [] = false
looks_like_header (v ∷ record') = contains (clean_name v) header_words || looks_like_header record'

abbrev pub normalize_header : List Text → List Text
normalize_header = map clean_name

unfoldable pub assign_field : EventFields → Text → Text → EventFields
assign_field fields name value =
    let n = clean_name name in
    let v = trim_space value in
    if contains n timestamp_names
    then record fields { timestamp = v }
    else if contains n reader_names
    then record fields { reader_id = v }
    else if contains n uid_names
    then record fields { uid = v }
    else if contains n result_names
    then record fields { result = v }
    else if contains n error_names
    then record fields { error_code = v }
    else record fields { extras = insert n v fields.extras }

-- The loop over the header, which ends where the record does.
unfoldable pub assign_fields : EventFields → List Text → List Text → EventFields
unfolding assign_field
assign_fields fields [] values = fields
assign_fields fields (name ∷ header) [] = fields
assign_fields fields (name ∷ header) (value ∷ values) =
    assign_fields (assign_field fields name value) header values

-- `record[i]`, where the record has that many fields.
abbrev pub nth_or_empty : ℕ → List Text → Text
nth_or_empty n [] = []
nth_or_empty zero (v ∷ values) = v
nth_or_empty (suc n) (v ∷ values) = nth_or_empty n values

unfoldable pub by_position : List Text → EventFields
by_position values = record no_fields {
  timestamp = nth_or_empty 0 values;
  reader_id = nth_or_empty 1 values;
  uid = nth_or_empty 2 values;
  result = nth_or_empty 3 values;
  error_code = nth_or_empty 4 values;
}

-- What a record gives: nothing if it is the header, which the parser then keeps.
abbrev pub of_values : CsvParser → List Text → Option (List Text) → Option EventFields × CsvParser
of_values p values none =
    if looks_like_header values
    then (none, record { header = some (normalize_header values) })
    else (some (by_position values), p)
of_values p values (some header) = (some (assign_fields no_fields header values), p)

unfoldable pub of_record : CsvParser → List Text → Option EventFields × CsvParser
unfolding looks_like_header assign_fields by_position
of_record p values = of_values p values p.header

-- What `Parse` does with the result of `Read`.
unfoldable pub of_read : CsvParser → Option (List Text) → Option (Option EventFields) × CsvParser
unfolding of_record
of_read p none = (none, p)
of_read p (some []) = (some none, p)
of_read p (some (v ∷ vs)) = let r = of_record p (v ∷ vs) in (some r.0, r.1)

-- `Parse`; `none` is the error.
unfoldable pub parse_csv : CsvParser → Text → Option (Option EventFields) × CsvParser
unfolding read of_read
parse_csv p line = of_read p (read line)
