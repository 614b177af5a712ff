-- ===== src/Ingest/Parser.antt =====
-- internal/ingest/parser.go: `ParseLine`, which tries JSON, then comma-separated values, then plain
-- text.
use rfguard.Common.Tests.{ℕ, Bool, false, ◌||◌, [], ◌∷◌, Option, none, some, eqb, if◌then◌else◌}
use rfguard.Common.Text.{Text, is_empty, trim_space}
use rfguard.Config.Load
use rfguard.Normalize.{EventFields}
use rfguard.Ingest.Fields.{Json, parse_json_bytes}
use rfguard.Common.Csv.{comma}
use rfguard.Ingest.Csv.{CsvParser, new_csv_parser, parse_csv}
use rfguard.Ingest.Plain.{parse_plain}

abbrev pub Parser : Type 0
Parser = CsvParser

abbrev pub new_parser : Parser
new_parser = new_csv_parser

-- The same test as that of the configuration's loader, which the source has twice.
abbrev pub looks_like_json : Text → Bool
looks_like_json = Load.looks_like_json

-- `strings.Contains` of one character.
unfoldable pub has_char : ℕ → Text → Bool
has_char d [] = false
has_char d (c ∷ s) = eqb c d || has_char d s

abbrev pub with_raw : Text → EventFields → EventFields
with_raw line fields = record fields { raw = line }

abbrev pub of_plain : Parser → Text → Text → Option EventFields × Parser
of_plain p line trim = (some (with_raw line (parse_plain trim)), p)

abbrev pub of_csv : Text → Text → Option (Option EventFields) × Parser → Option EventFields × Parser
of_csv line trim (none, p) = of_plain p line trim
of_csv line trim (some none, p) = (none, p)
of_csv line trim (some (some fields), p) = (some (with_raw line fields), p)

-- What follows if the line is not JSON.
unfoldable pub parse_rest : Parser → Text → Text → Option EventFields × Parser
unfolding parse_csv has_char
parse_rest p line trim =
    if has_char comma trim then of_csv line trim (parse_csv p trim) else of_plain p line trim

module _ {Value : Type 0} (json : Json Value) where
  -- The fields if the line looks like JSON and is.
  unfoldable pub as_json : Text → Option EventFields
  as_json trim = if looks_like_json trim then parse_json_bytes json trim else none

  -- `ParseLine`. Where it gives no fields, its error is nil as well: `parsePlain` never fails.
  unfoldable pub parse_line : Parser → Text → Option EventFields × Parser
  unfolding as_json parse_rest
  parse_line p line =
      let trim = trim_space line in
      if is_empty trim then (none, p) else elim (as_json trim) [
        | some fields ↦ (some (with_raw line fields), p)
        | none ↦ parse_rest p line trim
      ]
