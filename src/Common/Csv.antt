-- ===== src/Common/Csv.antt =====
-- What the program uses of `encoding/csv` in Go's standard library, with `TrimLeadingSpace` set: `Read`,
-- as a machine over the characters of the text, gives the first record, and fails on a stray quotation
-- mark.
use rfguard.Common.Tests.{
  ℕ, Bool, false, ◌&&◌, List, [], ◌∷◌, ◌++◌, Option, none, some, eqb, if◌then◌else◌,
}
use rfguard.Common.Text.{Text, is_space}

abbrev pub quote : ℕ
quote = 0x22

abbrev pub comma : ℕ
comma = 0x2c

abbrev pub newline : ℕ
newline = 0x0a

abbrev pub carriage_return : ℕ
carriage_return = 0x0d

-- Where the reader stands: before a field, in a plain one, inside quotation marks, or behind one.
pub data Mode : Type 0 where
  before plain quoted behind : Mode

abbrev pub starts_with_newline : Text → Bool
starts_with_newline [] = false
starts_with_newline (c ∷ s) = eqb c newline

-- `readLine` ends each line by a line feed alone.
unfoldable pub unix_lines : Text → Text
unix_lines [] = []
unix_lines (c ∷ s) =
    let rest = unix_lines s in
    if eqb c carriage_return && starts_with_newline s then rest else c ∷ rest

abbrev pub end_record : Text → Option (List Text)
end_record field = some (field ∷ [])

abbrev pub end_field : Text → Option (List Text) → Option (List Text)
end_field field none = none
end_field field (some fields) = some (field ∷ fields)

-- What one character does: it is dropped or taken into the field, which may change the mode, or it
-- ends the field or the record, or it is a stray quotation mark, or follows one.
pub data Step : Type 0 where
  drops takes : Mode → Step
  ends_field ends_record fails : Step

unfoldable pub step : Mode → ℕ → Step
unfolding is_space
step before c =
    if eqb c newline
    then ends_record
    else if is_space c
    then drops before
    else if eqb c quote
    then drops quoted
    else if eqb c comma
    then ends_field
    else takes plain
step plain c =
    if eqb c newline
    then ends_record
    else if eqb c quote
    then fails
    else if eqb c comma
    then ends_field
    else takes plain
step quoted c = if eqb c quote then drops behind else takes quoted
step behind c =
    if eqb c newline
    then ends_record
    else if eqb c quote
    then takes quoted
    else if eqb c comma
    then ends_field
    else fails

-- The end of the text, which must not stand inside quotation marks.
abbrev pub at_end : Mode → Text → Option (List Text)
at_end before field = end_record field
at_end plain field = end_record field
at_end quoted field = none
at_end behind field = end_record field

-- The effect of a step, where `later` reads the rest of the text.
abbrev pub act : (Mode → Text → Option (List Text)) → Text → ℕ → Step → Option (List Text)
act later field c (drops next) = later next field
act later field c (takes next) = later next (field ++ c ∷ [])
act later field c ends_field = end_field field (later before [])
act later field c ends_record = end_record field
act later field c fails = none

-- The fields from here on, with what the current one has so far.
unfoldable pub read_fields : Text → Mode → Text → Option (List Text)
unfolding step
read_fields [] mode field = at_end mode field
read_fields (c ∷ line) mode field = act (read_fields line) field c (step mode c)

-- `Read` on a text that does not start with an empty line.
unfoldable pub read : Text → Option (List Text)
unfolding read_fields unix_lines
read line = read_fields (unix_lines line) before []
