-- ===== src/Ingest/Lines/Columns.antt =====
-- From the columns of a record to the event: the parser, the header that it remembers, and `Normalize`.
use rfguard.Common.Tests.{
  ◌≡◌, refl, ap, sym, ◌∙◌, true, false, List, [], ◌∷◌, ◌++◌, none, some, if◌then◌else◌, arith,
}
use rfguard.Common.Keys.{contains}
use rfguard.Common.Lists.{All, length}
use rfguard.Common.Text.{Text, text_eq, is_empty, trim_space}
use rfguard.Model.{NormalizedEvent}
use rfguard.Normalize.{EventFields, Times, normalize}
use rfguard.Common.Csv.{comma, read}
use rfguard.Ingest.Fields.{Json}
use rfguard.Ingest.Csv.{
  parse_csv, of_read, of_record, of_values, looks_like_header, by_position, clean_name,
}
use rfguard.Ingest.Csv.Header.{Slot, reader_id, uid, names_of}
use rfguard.Ingest.Parser.{Parser, has_char, as_json, parse_rest, parse_line, with_raw, of_csv}
use rfguard.Ingest.Lines.{Reading, line_event, normalized}

not_blank : (s : Text) → has_char comma s ≡ true → is_empty s ≡ false
unfolding has_char
not_blank [] h = ground (arith, h)
not_blank (c ∷ s) h = refl

-- The last column with a name of the given field has the given cell.
pub record IsColumn (slot : Slot) (names values : List Text) (cell : Text) : Type 0 where
  pub before : List Text
  pub name : Text
  pub after : List Text
  pub left : List Text
  pub right : List Text
  pub names_split : names ≡ before ++ (name ∷ after)
  pub values_split : values ≡ left ++ (cell ∷ right)
  pub aligned : length before ≡ length left
  pub named : contains (clean_name name) (names_of slot) ≡ true
  pub last : All (λ n. contains (clean_name n) (names_of slot) ≡ false) after

module _ {Value : Type 0} (json : Json Value) where
  -- The line is no JSON object, has a comma, and is a record of comma-separated values.
  pub record IsRecord (line : Text) (values : List Text) : Type 0 where
    pub no_object : as_json json (trim_space line) ≡ none
    pub commas : has_char comma (trim_space line) ≡ true
    pub values_read : read (trim_space line) ≡ some values

  parse_line-of_values :
      (p : Parser) (line v : Text) (vs : List Text)
      → IsRecord line (v ∷ vs)
      → let r = of_values p (v ∷ vs) p.header in
        parse_line json p line ≡ of_csv line (trim_space line) (some r.0, r.1)
  unfolding parse_line parse_rest parse_csv of_read of_record
  parse_line-of_values p line v vs r =
      rw
        (
          not_blank (trim_space line) r.commas,
          as_json,
          r.no_object,
          has_char,
          r.commas,
          r.values_read,
        )
        refl

  parse_line-placed :
      (p : Parser) (line v : Text) (vs : List Text)
      → IsRecord line (v ∷ vs)
      → p.header ≡ none
      → looks_like_header (v ∷ vs) ≡ false
      → parse_line json p line ≡ (some (with_raw line (by_position (v ∷ vs))), p)
  parse_line-placed p line v vs r none' data' =
      parse_line-of_values p line v vs r ∙ rw (none', data') refl

  module _ {Location : Type 0} (times : Times Location) where
    -- An event that shows the line, the input, and the cells, and the reader that stands for none.
    pub record IsOfCells (input line default reader card : Text) (ev : NormalizedEvent)
        : Type 0 where
      pub reader_id :
          ev.reader_id ≡ (if is_empty (trim_space reader) then default else trim_space reader)
      pub uid : ev.uid ≡ trim_space card
      pub source : ev.source ≡ input
      pub raw : ev.raw ≡ line

    normalized-IsOfCells :
        (source : Text) (at : Reading) (fields : EventFields) (ev : NormalizedEvent)
        → normalized json times source at (some fields) ≡ some ev
        → IsOfCells source fields.raw at.cfg.default_reader_id fields.reader_id fields.uid ev
    unfolding normalize
    normalized-IsOfCells source at fields ev h = record {
      reader_id = ground (arith, h);
      uid = ground (arith, h);
      source = ground (arith, h);
      raw = ground (arith, h);
    }

    -- A record by place: as long as there is no header, the second cell of a record of three or more
    -- that is no JSON object and no header itself names the reader, and the third the UID, each without
    -- the space around it, and a reader that is blank is the default one; the event has the name of the
    -- input and the line as it came. The parser does not change.
    pub line_event-placed :
        (source : Text) (p : Parser) (line : Text) (at : Reading) (time reader card : Text)
        (vs : List Text) (ev : NormalizedEvent)
        → IsRecord line (time ∷ reader ∷ card ∷ vs)
        → p.header ≡ none
        → looks_like_header (time ∷ reader ∷ card ∷ vs) ≡ false
        → (line_event json times source p line at).0 ≡ some ev
        → IsOfCells source line at.cfg.default_reader_id reader card ev
          × ((line_event json times source p line at).1 ≡ p)
    unfolding line_event by_position
    line_event-placed source p line at time reader card vs ev r none' data' h =
        let parsed = parse_line-placed p line time (reader ∷ card ∷ vs) r none' data' in
        let fields = with_raw line (by_position (time ∷ reader ∷ card ∷ vs)) in
        (
          normalized-IsOfCells source at fields ev
              (sym (ap (λ x. normalized json times source at x.0) parsed) ∙ h),
          ap (λ x. x.1) parsed,
        )
