-- ===== src/Tests/ColumnRuns.antt =====
-- Records of comma-separated values that become events.
use rfguard.Common.Tests.{◌≡◌, refl, List, [], ◌∷◌}
use rfguard.Common.Text.{Text, codes, trim_space, is_space, to_lower}
use rfguard.Common.Csv.{read, read_fields, step, unix_lines}
use rfguard.Config.Load
use rfguard.Model.{NormalizedEvent, success}
use rfguard.Normalize.{normalize, parse_result, location}
use rfguard.Ingest.Csv.{
  parse_csv, of_read, of_record, looks_like_header, normalize_header, by_position,
}
use rfguard.Ingest.Csv.Header.{reader_id, uid}
use rfguard.Ingest.Parser.{new_parser, has_char, as_json, parse_rest, parse_line}
use rfguard.Ingest.Lines.{line_event, syslog_source}
use rfguard.Ingest.Lines.Columns.{IsRecord, IsOfCells, line_event-placed}
use rfguard.Tests.{millis}
use rfguard.Tests.IngestRuns.{no_times, reading}
use rfguard.Tests.ParserRuns.{no_json}

abbrev placed_line : Text
placed_line = codes ", r1 ,AA "

abbrev seen : Text → NormalizedEvent
seen line = record {
  timestamp = millis 0;
  reader_id = codes "r1";
  uid = codes "AA";
  result = success;
  error_code = [];
  source = syslog_source;
  raw = line;
}

placed_line-IsRecord : IsRecord no_json placed_line ([] ∷ codes "r1 " ∷ codes "AA" ∷ [])
unfolding as_json has_char read read_fields step unix_lines is_space trim_space Load.looks_like_json
placed_line-IsRecord = record { no_object = refl; commas = refl; values_read = refl }

line_event-placed_example :
    IsOfCells no_json no_times syslog_source placed_line
      (codes "unknown")
      (codes "r1 ")
      (codes "AA")
      (seen placed_line)
    × ((line_event no_json no_times syslog_source new_parser placed_line reading).1 ≡ new_parser)
unfolding line_event parse_line as_json has_char parse_rest parse_csv of_read of_record read
    read_fields step unix_lines is_space trim_space to_lower Load.looks_like_json looks_like_header
    by_position normalize parse_result location
line_event-placed_example =
    line_event-placed no_json no_times syslog_source new_parser placed_line reading [] (codes "r1 ")
      (codes "AA") [] (seen placed_line) placed_line-IsRecord refl refl refl

abbrev head : Text
head = codes "Card,Reader"

abbrev headed_line : Text
headed_line = codes "AA , r1"

abbrev names : List Text
names = normalize_header (codes "Card" ∷ codes "Reader" ∷ [])
