-- ===== src/Tests/InputRuns.antt =====
-- The normaliser on small inputs.
use rfguard.Common.Tests.{◌≡◌, [], none, some, arith}
use rfguard.Common.Text.{Text, codes}
use rfguard.Common.Int.{pos}
use rfguard.Cooldown.{itoa}
use rfguard.Config.{ParserConfig}
use rfguard.Model.{NormalizedEvent, failure}
use rfguard.Normalize.{EventFields, Times, parse_timestamp}
use rfguard.Normalize.Unix.{unix_time, parse_timestamp-itoa}
use rfguard.Tests.{millis}

-- A clock without zones that knows no layout.
abbrev no_times : Times Text
no_times = record {
  utc = codes "UTC";
  load_location = λ name. none;
  parse = λ layout value. none;
  parse_in_location = λ layout value loc. none;
  with_year = λ now t loc. t;
}

abbrev parser : ParserConfig
parser = record { timezone = codes "UTC"; default_reader_id = codes "unknown" }

abbrev fields : EventFields
fields = record {
  timestamp = [];
  reader_id = codes " ";
  uid = codes " AA11 ";
  result = codes "Denied";
  error_code = [];
  extras = [];
  raw = [];
}

abbrev denied : NormalizedEvent
denied = record {
  timestamp = millis 0;
  reader_id = codes "unknown";
  uid = codes "AA11";
  result = failure;
  error_code = [];
  source = codes "log";
  raw = [];
}

parse_timestamp-itoa_example :
    parse_timestamp no_times (itoa (pos 1_700_000_000)) (codes "UTC") (millis 0)
    ≡ some (unix_time 1_700_000_000)
parse_timestamp-itoa_example =
    parse_timestamp-itoa no_times 1_700_000_000 (codes "UTC") (millis 0) (omega arith)
