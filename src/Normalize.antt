-- ===== src/Normalize.antt =====
-- internal/normalize/normalize.go: from the texts that a parser has found to an event. Layouts and
-- time zones are the standard library's, a parameter; Unix timestamps are parsed here.
pub mod Unix
use rfguard.Common.Tests.{
  ℕ, ◌+◌, ◌-◌, ◌*◌, ◌%◌, ◌^◌, Bool, true, false, not, ◌&&◌, ◌||◌, List, [], ◌∷◌, Option, none, some,
  leb, ltb, if◌then◌else◌,
}
use rfguard.Common.Lists.{length, all}
use rfguard.Common.Digits.{number_from}
use rfguard.Common.Keys.{contains}
use rfguard.Common.Text.{Text, text_eq, codes, is_empty, trim_space, to_lower}
use rfguard.Common.Int.{ℤ, pos, negsuc, max_int, ◌+ℤ◌}
use rfguard.Common.Clock.{Time, second}
use rfguard.Model.{NormalizedEvent, Result, success, failure}
use rfguard.Config.{ParserConfig}

infixl 5 ◌>>=◌
abbrev pub ◌>>=◌ : {A B : Type 0} → Option A → (A → Option B) → Option B
◌>>=◌ none f = none
◌>>=◌ (some a) f = f a

pub record EventFields : Type 0 where
  pub timestamp : Text
  pub reader_id : Text
  pub uid : Text
  pub result : Text
  pub error_code : Text
  pub extras : List (Text × Text)
  pub raw : Text

-- `time.Parse` and its relatives, by layout and value; `with_year` is the instant `t` in the year of
-- `now`, both seen in the location.
pub record Times (Location : Type 0) : Type 0 where
  pub utc : Location
  pub load_location : Text → Option Location
  pub parse : Text → Text → Option Time
  pub parse_in_location : Text → Text → Location → Option Time
  pub with_year : Time → Time → Location → Time

abbrev pub success_words : List Text
success_words =
    codes "ok"
    ∷ codes "success"
    ∷ codes "allow"
    ∷ codes "allowed"
    ∷ codes "granted"
    ∷ codes "pass"
    ∷ []

abbrev pub failure_words : List Text
failure_words =
    codes "fail"
    ∷ codes "failure"
    ∷ codes "denied"
    ∷ codes "reject"
    ∷ codes "rejected"
    ∷ codes "timeout"
    ∷ codes "error"
    ∷ []

unfoldable pub parse_result : Text → Text → Result
parse_result result error_code =
    let n = to_lower (trim_space result) in
    if contains n success_words
    then success
    else if contains n failure_words
    then failure
    else if not (is_empty (trim_space error_code))
    then failure
    else success

abbrev pub is_digit : ℕ → Bool
is_digit c = leb b'0' c && leb c b'9'

unfoldable pub is_numeric : Text → Bool
is_numeric value = all is_digit value && not (is_empty value)

-- `strconv.ParseInt(value, 10, 64)` of a row of digits.
unfoldable pub parse_int : Text → Option ℕ
parse_int value = let n = number_from 0 value in if ltb max_int n then none else some n

-- A product of `int64`, which wraps.
unfoldable pub wrap_int : ℕ → ℤ
wrap_int n = let r = n % 2 ^ 64 in if ltb max_int r then negsuc (2 ^ 64 - 1 - r) else pos r

abbrev pub millisecond : ℕ
millisecond = 1_000_000

-- The Unix epoch, in nanoseconds since Go's zero time.
abbrev pub epoch : Time
epoch = pos (62_135_596_800 * second)

unfoldable pub parse_unix : Text → Option Time
unfolding parse_int wrap_int
parse_unix value =
    if leb 13 (length value)
    then (do ms ← parse_int value; some (epoch +ℤ wrap_int (ms * millisecond)))
    else (do sec ← parse_int value; some (epoch +ℤ pos (sec * second)))

abbrev pub long_syslog : Text
long_syslog = codes "Jan 02 15:04:05"

abbrev pub short_syslog : Text
short_syslog = codes "Jan 2 15:04:05"

abbrev pub timestamp_layouts : List Text
timestamp_layouts =
    codes "2006-01-02T15:04:05.999999999Z07:00"
    ∷ codes "2006-01-02T15:04:05Z07:00"
    ∷ codes "2006-01-02 15:04:05"
    ∷ codes "2006-01-02 15:04:05.000"
    ∷ codes "2006-01-02T15:04:05"
    ∷ codes "2006-01-02T15:04:05.000"
    ∷ codes "2006-01-02T15:04:05Z0700"
    ∷ codes "2006-01-02 15:04:05Z0700"
    ∷ long_syslog
    ∷ short_syslog
    ∷ []

abbrev pub or_else : {A : Type 0} → Option A → Option A → Option A
or_else none o = o
or_else (some a) o = some a

module _ {Location : Type 0} (times : Times Location) where
  -- The loop over the layouts; the two of syslog have no year.
  unfoldable pub try_layouts : List Text → Text → Location → Time → Option Time
  try_layouts [] value loc now = none
  try_layouts (layout ∷ layouts) value loc now =
      let rest = try_layouts layouts value loc now in
      if contains layout (long_syslog ∷ short_syslog ∷ [])
      then or_else
          (do t ← times.parse_in_location layout value loc; some (times.with_year now t loc)) rest
      else or_else (times.parse layout value)
          (or_else (times.parse_in_location layout value loc) rest)

  unfoldable pub parse_timestamp : Text → Location → Time → Option Time
  parse_timestamp text loc now =
      let value = trim_space text in
      if is_empty value
      then none
      else or_else (if is_numeric value then parse_unix value else none)
          (try_layouts timestamp_layouts value loc now)

  unfoldable pub location : ParserConfig → Location
  location cfg =
      if is_empty cfg.timezone
      then times.utc
      else elim (times.load_location cfg.timezone) [ none ↦ times.utc | some l ↦ l ]

  -- `now` and `later` are the readings of the clock in `Normalize` and in `ParseTimestamp`.
  unfoldable pub normalize : EventFields → ParserConfig → Time → Time → Option NormalizedEvent
  normalize fields cfg now later = do
    ts ←
        if is_empty fields.timestamp
        then some now
        else parse_timestamp fields.timestamp (location cfg) later
    some (record {
      timestamp = ts;
      reader_id =
          if is_empty (trim_space fields.reader_id)
          then cfg.default_reader_id
          else trim_space fields.reader_id;
      uid = trim_space fields.uid;
      result = parse_result fields.result fields.error_code;
      error_code = trim_space fields.error_code;
      source = codes "log";
      raw = fields.raw;
    })
