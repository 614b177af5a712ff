-- ===== src/Lib.antt =====
-- RFGuard watches the authentication attempts at RFID readers and raises alerts about attacks. This
-- library models its Go code, under internal/, and proves what the parts promise.
--
-- The parts, and how they interact. An input parses lines into normalised events and sends them to a
-- channel. `Engine.Start` takes them from it one at a time and calls `ProcessEvent`, which clamps the
-- timestamp, drops duplicates, checks the access lists, follows the streaks of failed
-- authentications, counts the event in the sliding windows of its reader, and evaluates the rules on
-- each window's metrics. An alert that its cooldown lets through is added to the store of alerts and
-- handed to the storage interface; the metrics go to the store of metrics. The API reads and clears
-- the stores, and puts a posted access control in force in the manager of the configuration, which
-- writes its file, and in the engine. The manager follows the file.
--
-- The files, and what they model:
--   Common: what the parts share. Lists and options; `int` with its wrap-around (Common/Int);
--     a string as the list of its code points (Common/Text); a Go map as an association list
--     (Common/Maps); instants and durations in nanoseconds, with the saturation of `Sub`
--     (Common/Clock); `float64` as a parameter, a record of operations, with the few laws that some
--     theorems need (Common/Float), and a fixed-point instance that meets them (Common/Fixed); what
--     the parser uses of the standard library's encoding/csv (Common/Csv).
--   Model: internal/model/types.go.
--   Window: internal/engine/window.go. The record `WindowState`, `add`, `evict`, `metrics`; the
--     invariant, what the counters mean, and the metrics counted afresh stand in its child modules.
--   Dedupe: internal/engine/dedupe.go, `seen` and `compact`.
--   Cooldown: internal/engine/cooldown.go, `allow` and `allow_key`.
--   Access: internal/engine/access_control.go, `build_access_control`, `is_blacklisted`,
--     `is_whitelisted`, `normalize_uid`.
--   Alerts and Metrics: internal/alerts/store.go and internal/metrics/store.go.
--   Config: internal/config/config.go, the types, `default_config`, `apply_defaults`, `validate`.
--     Config/Load holds `load` and what `Save` writes, over a `Codec` for JSON and YAML, and
--     Config/Manager the manager: `reload`, `update`, and `watch` over what its ticks find.
--   Engine: internal/engine/engine.go. The state is the record `Engine`; its handlers are actions of
--     the state monad in Engine/Monad; Engine/Rules, Engine/Clamp, Engine/Evaluate and
--     Engine/Process hold `evaluate`, `evaluate_access`, `evaluate_auth_streak` and `process_event`.
--   Normalize: internal/normalize/normalize.go, `parse_result`, `parse_unix`, `parse_timestamp`,
--     `normalize`; layouts and time zones are the record `Times` of parameters.
--   Ingest: internal/ingest. Ingest/Channel holds `send_non_blocking` (ingest.go); Ingest/Fields,
--     Ingest/Csv, Ingest/Plain and Ingest/Parser hold `parse_line` and what it calls (parser.go,
--     json.go); Ingest/Lines the loops over lines (syslog.go, tcpstream.go, kafka.go),
--     Ingest/Listen their starts and the loops that accept connections; Ingest/Rest
--     `handle_events` (rest.go); Ingest/Tail `tail_file` (filetail.go), by its turns.
--   Storage: internal/storage, over a `Driver` that stands for database/sql; Storage/Sql holds the
--     statements.
--   Api: internal/api/server.go, `sanitize_uid_list` and `sanitize_reader_lists`; Api/Server holds the
--     state that the server shares with the engine and the manager, Api/Handlers the handlers.
--   System: the loop of `Start` and the API as steps on one state, in any order. In
--     System/Shown the loop alone, with what `/alerts` answers after it; in System/Pipeline the lines
--     of the inputs and the turns of the loop on the channel between them, in any order.
--   Tests: concrete inputs, and each theorem at one of them.
--
-- Bounds and loops. Every loop is structural recursion over the list that it goes through; a loop
-- without an end runs over the list of what its turns find. There is fuel in two places: for the
-- digits of a number in Cooldown, where a number has fewer digits than itself plus one, and for the
-- search of pairs in Ingest/Plain, where each step leaves a shorter text, so that the length of the
-- line is enough. `int` is 64 bits wide; a theorem that counts asks for less than 2^63 - 1 elements.
--
-- Each call of `time.Now` takes the next reading of `clock`, an argument of the engine's actions,
-- and `readings` counts them. An instant is a number of nanoseconds whose 0 is Go's zero time.
--
-- Not modelled: logging; the mutexes, since the operations are called one at a time by `Start`;
-- sockets, the scanner, the Kafka reader, the HTTP servers' start and shutdown, and the encoding of
-- the payloads, which are input and output around the modelled loops and handlers. The codecs of
-- JSON and YAML, `fmt.Sprint`, `time.Parse` by layout, the database drivers, SHA-256 and the
-- layout RFC 3339 are the fields of the records `Codec`, `Json`, `Web`, `Times`, `Driver` and
-- `Platform`. The regular expressions are written out, and `encoding/csv` as far as the parser uses
-- it.
pub mod Common
pub mod Model
pub mod Window
pub mod Dedupe
pub mod Cooldown
pub mod Alerts
pub mod Metrics
pub mod Config
pub mod Access
pub mod Engine
pub mod Tests
pub mod Normalize
pub mod Ingest
pub mod Storage
pub mod Api
pub mod System
