-- ===== src/Tests.antt =====
-- The inputs of the tests; the runs and the examples of the theorems stand in the modules below.
pub mod WindowRuns
pub mod EngineRuns
pub mod StoreRuns
pub mod InputRuns
pub mod ConfigRuns
pub mod ParserRuns
pub mod ColumnRuns
pub mod IngestRuns
pub mod ServerRuns
pub mod StorageRuns
pub mod SystemRuns
pub mod PipelineRuns
use rfguard.Common.Tests.{
  ℕ, ◌+◌, ◌*◌, ◌≡◌, refl, Bool, true, false, List, [], ◌∷◌, ◌++◌, Option, none, some, map,
}
use rfguard.Common.Text.{Text, codes}
use rfguard.Common.Int.{ℤ, pos, negsuc}
use rfguard.Common.Fixed.{fixed_float}
use rfguard.Common.Clock.{Time, Duration}
use rfguard.Model.{NormalizedEvent, Alert, WindowMetrics, success, failure, Result}
use rfguard.Config.{Config, default_config, seconds_of}
use rfguard.Engine.{Engine, Platform, new_engine}
use rfguard.Engine.Monad.{M, return, ◌>>=◌}
use rfguard.Engine.Process.{process_event}
use rfguard.Metrics
use rfguard.Alerts

abbrev pub millis : ℕ → Time
millis n = pos (1_000_000_000_000 + n * 1_000_000)

-- A clock that moves on by a microsecond at each reading.
abbrev pub clock : ℕ → Time
clock n = pos (1_000_000_000_000 + n * 1000)

abbrev pub platform : Platform
platform = record { hash = λ s. s; rfc3339_nano = λ t. [] }

abbrev pub test_config : Config ℤ
test_config = record default_config {
  detection = record default_config.detection {
    windows = seconds_of 1 ∷ [];
    alert_cooldown = pos 0;
    dedupe_window = pos 0;
    max_clock_skew = pos 0;
    max_future_skew = pos 0;
    min_attempts = pos 5;
  };
}

abbrev pub test_engine : Engine ℤ
test_engine =
    new_engine test_config (Metrics.new_store (pos 100)) (Alerts.new_store (pos 100)) true clock

abbrev pub event : Time → Text → Result → Text → NormalizedEvent
event t uid result error = record {
  timestamp = t;
  reader_id = codes "reader01";
  uid = uid;
  result = result;
  error_code = error;
  source = codes "rest";
  raw = [];
}

abbrev pub window_metrics : WindowMetrics ℤ
window_metrics = record {
  window_sec = pos 60;
  attempts = pos 3;
  failures = pos 1;
  aps = pos 50_000_000;
  fr = pos 333_333_333;
  uds = pos 666_666_666;
  tv = pos 0;
}

abbrev pub alert : Text → Alert ℤ
alert reader_id = record {
  timestamp = millis 0;
  reader_id = reader_id;
  severity = codes "high";
  alert_type = codes "possible_bruteforce";
  window_sec = pos 60;
  metrics = window_metrics;
  score = pos 0;
  rules = [];
  context = [];
}
