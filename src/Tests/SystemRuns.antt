-- ===== src/Tests/SystemRuns.antt =====
-- The program after an event, with an access control in force.
use rfguard.Common.Tests.{◌≡◌, refl, true, [], none, if◌then◌else◌, arith}
use rfguard.Common.Maps.{has}
use rfguard.Common.Text.{codes, trim_space}
use rfguard.Common.Int.{ℤ, pos}
use rfguard.Common.Fixed.{fixed_float}
use rfguard.Config.{Config}
use rfguard.Access.{normalize_uid}
use rfguard.Model.{failure}
use rfguard.Engine.{new_engine}
use rfguard.Engine.Monad.{cooldown_allow}
use rfguard.Engine.Admission.{verdict}
use rfguard.Api.Server.{Server}
use rfguard.Alerts.{effective_limit}
use rfguard.Metrics
use rfguard.Alerts
use rfguard.System.{observe, started, observed}
use rfguard.System.InStep.{IsInStep}
use rfguard.Model.{NormalizedEvent}
use rfguard.Engine.Process.{process_event}
use rfguard.Engine.Accessed.{access_kinds, listed, tested}
use rfguard.System.Judged.{process_event-Reached}
use rfguard.Tests.{millis, clock, platform, event, test_config}
use rfguard.Tests.ServerRuns.{ac, codec, server, web, write}

abbrev cfg : Config ℤ
cfg = record test_config { access_control = ac }

abbrev pub start : Server ℤ
start = record server {
  manager = record { path = codes "rfguard.json"; cfg = cfg; mod_time = pos 0 };
  engine = new_engine cfg (Metrics.new_store (pos 9)) (Alerts.new_store (pos 9)) true clock;
}

start-IsInStep : IsInStep start
unfolding new_engine has
start-IsInStep = record {
  has_engine = refl;
  same = refl;
  built = refl;
  black = (refl, tt);
  white = tt;
}

abbrev later : Server ℤ
later =
    observe ⦃d = fixed_float⦄ codec write web clock platform
      (event (millis 3) (codes "CC33") failure []) start

-- The UID that the posted list forbids, at the reader of the event.
abbrev forbidden : NormalizedEvent
forbidden = event (millis 5) (codes "aa11") failure []

process_event-Reached_example :
    let test = tested ⦃d = fixed_float⦄ clock platform forbidden later.engine in
    access_kinds (process_event ⦃d = fixed_float⦄ clock platform forbidden later.engine).0 ≡ (
      if test.0
      then []
      else listed (
          if (cooldown_allow clock (codes "reader01") (pos 0) cfg.detection.alert_cooldown test.1).0
          then verdict ac (codes "reader01") (normalize_uid (codes "aa11"))
          else none))
unfolding normalize_uid trim_space
process_event-Reached_example =
    process_event-Reached ⦃d = fixed_float⦄ codec write web clock platform start later forbidden
      start-IsInStep (observed (event (millis 3) (codes "CC33") failure []) start started) refl
      (λ e. ground (arith, e))
