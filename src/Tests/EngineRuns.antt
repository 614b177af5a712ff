-- ===== src/Tests/EngineRuns.antt =====
-- The engine on the program's own tests and other small inputs.
use rfguard.Common.Tests.{ℕ, ◌≡◌, true, not, [], ◌∷◌, arith, ◌&&◌, sym, refl, suc}
use rfguard.Common.Text.{Text, codes}
use rfguard.Common.Int.{ℤ, pos, ◌-ℤ◌}
use rfguard.Common.Fixed.{fixed_float}
use rfguard.Model.{NormalizedEvent, failure}
use rfguard.Config.{DetectionConfig}
use rfguard.Engine.Monad.{cooldown_allow_key}
use rfguard.Engine.Process.{process_event}
use rfguard.Engine.Evaluated.{Evaluated, evaluate_lem}
use rfguard.Engine.Evaluate.{evaluate}
use rfguard.Common.Keys.{is_some}
use rfguard.Common.Text.{trim_space}
use rfguard.Access.{normalize_uid}
use rfguard.Engine.Evaluate.{evaluate_auth_streak}
use rfguard.Engine.Streak.{follow, new_reader, trailing, evaluate_auth_streak_lem}
use mathlib.Core.Path.{subst}
use rfguard.Common.Int.{eqb_ℤ}
use rfguard.Common.Maps.{lookup}
use rfguard.Engine.{Engine, new_engine}
use rfguard.Metrics
use rfguard.Alerts
use rfguard.Dedupe.{seen, new_dedupe_cache}
use rfguard.Engine.Clamp.{within_skew}
use rfguard.Common.Clock.{Time, sub_time}
use rfguard.Engine.Replay.{stands, process_event_again}
use rfguard.Config.{AccessControlConfig}
use rfguard.Window.{WindowState, new_window_state, observe}
use rfguard.Engine.{update_config}
use rfguard.Engine.Process.{observe_windows, sorted_keys, entry_of}
use rfguard.Engine.Evaluate.{evaluate_access}
use rfguard.Engine.Monad.{cooldown_allow}
use rfguard.Common.Tests.{some, false}
use rfguard.Common.Maps.{Map, has}
use rfguard.Common.Int.{int_eq}
use rfguard.Engine.Windows.{observe_windows_lem}
use rfguard.Engine.Admission.{kind_of, evaluate_access_lem}
use rfguard.Engine.Returned.{Returned, process_event-Returned}
use rfguard.Tests.{test_config, millis, clock, platform, event, test_engine, window_metrics}

process_event-Returned_example :
    Returned test_engine
      (process_event clock platform (event (millis 0) (codes "aa11") failure []) test_engine)
process_event-Returned_example =
    process_event-Returned clock platform (event (millis 0) (codes "aa11") failure []) test_engine

abbrev detection : DetectionConfig ℤ
detection = test_config.detection

evaluate_lem_example :
    Evaluated ⦃d = fixed_float⦄ detection window_metrics
      (codes "r1")
      (cooldown_allow clock
        (codes "r1")
        window_metrics.window_sec
        detection.alert_cooldown
        test_engine).0
      (evaluate ⦃d = fixed_float⦄ clock test_config (codes "r1") window_metrics test_engine).0
evaluate_lem_example = evaluate_lem clock test_config (codes "r1") window_metrics test_engine

abbrev failing : Text → NormalizedEvent
failing uid = event (millis 0) uid failure (codes "AUTH_FAIL")

-- The two spellings of the UID are one.
evaluate_auth_streak_lem_example :
    is_some
      (evaluate_auth_streak clock test_config
        (follow clock test_config
          (new_reader (codes "r1"))
          (failing (codes "aa11") ∷ [])
          test_engine).0
        (failing (codes "AA-11"))
        (follow clock test_config
          (new_reader (codes "r1"))
          (failing (codes "aa11") ∷ [])
          test_engine).1).0.0
    ≡ true
unfolding trailing normalize_uid trim_space cooldown_allow_key
evaluate_auth_streak_lem_example =
    evaluate_auth_streak_lem clock test_config (codes "r1") (failing (codes "aa11") ∷ [])
      (failing (codes "AA-11")) test_engine (λ e. ground (arith, e)) (omega arith)

abbrev frozen : ℕ → Time
frozen n = millis 0

abbrev dedupe_engine : Engine ℤ
dedupe_engine =
    new_engine
      (record test_config {
        detection = record test_config.detection { dedupe_window = pos 1_000_000_000 };
      })
      (Metrics.new_store (pos 100)) (Alerts.new_store (pos 100)) true frozen

abbrev replayed : NormalizedEvent
replayed = event (millis 0) (codes "aa11") failure []

abbrev after_first : Engine ℤ
after_first = (process_event frozen platform replayed dedupe_engine).1

stands-after_first : stands frozen platform replayed after_first ≡ true
unfolding new_engine
stands-after_first =
    subst
      (λ c.
        not (eqb_ℤ replayed.timestamp (pos 0))
          && within_skew replayed.timestamp (millis 0) c.detection.max_clock_skew
              c.detection.max_future_skew
        ≡ true)
      (sym (process_event-Returned frozen platform replayed dedupe_engine).2) refl

process_event_again_example :
    process_event frozen platform replayed after_first
    ≡ ([], record after_first { readings = suc (suc after_first.readings) })
unfolding new_engine seen lookup new_dedupe_cache
process_event_again_example =
    process_event_again frozen platform replayed dedupe_engine (omega arith) refl stands-after_first
      refl (unfold sub_time ◌-ℤ◌ in omega arith)

abbrev two_windows : Map ℤ WindowState
two_windows =
    (pos 60, new_window_state (pos 60_000_000_000))
    ∷ (pos 1, new_window_state (pos 1_000_000_000))
    ∷ []

observe_windows_lem_example :
    lookup
      (pos 60)
      (observe_windows clock test_config replayed
        (sorted_keys two_windows)
        two_windows
        test_engine).0.0
    ≡ some (observe (new_window_state (pos 60_000_000_000)) (entry_of replayed))
unfolding lookup
observe_windows_lem_example =
    observe_windows_lem clock test_config replayed (pos 60) two_windows test_engine
      (unfold has in (refl, (refl, tt)))

abbrev access_control : AccessControlConfig
access_control = record {
  enabled = true;
  whitelist_only = false;
  whitelist = [];
  blacklist = codes "aa-11" ∷ [];
  reader_whitelists = [];
  reader_blacklists = [];
}

abbrev guarded : Engine ℤ
guarded = update_config (record test_config { access_control = access_control }) test_engine

evaluate_access_lem_example :
    kind_of (evaluate_access clock test_config replayed guarded).0
    ≡ some (codes "blacklisted_uid", codes "critical")
unfolding update_config cooldown_allow normalize_uid trim_space lookup
evaluate_access_lem_example =
    evaluate_access_lem clock test_config access_control replayed guarded refl refl
      (λ e. ground (arith, e)) tt tt
