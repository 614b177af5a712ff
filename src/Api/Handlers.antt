-- ===== src/Api/Handlers.antt =====
-- internal/api/server.go: the handlers and their routes.
pub mod Posted
pub mod Effects
use rfguard.Common.Tests.{
  ℕ, Bool, true, false, not, ◌&&◌, ◌||◌, List, [], ◌∷◌, ◌++◌, Option, none, some, map, eqb, leb,
  ltb, if◌then◌else◌,
}
use rfguard.Common.Eq.{◌==◌}
use rfguard.Common.Lists.{length}
use rfguard.Common.Maps.{Map}
use rfguard.Common.Result.{Outcome, ok, err}
use rfguard.Common.Text.{Text, text_eq, codes, is_empty, trim_space, to_lower}
use rfguard.Common.Int.{ℤ, pos, negsuc, neg_ℕ, max_int}
use rfguard.Common.Clock.{Time, Duration}
use rfguard.Common.Digits.{number_from}
use rfguard.Common.Float.{Float}
use rfguard.Common.Keys.{is_some}
use rfguard.Model.{Alert, WindowMetrics}
use rfguard.Normalize.{is_numeric}
use rfguard.Config.{Config, AccessControlConfig, ApiConfig}
use rfguard.Config.Load.{Codec, SaveError}
use rfguard.Config.Manager.{Disk, Manager, Write, get, update}
use rfguard.Config.Manager.Kept.{with_access}
use rfguard.Engine.{Engine, update_config, reset}
use rfguard.Metrics
use rfguard.Alerts
use rfguard.Api.{sanitize_uid_list, sanitize_reader_lists}
use rfguard.Api.Server.{
  Request, Web, IngestStatus, StatusResponse, Response, status, panics, done, status_of, metrics_of,
  all_metrics, alerts_of, access_of_config, web_page, redirect, Server, trim_prefix, after_prefix,
  atoi, or_zero, is_get, is_post, sanitized, Target, everything, alerts_only, metrics_only, unknown,
  target,
}

abbrev pub starts_with : Text → Text → Bool
starts_with start s = is_some (after_prefix start s)

-- The routes that `Start` sets up. The pages under `/ui/` are static.
pub data Route : Type 0 where
  to_status to_metrics to_alerts to_access_control to_clear to_restart to_ui to_page nowhere : Route

unfoldable pub route : Text → Route
route path =
    if path == codes "/status"
    then to_status
    else if path == codes "/metrics" || starts_with (codes "/metrics/") path
    then to_metrics
    else if path == codes "/alerts"
    then to_alerts
    else if path == codes "/config/access_control"
    then to_access_control
    else if path == codes "/admin/clear"
    then to_clear
    else if path == codes "/admin/restart"
    then to_restart
    else if path == codes "/ui"
    then to_ui
    else if starts_with (codes "/ui/") path
    then to_page
    else nowhere

module _ {F : Type 0} (web : Web) where
  unfoldable pub handle_status : Time → Request → Server F → Response F
  handle_status now r s =
      let cfg = get s.manager in
      if not (is_get r)
      then status 405
      else status_of (record {
        time = now;
        version = s.version;
        config_path = s.manager.path;
        access_control = cfg.access_control;
        ingest = record {
          rest = cfg.ingest.rest.enabled;
          syslog = cfg.ingest.syslog.enabled;
          file_tail = cfg.ingest.file_tail.enabled;
          tcp_stream = cfg.ingest.tcp_stream.enabled;
          kafka = cfg.ingest.kafka.enabled;
        };
        api = cfg.api;
        windows = map web.duration_text cfg.detection.windows;
      })

  abbrev pub reader_metrics : Text → Option (List (WindowMetrics F) × Time) → Response F
  reader_metrics reader_id none = status 404
  reader_metrics reader_id (some (metrics, updated)) = metrics_of reader_id updated metrics

  unfoldable pub handle_metrics : Request → Server F → Response F
  unfolding trim_prefix
  handle_metrics r s =
      let reader_id = trim_prefix (codes "/") (trim_prefix (codes "/metrics") r.path) in
      let everything = Metrics.get_all s.engine.metrics in
      if not (is_get r)
      then status 405
      else if not s.has_metrics
      then panics
      else if not (is_empty reader_id)
      then reader_metrics reader_id (Metrics.get s.engine.metrics reader_id)
      else all_metrics everything (length everything)

  abbrev pub counted_alerts : List (Alert F) → Response F
  counted_alerts list = alerts_of list (length list)

  abbrev pub alerts_since : Server F → Option Time → Response F
  alerts_since s none = status 400
  alerts_since s (some ts) =
      if s.has_alerts then counted_alerts (Alerts.since s.engine.alerts ts) else panics

  unfoldable pub handle_alerts : Request → Server F → Response F
  unfolding atoi
  handle_alerts r s =
      if not (is_get r)
      then status 405
      else if not (is_empty r.since)
      then alerts_since s (web.parse_rfc3339 r.since)
      else if not s.has_alerts
      then panics
      else counted_alerts (Alerts.list s.engine.alerts (or_zero (atoi r.limit)))

  -- `Clear` of the stores that are set.
  abbrev pub clear_metrics : Server F → Server F
  clear_metrics s =
      if s.has_metrics
      then record s { engine = record s.engine { metrics = Metrics.clear s.engine.metrics } }
      else s

  abbrev pub clear_alerts : Server F → Server F
  clear_alerts s =
      if s.has_alerts
      then record s { engine = record s.engine { alerts = Alerts.clear s.engine.alerts } }
      else s

  abbrev pub clear_target : Target → Server F → Response F × Server F
  clear_target everything s = (done, clear_alerts (clear_metrics s))
  clear_target alerts_only s = (done, clear_alerts s)
  clear_target metrics_only s = (done, clear_metrics s)
  clear_target unknown s = (status 400, s)

  unfoldable pub handle_clear : Request → Server F → Response F × Server F
  unfolding target
  handle_clear r s =
      if not (is_post r) then (status 405, s) else clear_target (target (web.target_of r.body)) s

  abbrev pub reset_engine : Server F → Server F
  reset_engine s = if s.has_engine then record s { engine = reset s.engine } else s

  unfoldable pub handle_restart : Request → Server F → Response F × Server F
  handle_restart r s =
      if not (is_post r)
      then (status 405, s)
      else (done, clear_alerts (clear_metrics (reset_engine s)))

  module _ ⦃d : Float F⦄ (codec : Codec F) (write : Write) where
    -- After `Update`: the configuration that is in force goes to the engine, if the file was written.
    abbrev pub after_update :
        Config F → Server F → Outcome SaveError Bool × Manager F × Disk → Response F × Server F
    after_update next s (err e, m, disk) = (status 500, record s { manager = m; disk = disk })
    after_update next s (ok b, m, disk) = (
      done,
      record s {
        manager = m;
        disk = disk;
        engine = if s.has_engine then update_config next s.engine else s.engine;
      },
    )

    abbrev pub post_access_control : Option AccessControlConfig → Server F → Response F × Server F
    post_access_control none s = (status 400, s)
    post_access_control (some ac) s =
        let next = with_access (sanitized ac) (get s.manager) in
        after_update next s (update codec write s.manager (some next) s.disk)

    unfoldable pub handle_access_control : Request → Server F → Response F × Server F
    unfolding sanitized
    handle_access_control r s =
        if is_get r
        then (access_of_config (get s.manager).access_control, s)
        else if is_post r
        then (if r.body_fails
            then (status 400, s)
            else post_access_control (web.access_of r.body) s)
        else (status 405, s)

    -- The handlers of the routes.
    abbrev pub serve_route : Route → Time → Request → Server F → Response F × Server F
    serve_route to_status now r s = (handle_status now r s, s)
    serve_route to_metrics now r s = (handle_metrics r s, s)
    serve_route to_alerts now r s = (handle_alerts r s, s)
    serve_route to_access_control now r s = handle_access_control r s
    serve_route to_clear now r s = handle_clear r s
    serve_route to_restart now r s = handle_restart r s
    serve_route to_ui now r s = (redirect (codes "/ui/"), s)
    serve_route to_page now r s = (web_page, s)
    serve_route nowhere now r s = (status 404, s)

    unfoldable pub serve : Time → Request → Server F → Response F × Server F
    unfolding route handle_status handle_metrics handle_alerts handle_access_control handle_clear
        handle_restart
    serve now r s = serve_route (route r.path) now r s
