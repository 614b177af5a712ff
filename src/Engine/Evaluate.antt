-- ===== src/Engine/Evaluate.antt =====
-- The three evaluations of an event: the windows' metrics, the access control, and the streaks of
-- failed authentications. Each may raise an alert, unless it is held back by the cooldown.
use rfguard.Common.Tests.{ℕ, not, ◌&&◌, ◌||◌, [], ◌∷◌, ◌++◌, Option, none, some, if◌then◌else◌}
use rfguard.Common.Text.{Text, text_eq, is_empty, codes}
use rfguard.Common.Int.{ℤ, pos, inc_int, ltb_ℤ, eqb_ℤ}
use rfguard.Common.Maps.{Map, lookup, insert}
use rfguard.Common.Clock.{Time}
use rfguard.Common.Float.{Float, zero_f}
use rfguard.Model.{NormalizedEvent, WindowMetrics, Alert, is_failure, result_text}
use rfguard.Config.{Config, is_nil}
use rfguard.Window.{or_zero}
use rfguard.Access.{AccessControlSet, normalize_uid, is_blacklisted, is_whitelisted}
use rfguard.Engine.{ReaderState}
use rfguard.Engine.Rules.{rules_of, score_of, severity_of}
use rfguard.Engine.Monad.{M, ◌>>=◌, return, now_utc, cooldown_allow, cooldown_allow_key}

-- The context of the alerts about a UID.
abbrev pub uid_context : Text → NormalizedEvent → Map Text Text
uid_context uid ev =
    (codes "uid", uid)
    ∷ (codes "uid_raw", ev.uid)
    ∷ (codes "source", ev.source)
    ∷ (codes "result", result_text ev.result)
    ∷ (codes "error_code", ev.error_code)
    ∷ []

abbrev pub blacklisted_uid : Text
blacklisted_uid = codes "blacklisted_uid"

abbrev pub whitelist_violation : Text
whitelist_violation = codes "whitelist_violation"

abbrev pub repeated_auth_failure : Text
repeated_auth_failure = codes "repeated_auth_failure"

-- The cooldown key of a reader's UID.
abbrev pub auth_key : Text → Text → Text
auth_key reader_id uid = codes "authfail|" ++ reader_id ++ b'|' ∷ uid

abbrev pub streak_after : NormalizedEvent → ReaderState → ℤ
streak_after ev r = inc_int (or_zero (lookup (normalize_uid ev.uid) r.uid_failure_streak))

abbrev pub set_streak : Text → ℤ → ReaderState → ReaderState
set_streak uid n r = record r { uid_failure_streak = insert uid n r.uid_failure_streak }

module _ {F : Type 0} ⦃d : Float F⦄ where
  -- `model.WindowMetrics{}`.
  abbrev pub no_metrics : WindowMetrics F
  no_metrics = record {
    window_sec = pos 0;
    attempts = pos 0;
    failures = pos 0;
    aps = zero_f;
    fr = zero_f;
    uds = zero_f;
    tv = zero_f;
  }

  -- An alert about a UID: its type is also its one rule.
  abbrev pub uid_alert : Time → Text → Text → Text → Text → NormalizedEvent → Alert F
  uid_alert now reader_id severity alert_type uid ev = record {
    timestamp = now;
    reader_id = reader_id;
    severity = severity;
    alert_type = alert_type;
    window_sec = pos 0;
    metrics = no_metrics;
    score = zero_f;
    rules = alert_type ∷ [];
    context = uid_context uid ev;
  }

  module _ (clock : ℕ → Time) where
    unfoldable pub raise_window : Config F → Text → WindowMetrics F → M F (Option (Alert F))
    unfolding now_utc
    raise_window cfg reader_id wm = do
      now ← now_utc clock
      return (
          some (record {
            timestamp = now;
            reader_id = reader_id;
            severity = severity_of cfg.detection wm (rules_of cfg.detection wm);
            alert_type = codes "possible_bruteforce";
            window_sec = wm.window_sec;
            metrics = wm;
            score = score_of cfg.detection wm;
            rules = rules_of cfg.detection wm;
            context = (codes "engine", codes "rfguard") ∷ [];
          }))

    unfoldable pub evaluate : Config F → Text → WindowMetrics F → M F (Option (Alert F))
    unfolding raise_window
    evaluate cfg reader_id wm =
        if eqb_ℤ wm.attempts (pos 0)
        then return none
        else if is_nil (rules_of cfg.detection wm)
        then return none
        else do
          allowed ← cooldown_allow clock reader_id wm.window_sec cfg.detection.alert_cooldown
          if allowed then raise_window cfg reader_id wm else return none

    unfoldable pub stamp : Text → Text → Text → Text → NormalizedEvent → M F (Option (Alert F))
    unfolding now_utc
    stamp reader_id severity alert_type uid ev = do
      now ← now_utc clock
      return (some (uid_alert now reader_id severity alert_type uid ev))

    -- The two alerts of `evaluateAccess` share their cooldown.
    unfoldable pub raise_access :
        Config F → NormalizedEvent → Text → Text → Text → M F (Option (Alert F))
    unfolding stamp
    raise_access cfg ev severity alert_type uid = do
      allowed ← cooldown_allow clock ev.reader_id (pos 0) cfg.detection.alert_cooldown
      if allowed then stamp ev.reader_id severity alert_type uid ev else return none

    unfoldable pub check_access :
        Config F → AccessControlSet → NormalizedEvent → Text → M F (Option (Alert F))
    unfolding raise_access
    check_access cfg ac ev uid =
        if is_blacklisted (some ac) ev.reader_id uid
        then raise_access cfg ev (codes "critical") blacklisted_uid uid
        else if ac.whitelist_only && not (is_whitelisted (some ac) ev.reader_id uid)
        then raise_access cfg ev (codes "high") whitelist_violation uid
        else return none

    unfoldable pub evaluate_access : Config F → NormalizedEvent → M F (Option (Alert F))
    unfolding check_access
    evaluate_access cfg ev e =
        if not e.access.enabled
        then (none, e)
        else if is_empty ev.uid
        then (none, e)
        else if is_empty (normalize_uid ev.uid)
        then (none, e)
        else check_access cfg e.access ev (normalize_uid ev.uid) e

    unfoldable pub raise_auth : Config F → Text → NormalizedEvent → Text → M F (Option (Alert F))
    unfolding stamp
    raise_auth cfg reader_id ev uid = do
      allowed ← cooldown_allow_key clock (auth_key reader_id uid) cfg.detection.alert_cooldown
      if allowed then stamp reader_id (codes "medium") repeated_auth_failure uid ev else return none

    -- The reader that the pointer shows is written back by the caller.
    unfoldable pub evaluate_auth_streak :
        Config F → ReaderState → NormalizedEvent → M F (Option (Alert F) × ReaderState)
    unfolding raise_auth
    evaluate_auth_streak cfg reader ev =
        let uid = normalize_uid ev.uid in
        let streak = streak_after ev reader in
        if is_empty ev.uid
        then return (none, reader)
        else if is_empty uid
        then return (none, reader)
        else if not (is_failure ev.result) || is_empty ev.error_code
        then return (none, set_streak uid (pos 0) reader)
        else if ltb_ℤ streak (pos 2)
        then return (none, set_streak uid streak reader)
        else do
          alert ← raise_auth cfg reader.id ev uid
          return (alert, set_streak uid streak reader)
