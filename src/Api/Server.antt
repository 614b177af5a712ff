-- ===== src/Api/Server.antt =====
-- internal/api/server.go: the state that the server shares with the rest of the program, requests and
-- responses. The engine holds the stores that the handlers read and clear.
use rfguard.Common.Tests.{
  ℕ, ◌+◌, Bool, ◌&&◌, ◌||◌, List, [], ◌∷◌, Option, none, some, eqb, leb, if◌then◌else◌,
}
use rfguard.Common.Eq.{◌==◌}
use rfguard.Common.Maps.{Map}
use rfguard.Common.Text.{Text, text_eq, codes, is_empty, trim_space, to_lower}
use rfguard.Common.Int.{ℤ, pos, neg_ℕ, max_int}
use rfguard.Common.Clock.{Time, Duration}
use rfguard.Common.Digits.{number_from}
use rfguard.Model.{Alert, WindowMetrics}
use rfguard.Normalize.{is_numeric}
use rfguard.Config.{AccessControlConfig, ApiConfig}
use rfguard.Config.Manager.{Disk, Manager}
use rfguard.Engine.{Engine}
use rfguard.Api.{sanitize_uid_list, sanitize_reader_lists}

-- A request: the query's two parameters are empty where it has none, and the body may be cut off.
pub record Request : Type 0 where
  pub method : Text
  pub path : Text
  pub limit : Text
  pub since : Text
  pub body : Text
  pub body_fails : Bool

-- What the standard library does with texts: `json.Unmarshal` for the two bodies, where the target is
-- empty if there is none, `time.Parse` with RFC 3339, and `Duration.String`.
pub record Web : Type 0 where
  pub access_of : Text → Option AccessControlConfig
  pub target_of : Text → Text
  pub parse_rfc3339 : Text → Option Time
  pub duration_text : Duration → Text

pub record IngestStatus : Type 0 where
  pub rest : Bool
  pub syslog : Bool
  pub file_tail : Bool
  pub tcp_stream : Bool
  pub kafka : Bool

pub record StatusResponse : Type 0 where
  pub time : Time
  pub version : Text
  pub config_path : Text
  pub access_control : AccessControlConfig
  pub ingest : IngestStatus
  pub api : ApiConfig
  pub windows : List Text

-- The responses: a bare status, a panic of the handler, and the payloads.
pub data Response (F : Type 0) : Type 0 where
  status : ℕ → Response F
  panics : Response F
  done : Response F
  status_of : StatusResponse → Response F
  metrics_of : Text → Time → List (WindowMetrics F) → Response F
  all_metrics : Map Text (List (WindowMetrics F)) → ℕ → Response F
  alerts_of : List (Alert F) → ℕ → Response F
  access_of_config : AccessControlConfig → Response F
  redirect : Text → Response F
  web_page : Response F

-- The server, with what its pointers lead to, and whether the engine and the stores are set.
pub record Server (F : Type 0) : Type 0 where
  pub manager : Manager F
  pub disk : Disk
  pub engine : Engine F
  pub has_engine : Bool
  pub has_metrics : Bool
  pub has_alerts : Bool
  pub version : Text

-- `strings.TrimPrefix`
abbrev pub after_prefix : Text → Text → Option Text
after_prefix [] s = some s
after_prefix (p ∷ start) [] = none
after_prefix (p ∷ start) (c ∷ s) = if eqb p c then after_prefix start s else none

abbrev pub text_or : Text → Option Text → Text
text_or s none = s
text_or s (some t) = t

unfoldable pub trim_prefix : Text → Text → Text
trim_prefix start s = text_or s (after_prefix start s)

-- `strconv.Atoi`: a sign, if any, and digits, within `int`.
abbrev pub natural : ℕ → Text → Option ℕ
natural most digits =
    if is_numeric digits && leb (number_from 0 digits) most
    then some (number_from 0 digits)
    else none

abbrev pub positive : Option ℕ → Option ℤ
positive none = none
positive (some n) = some (pos n)

abbrev pub negative : Option ℕ → Option ℤ
negative none = none
negative (some n) = some (neg_ℕ n)

unfoldable pub atoi : Text → Option ℤ
atoi [] = none
atoi (c ∷ s) =
    if eqb c b'-'
    then negative (natural (max_int + 1) s)
    else if eqb c b'+'
    then positive (natural max_int s)
    else positive (natural max_int (c ∷ s))

abbrev pub or_zero : Option ℤ → ℤ
or_zero none = pos 0
or_zero (some n) = n

abbrev pub is_get : Request → Bool
is_get r = r.method == codes "GET"

abbrev pub is_post : Request → Bool
is_post r = r.method == codes "POST"

-- The access control that a handler makes of the one that is sent.
unfoldable pub sanitized : AccessControlConfig → AccessControlConfig
unfolding sanitize_uid_list sanitize_reader_lists
sanitized ac = record ac {
  whitelist = sanitize_uid_list ac.whitelist;
  blacklist = sanitize_uid_list ac.blacklist;
  reader_whitelists = sanitize_reader_lists ac.reader_whitelists;
  reader_blacklists = sanitize_reader_lists ac.reader_blacklists;
}

-- What `/admin/clear` is to clear.
pub data Target : Type 0 where
  everything alerts_only metrics_only unknown : Target

unfoldable pub target : Text → Target
target req =
    let name = to_lower (trim_space req) in
    if is_empty name || name == codes "all"
    then everything
    else if name == codes "alerts" || name == codes "logs"
    then alerts_only
    else if name == codes "metrics"
    then metrics_only
    else unknown
