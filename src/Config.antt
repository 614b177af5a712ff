-- ===== src/Config.antt =====
-- internal/config/config.go: the configuration, its defaults and its validation. Its file and its
-- manager stand in the child modules; the tags of the fields are left out.
pub mod Checks
pub mod Load
pub mod Manager
use rfguard.Common.Tests.{
  ℕ, ◌*◌, ◌≡◌, Bool, true, false, not, ◌&&◌, ◌||◌, List, [], ◌∷◌, Option, none, some, if◌then◌else◌,
}
use rfguard.Common.Text.{Text, codes, is_empty}
use rfguard.Common.Int.{ℤ, pos, leb_ℤ, ltb_ℤ}
use rfguard.Common.Maps.{Map}
use rfguard.Common.Float.{Float, zero_f, decimal}
use rfguard.Common.Clock.{Duration, second}

pub record RestConfig : Type 0 where
  pub enabled : Bool
  pub addr : Text

pub record SyslogConfig : Type 0 where
  pub enabled : Bool
  pub udp_addr : Text
  pub tcp_addr : Text

pub record TcpStreamConfig : Type 0 where
  pub enabled : Bool
  pub addr : Text

pub record FileTailConfig : Type 0 where
  pub enabled : Bool
  pub start_at_end : Bool
  pub files : List Text

pub record KafkaConfig : Type 0 where
  pub enabled : Bool
  pub brokers : List Text
  pub topic : Text
  pub group_id : Text

pub record ParserConfig : Type 0 where
  pub timezone : Text
  pub default_reader_id : Text

pub record IngestConfig : Type 0 where
  pub channel_buffer : ℤ
  pub rest : RestConfig
  pub syslog : SyslogConfig
  pub tcp_stream : TcpStreamConfig
  pub file_tail : FileTailConfig
  pub kafka : KafkaConfig
  pub parser : ParserConfig

pub record WeightsConfig (F : Type 0) : Type 0 where
  pub aps : F
  pub fr : F
  pub uds : F
  pub tv : F

pub record DetectionConfig (F : Type 0) : Type 0 where
  pub windows : List Duration
  pub aps_threshold : F
  pub failure_ratio_threshold : F
  pub uid_diversity_threshold : F
  pub timing_variance_threshold : F
  pub attack_score_threshold : F
  pub weights : WeightsConfig F
  pub epsilon : F
  pub min_attempts : ℤ
  pub aps_elevated_threshold : F
  pub alert_cooldown : Duration
  pub dedupe_window : Duration
  pub max_clock_skew : Duration
  pub max_future_skew : Duration

pub record AccessControlConfig : Type 0 where
  pub enabled : Bool
  pub whitelist_only : Bool
  pub whitelist : List Text
  pub blacklist : List Text
  pub reader_whitelists : Map Text (List Text)
  pub reader_blacklists : Map Text (List Text)

pub record ApiConfig : Type 0 where
  pub enabled : Bool
  pub addr : Text

pub record StorageConfig : Type 0 where
  pub enabled : Bool
  pub driver : Text
  pub dsn : Text

pub record MetricsConfig : Type 0 where
  pub store_limit : ℤ

pub record AlertsConfig : Type 0 where
  pub store_limit : ℤ

pub record Config (F : Type 0) : Type 0 where
  pub log_level : Text
  pub ingest : IngestConfig
  pub detection : DetectionConfig F
  pub access_control : AccessControlConfig
  pub api : ApiConfig
  pub storage : StorageConfig
  pub metrics : MetricsConfig
  pub alerts : AlertsConfig

abbrev pub seconds_of : ℕ → Duration
seconds_of n = pos (n * second)

abbrev pub default_windows : List Duration
default_windows = seconds_of 1 ∷ seconds_of 10 ∷ seconds_of 60 ∷ []

abbrev pub is_nil {ℓ} : {A : Type ℓ} → List A → Bool
is_nil [] = true
is_nil (x ∷ xs) = false

-- The configuration that lists nothing of its own.
abbrev pub default_ingest : IngestConfig
default_ingest = record {
  channel_buffer = pos 10_000;
  rest = record { enabled = true; addr = codes ":8080" };
  syslog = record { enabled = true; udp_addr = codes ":5514"; tcp_addr = codes ":5514" };
  tcp_stream = record { enabled = false; addr = codes ":9000" };
  file_tail = record { enabled = false; start_at_end = true; files = [] };
  kafka = record { enabled = false; brokers = []; topic = []; group_id = [] };
  parser = record { timezone = codes "UTC"; default_reader_id = codes "unknown" };
}

-- The errors of `Validate`, one for each message.
pub data ValidationError : Type 0 where
  api_addr rest_addr syslog_addr tcp_stream_addr file_tail_files kafka_fields : ValidationError
  aps_threshold attack_score_threshold : ValidationError
  non_positive_window : Duration → ValidationError

-- The loop over the windows.
unfoldable pub check_windows : List Duration → Option ValidationError
check_windows [] = none
check_windows (win ∷ rest) =
    if leb_ℤ win (pos 0) then some (non_positive_window win) else check_windows rest

module _ {F : Type 0} ⦃d : Float F⦄ where
  unfoldable pub default_config : Config F
  default_config = record {
    log_level = codes "info";
    ingest = default_ingest;
    detection = record {
      windows = default_windows;
      aps_threshold = d.of_int (pos 20);
      failure_ratio_threshold = decimal 7 10;
      uid_diversity_threshold = decimal 6 10;
      timing_variance_threshold = decimal 2 100;
      attack_score_threshold = d.of_int (pos 100);
      weights = record {
        aps = d.of_int (pos 1);
        fr = d.of_int (pos 50);
        uds = d.of_int (pos 40);
        tv = d.of_int (pos 1);
      };
      epsilon = decimal 1 10_000;
      min_attempts = pos 10;
      aps_elevated_threshold = d.of_int (pos 10);
      alert_cooldown = seconds_of 5;
      dedupe_window = seconds_of 1;
      max_clock_skew = seconds_of 2;
      max_future_skew = seconds_of 2;
    };
    access_control = record {
      enabled = false;
      whitelist_only = false;
      whitelist = [];
      blacklist = [];
      reader_whitelists = [];
      reader_blacklists = [];
    };
    api = record { enabled = true; addr = codes ":8081" };
    storage = record {
      enabled = false;
      driver = codes "sqlite";
      dsn = codes "file:rfguard.db?_pragma=busy_timeout(5000)";
    };
    metrics = record { store_limit = pos 5000 };
    alerts = record { store_limit = pos 1000 };
  }

  -- `x <= 0` on floats.
  abbrev pub not_positive : F → Bool
  not_positive x = d.le x zero_f

  unfoldable pub apply_defaults : Config F → Config F
  apply_defaults cfg = record cfg {
    detection = record cfg.detection {
      windows = if is_nil cfg.detection.windows then default_windows else cfg.detection.windows;
      epsilon =
          if not_positive cfg.detection.epsilon then decimal 1 10_000 else cfg.detection.epsilon;
    };
    metrics = record {
      store_limit =
          if leb_ℤ cfg.metrics.store_limit (pos 0) then pos 5000 else cfg.metrics.store_limit;
    };
    alerts = record {
      store_limit =
          if leb_ℤ cfg.alerts.store_limit (pos 0) then pos 1000 else cfg.alerts.store_limit;
    };
    ingest = record cfg.ingest {
      channel_buffer =
          if leb_ℤ cfg.ingest.channel_buffer (pos 0) then pos 10_000 else cfg.ingest.channel_buffer;
      parser = record {
        timezone =
            if is_empty cfg.ingest.parser.timezone then codes "UTC" else cfg.ingest.parser.timezone;
        default_reader_id =
            if is_empty cfg.ingest.parser.default_reader_id
            then codes "unknown"
            else cfg.ingest.parser.default_reader_id;
      };
    };
  }

  unfoldable pub validate : Config F → Option ValidationError
  unfolding check_windows
  validate cfg =
      if cfg.api.enabled && is_empty cfg.api.addr
      then some api_addr
      else if cfg.ingest.rest.enabled && is_empty cfg.ingest.rest.addr
      then some rest_addr
      else if cfg.ingest.syslog.enabled
          && is_empty cfg.ingest.syslog.udp_addr
          && is_empty cfg.ingest.syslog.tcp_addr
      then some syslog_addr
      else if cfg.ingest.tcp_stream.enabled && is_empty cfg.ingest.tcp_stream.addr
      then some tcp_stream_addr
      else if cfg.ingest.file_tail.enabled && is_nil cfg.ingest.file_tail.files
      then some file_tail_files
      else if cfg.ingest.kafka.enabled
          && (is_nil cfg.ingest.kafka.brokers
              || is_empty cfg.ingest.kafka.topic
              || is_empty cfg.ingest.kafka.group_id)
      then some kafka_fields
      else if not_positive cfg.detection.aps_threshold
      then some aps_threshold
      else if not_positive cfg.detection.attack_score_threshold
      then some attack_score_threshold
      else check_windows cfg.detection.windows
