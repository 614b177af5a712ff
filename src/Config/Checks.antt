-- ===== src/Config/Checks.antt =====
-- What `Validate` accepts, and what `applyDefaults` makes sure of.
use rfguard.Common.Tests.{◌≡◌, ◌≢◌, ◌↔◌, true, false, List, [], ◌∷◌, none, arith, ◌⊎◌}
use rfguard.Common.Lists.{All}
use rfguard.Common.Int.{pos, ◌<ℤ◌}
use rfguard.Common.Float.{Float, IsOrdered, zero_f}
use rfguard.Common.Clock.{Duration}
use rfguard.Config.{Config, check_windows, apply_defaults, validate}

check_windows_iff : (ws : List Duration) → (check_windows ws ≡ none) ↔ All (λ w. pos 0 <ℤ w) ws
unfolding check_windows
check_windows_iff [] = ground arith
check_windows_iff (w ∷ ws) = ground (arith, check_windows_iff ws)

module _ {F : Type 0} ⦃d : Float F⦄ where
  -- What a usable configuration has: each input that is switched on says where it listens or what it
  -- reads, the thresholds are not below 0, and the windows have a length.
  pub record IsUsable (cfg : Config F) : Type 0 where
    pub api : cfg.api.enabled ≡ true → cfg.api.addr ≢ []
    pub rest : cfg.ingest.rest.enabled ≡ true → cfg.ingest.rest.addr ≢ []
    pub syslog :
        cfg.ingest.syslog.enabled ≡ true
        → (cfg.ingest.syslog.udp_addr ≢ []) ⊎ (cfg.ingest.syslog.tcp_addr ≢ [])
    pub tcp_stream : cfg.ingest.tcp_stream.enabled ≡ true → cfg.ingest.tcp_stream.addr ≢ []
    pub file_tail : cfg.ingest.file_tail.enabled ≡ true → cfg.ingest.file_tail.files ≢ []
    pub kafka :
        cfg.ingest.kafka.enabled ≡ true
        → (cfg.ingest.kafka.brokers ≢ [])
          × (cfg.ingest.kafka.topic ≢ [])
          × (cfg.ingest.kafka.group_id ≢ [])
    pub aps : d.le cfg.detection.aps_threshold zero_f ≡ false
    pub score : d.le cfg.detection.attack_score_threshold zero_f ≡ false
    pub windows : All (λ w. pos 0 <ℤ w) cfg.detection.windows

  validate-IsUsable : (cfg : Config F) → validate cfg ≡ none → IsUsable cfg
  unfolding validate
  validate-IsUsable cfg h = record {
    api = λ e p. ground arith;
    rest = λ e p. ground arith;
    syslog = λ e. ground arith;
    tcp_stream = λ e p. ground arith;
    file_tail = λ e p. ground arith;
    kafka = λ e. (λ p. ground arith, λ p. ground arith, λ p. ground arith);
    aps = ground arith;
    score = ground arith;
    windows = (check_windows_iff cfg.detection.windows).0 (ground arith);
  }

  IsUsable-validate : (cfg : Config F) → IsUsable cfg → validate cfg ≡ none
  unfolding validate
  IsUsable-validate cfg u = ground (
    arith,
    u.api,
    u.rest,
    u.syslog,
    u.tcp_stream,
    u.file_tail,
    u.kafka,
    u.aps,
    u.score,
    u.windows,
    check_windows_iff cfg.detection.windows,
  )

  -- `Validate` accepts exactly the usable configurations.
  pub validate-none_iff : (cfg : Config F) → (validate cfg ≡ none) ↔ IsUsable cfg
  validate-none_iff cfg = (validate-IsUsable cfg, IsUsable-validate cfg)

  -- What no other part of the program has to check again.
  pub record IsComplete (cfg : Config F) : Type 0 where
    pub windows : cfg.detection.windows ≢ []
    pub epsilon : d.le cfg.detection.epsilon zero_f ≡ false
    pub metrics : pos 0 <ℤ cfg.metrics.store_limit
    pub alerts : pos 0 <ℤ cfg.alerts.store_limit
    pub channel : pos 0 <ℤ cfg.ingest.channel_buffer
    pub timezone : cfg.ingest.parser.timezone ≢ []
    pub reader : cfg.ingest.parser.default_reader_id ≢ []

  pub apply_defaults-IsComplete : IsOrdered F → (cfg : Config F) → IsComplete (apply_defaults cfg)
  unfolding apply_defaults
  apply_defaults-IsComplete laws cfg = record {
    windows = λ p. ground arith;
    epsilon = ground (arith, laws.small_pos);
    metrics = ground arith;
    alerts = ground arith;
    channel = ground arith;
    timezone = λ p. ground arith;
    reader = λ p. ground arith;
  }

  pub apply_defaults_of_IsComplete : (cfg : Config F) → IsComplete cfg → apply_defaults cfg ≡ cfg
  unfolding apply_defaults
  apply_defaults_of_IsComplete cfg c =
      ground (arith, c.windows, c.epsilon, c.metrics, c.alerts, c.channel, c.timezone, c.reader)

  -- The defaults complete every configuration, and change nothing when they are applied again, if
  -- `float64` meets the laws of `IsOrdered`.
  pub apply_defaults_lem :
      IsOrdered F
      → (cfg : Config F)
      → IsComplete (apply_defaults cfg) × (apply_defaults (apply_defaults cfg) ≡ apply_defaults cfg)
  apply_defaults_lem laws cfg = (
    apply_defaults-IsComplete laws cfg,
    apply_defaults_of_IsComplete (apply_defaults cfg) (apply_defaults-IsComplete laws cfg),
  )
