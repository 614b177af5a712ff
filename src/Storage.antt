-- ===== src/Storage.antt =====
-- internal/storage: the alerts and metrics in a database. The drivers of `database/sql` are a
-- parameter; the two databases differ in their names and in the statements of SQL, in Storage/Sql.
pub mod Sql
pub mod Atomic
use rfguard.Common.Tests.{
  ℕ, suc, Bool, true, false, not, ◌||◌, List, [], ◌∷◌, ◌++◌, Option, none, some, if◌then◌else◌,
}
use rfguard.Common.Eq.{◌==◌}
use rfguard.Common.Text.{Text, text_eq, codes, is_empty, trim_space, to_lower}
use rfguard.Common.Int.{ℤ}
use rfguard.Common.Maps.{Map}
use rfguard.Common.Clock.{Time}
use rfguard.Model.{Alert, WindowMetrics}
use rfguard.Storage.Sql.{
  Dialect, sqlite, postgres, init_statements, insert_alert_sql, insert_metrics_sql,
}
use rfguard.Config.{StorageConfig, is_nil}

-- A row of each table; three columns of an alert are JSON.
pub record AlertRow (F : Type 0) : Type 0 where
  pub ts : Time
  pub reader_id : Text
  pub severity : Text
  pub alert_type : Text
  pub window_sec : ℤ
  pub score : F
  pub rules_json : Text
  pub metrics_json : Text
  pub context_json : Text

pub record MetricsRow (F : Type 0) : Type 0 where
  pub ts : Time
  pub reader_id : Text
  pub window_sec : ℤ
  pub attempts : ℤ
  pub failures : ℤ
  pub aps : F
  pub fr : F
  pub uds : F
  pub tv : F

-- What the code calls: each call says whether it succeeded.
pub record Driver (F Db Tx : Type 0) : Type 0 where
  pub connect : Text → Text → Option Db
  pub exec_statement : Text → Db → Bool × Db
  pub insert_alert : Text → AlertRow F → Db → Bool × Db
  pub begin_tx : Db → Option Tx
  pub prepare_insert : Text → Tx → Bool × Tx
  pub insert_metrics : MetricsRow F → Tx → Bool × Tx
  pub rollback : Tx → Db → Db
  pub commit : Tx → Db → Bool × Db
  pub close : Db → Bool

-- `encodeJSON` of the three values that the code gives it.
pub record Encoder (F : Type 0) : Type 0 where
  pub encode_rules : List Text → Text
  pub encode_metrics : WindowMetrics F → Text
  pub encode_context : Map Text Text → Text

-- A store; the database may be nil.
pub record Store (Db : Type 0) : Type 0 where
  pub dialect : Dialect
  pub db : Option Db

-- The results of `NewStore`.
pub data Opened (Db : Type 0) : Type 0 where
  disabled unsupported failed : Opened Db
  opened : Store Db → Opened Db

abbrev pub driver_name : Dialect → Text
driver_name sqlite = codes "sqlite"
driver_name postgres = codes "pgx"

abbrev pub default_dsn : Dialect → Text
default_dsn sqlite = codes "file:rfguard.db?_pragma=busy_timeout(5000)"
default_dsn postgres = codes "postgres://localhost:5432/rfguard?sslmode=disable"

-- What follows a call, if it succeeded.
abbrev pub and_then : {A : Type 0} → (A → Bool × A) → Bool × A → Bool × A
and_then f (true, a) = f a
and_then f (false, a) = (false, a)

abbrev pub alert_row : {F : Type 0} → Encoder F → Alert F → AlertRow F
alert_row json alert = record {
  ts = alert.timestamp;
  reader_id = alert.reader_id;
  severity = alert.severity;
  alert_type = alert.alert_type;
  window_sec = alert.window_sec;
  score = alert.score;
  rules_json = json.encode_rules alert.rules;
  metrics_json = json.encode_metrics alert.metrics;
  context_json = json.encode_context alert.context;
}

abbrev pub metrics_row : {F : Type 0} → Text → Time → WindowMetrics F → MetricsRow F
metrics_row reader_id now wm = record {
  ts = now;
  reader_id = reader_id;
  window_sec = wm.window_sec;
  attempts = wm.attempts;
  failures = wm.failures;
  aps = wm.aps;
  fr = wm.fr;
  uds = wm.uds;
  tv = wm.tv;
}

module _ {F Db Tx : Type 0} (driver : Driver F Db Tx) where
  abbrev pub store_of : Dialect → Option Db → Opened Db
  store_of dialect none = failed
  store_of dialect (some db) = opened (record { dialect = dialect; db = some db })

  -- `NewSQLite` and `NewPostgres`.
  unfoldable pub open_dialect : Dialect → Text → Opened Db
  open_dialect dialect dsn = store_of dialect (
      driver.connect (driver_name dialect)
        (if is_empty (trim_space dsn) then default_dsn dialect else dsn))

  unfoldable pub new_store : StorageConfig → Opened Db
  unfolding open_dialect
  new_store cfg =
      let name = to_lower cfg.driver in
      if not cfg.enabled
      then disabled
      else if name == codes "sqlite"
      then open_dialect sqlite cfg.dsn
      else if name == codes "postgres" || name == codes "postgresql"
      then open_dialect postgres cfg.dsn
      else unsupported

  -- The loop of `Init`, which ends with the first statement that fails.
  unfoldable pub run_statements : List Text → Db → Bool × Db
  run_statements [] db = (true, db)
  run_statements (stmt ∷ stmts) db = and_then (run_statements stmts) (driver.exec_statement stmt db)

  abbrev pub with_db : (Db → Bool × Db) → Store Db → Option Db → Bool × Store Db
  with_db f s none = (true, s)
  with_db f s (some db) = let r = f db in (r.0, record s { db = some r.1 })

  abbrev pub on_db : (Db → Bool × Db) → Store Db → Bool × Store Db
  on_db f s = with_db f s s.db

  unfoldable pub init : Store Db → Bool × Store Db
  unfolding run_statements
  init s = on_db (run_statements (init_statements s.dialect)) s

  unfoldable pub save_alert : Encoder F → Alert F → Store Db → Bool × Store Db
  save_alert json alert s =
      on_db (driver.insert_alert (insert_alert_sql s.dialect) (alert_row json alert)) s

  abbrev close_db : Option Db → Bool
  close_db none = true
  close_db (some db) = driver.close db

  -- `Close`, which says whether it succeeded.
  unfoldable pub close_store : Store Db → Bool
  close_store s = close_db s.db

  -- The loop over the metrics, each with a reading of the clock: it ends with the first row that
  -- fails.
  unfoldable pub insert_all : (ℕ → Time) → ℕ → Text → List (WindowMetrics F) → Tx → Bool × Tx
  insert_all clock n reader_id [] tx = (true, tx)
  insert_all clock n reader_id (wm ∷ metrics) tx =
      and_then (insert_all clock (suc n) reader_id metrics)
        (driver.insert_metrics (metrics_row reader_id (clock n) wm) tx)

  abbrev pub finish : Db → Bool × Tx → Bool × Db
  finish db (true, tx) = driver.commit tx db
  finish db (false, tx) = (false, driver.rollback tx db)

  abbrev pub prepared : (ℕ → Time) → Text → List (WindowMetrics F) → Db → Bool × Tx → Bool × Db
  prepared clock reader_id metrics db (true, tx) =
      finish db (insert_all clock 0 reader_id metrics tx)
  prepared clock reader_id metrics db (false, tx) = (false, driver.rollback tx db)

  abbrev pub in_tx :
      Dialect → (ℕ → Time) → Text → List (WindowMetrics F) → Db → Option Tx → Bool × Db
  in_tx dialect clock reader_id metrics db none = (false, db)
  in_tx dialect clock reader_id metrics db (some tx) =
      prepared clock reader_id metrics db (driver.prepare_insert (insert_metrics_sql dialect) tx)

  unfoldable pub save_metrics :
      (ℕ → Time) → Text → List (WindowMetrics F) → Store Db → Bool × Store Db
  unfolding insert_all
  save_metrics clock reader_id metrics s =
      if is_empty reader_id || is_nil metrics
      then (true, s)
      else on_db (λ db. in_tx s.dialect clock reader_id metrics db (driver.begin_tx db)) s
