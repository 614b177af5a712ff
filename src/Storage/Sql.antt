-- ===== src/Storage/Sql.antt =====
-- The statements of SQL in internal/storage/sqlite.go and postgres.go.
use rfguard.Common.Tests.{List, [], ◌∷◌, ◌++◌}
use rfguard.Common.Text.{Text, codes}

pub data Dialect : Type 0 where
  sqlite postgres : Dialect

abbrev pub sqlite_create_alerts : Text
sqlite_create_alerts =
    codes "CREATE TABLE IF NOT EXISTS alerts (\n"
    ++ codes "\t\t\tid INTEGER PRIMARY KEY AUTOINCREMENT,\n"
    ++ codes "\t\t\tts TEXT NOT NULL,\n"
    ++ codes "\t\t\treader_id TEXT NOT NULL,\n"
    ++ codes "\t\t\tseverity TEXT NOT NULL,\n"
    ++ codes "\t\t\talert_type TEXT NOT NULL,\n"
    ++ codes "\t\t\twindow_sec INTEGER NOT NULL,\n"
    ++ codes "\t\t\tscore REAL NOT NULL,\n"
    ++ codes "\t\t\trules_json TEXT NOT NULL,\n"
    ++ codes "\t\t\tmetrics_json TEXT NOT NULL,\n"
    ++ codes "\t\t\tcontext_json TEXT\n"
    ++ codes "\t\t)"

abbrev pub sqlite_index_alerts : Text
sqlite_index_alerts = codes "CREATE INDEX IF NOT EXISTS idx_alerts_ts ON alerts(ts)"

abbrev pub sqlite_create_metrics : Text
sqlite_create_metrics =
    codes "CREATE TABLE IF NOT EXISTS metrics (\n"
    ++ codes "\t\t\tid INTEGER PRIMARY KEY AUTOINCREMENT,\n"
    ++ codes "\t\t\tts TEXT NOT NULL,\n"
    ++ codes "\t\t\treader_id TEXT NOT NULL,\n"
    ++ codes "\t\t\twindow_sec INTEGER NOT NULL,\n"
    ++ codes "\t\t\tattempts INTEGER NOT NULL,\n"
    ++ codes "\t\t\tfailures INTEGER NOT NULL,\n"
    ++ codes "\t\t\taps REAL NOT NULL,\n"
    ++ codes "\t\t\tfr REAL NOT NULL,\n"
    ++ codes "\t\t\tuds REAL NOT NULL,\n"
    ++ codes "\t\t\ttv REAL NOT NULL\n"
    ++ codes "\t\t)"

abbrev pub sqlite_index_metrics : Text
sqlite_index_metrics =
    codes "CREATE INDEX IF NOT EXISTS idx_metrics_reader_window ON metrics(reader_id, window_sec)"

abbrev pub sqlite_insert_alert : Text
sqlite_insert_alert =
    codes
      "INSERT INTO alerts (ts, reader_id, severity, alert_type, window_sec, score, rules_json, metrics_json, context_json)\n"
    ++ codes "\t\tVALUES (?, ?, ?, ?, ?, ?, ?, ?, ?)"

abbrev pub sqlite_insert_metrics : Text
sqlite_insert_metrics =
    codes "INSERT INTO metrics (ts, reader_id, window_sec, attempts, failures, aps, fr, uds, tv)\n"
    ++ codes "\t\tVALUES (?, ?, ?, ?, ?, ?, ?, ?, ?)"

abbrev pub postgres_create_alerts : Text
postgres_create_alerts =
    codes "CREATE TABLE IF NOT EXISTS alerts (\n"
    ++ codes "\t\t\tid BIGSERIAL PRIMARY KEY,\n"
    ++ codes "\t\t\tts TIMESTAMPTZ NOT NULL,\n"
    ++ codes "\t\t\treader_id TEXT NOT NULL,\n"
    ++ codes "\t\t\tseverity TEXT NOT NULL,\n"
    ++ codes "\t\t\talert_type TEXT NOT NULL,\n"
    ++ codes "\t\t\twindow_sec INTEGER NOT NULL,\n"
    ++ codes "\t\t\tscore DOUBLE PRECISION NOT NULL,\n"
    ++ codes "\t\t\trules_json JSONB NOT NULL,\n"
    ++ codes "\t\t\tmetrics_json JSONB NOT NULL,\n"
    ++ codes "\t\t\tcontext_json JSONB\n"
    ++ codes "\t\t)"

abbrev pub postgres_index_alerts : Text
postgres_index_alerts = codes "CREATE INDEX IF NOT EXISTS idx_alerts_ts ON alerts(ts)"

abbrev pub postgres_create_metrics : Text
postgres_create_metrics =
    codes "CREATE TABLE IF NOT EXISTS metrics (\n"
    ++ codes "\t\t\tid BIGSERIAL PRIMARY KEY,\n"
    ++ codes "\t\t\tts TIMESTAMPTZ NOT NULL,\n"
    ++ codes "\t\t\treader_id TEXT NOT NULL,\n"
    ++ codes "\t\t\twindow_sec INTEGER NOT NULL,\n"
    ++ codes "\t\t\tattempts INTEGER NOT NULL,\n"
    ++ codes "\t\t\tfailures INTEGER NOT NULL,\n"
    ++ codes "\t\t\taps DOUBLE PRECISION NOT NULL,\n"
    ++ codes "\t\t\tfr DOUBLE PRECISION NOT NULL,\n"
    ++ codes "\t\t\tuds DOUBLE PRECISION NOT NULL,\n"
    ++ codes "\t\t\ttv DOUBLE PRECISION NOT NULL\n"
    ++ codes "\t\t)"

abbrev pub postgres_index_metrics : Text
postgres_index_metrics =
    codes "CREATE INDEX IF NOT EXISTS idx_metrics_reader_window ON metrics(reader_id, window_sec)"

abbrev pub postgres_insert_alert : Text
postgres_insert_alert =
    codes
      "INSERT INTO alerts (ts, reader_id, severity, alert_type, window_sec, score, rules_json, metrics_json, context_json)\n"
    ++ codes "\t\tVALUES ($1, $2, $3, $4, $5, $6, $7, $8, $9)"

abbrev pub postgres_insert_metrics : Text
postgres_insert_metrics =
    codes "INSERT INTO metrics (ts, reader_id, window_sec, attempts, failures, aps, fr, uds, tv)\n"
    ++ codes "\t\tVALUES ($1, $2, $3, $4, $5, $6, $7, $8, $9)"

-- The statements of `Init`.
abbrev pub init_statements : Dialect → List Text
init_statements sqlite =
    sqlite_create_alerts ∷ sqlite_index_alerts ∷ sqlite_create_metrics ∷ sqlite_index_metrics ∷ []
init_statements postgres =
    postgres_create_alerts ∷ postgres_index_alerts ∷ postgres_create_metrics
    ∷ postgres_index_metrics ∷ []

abbrev pub insert_alert_sql : Dialect → Text
insert_alert_sql sqlite = sqlite_insert_alert
insert_alert_sql postgres = postgres_insert_alert

abbrev pub insert_metrics_sql : Dialect → Text
insert_metrics_sql sqlite = sqlite_insert_metrics
insert_metrics_sql postgres = postgres_insert_metrics
