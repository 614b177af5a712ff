-- ===== src/Tests/StorageRuns.antt =====
-- A database of one table, in memory, that refuses the second row of a transaction, and whose commits
-- report an error, and yet succeed, where there are rows.
use rfguard.Common.Tests.{◌≡◌, refl, true, false, List, [], ◌∷◌, ◌++◌, some, ◌⊎◌, inr, arith}
use rfguard.Common.Text.{codes}
use rfguard.Common.Int.{ℤ}
use rfguard.Storage.{Driver, MetricsRow, Store, save_metrics, insert_all}
use rfguard.Config.{is_nil}
use rfguard.Model.{WindowMetrics}
use rfguard.Storage.Sql.{sqlite}
use rfguard.Storage.Atomic.{IsTransactional, rows_of, stored, save_metrics-IsAtomic}
use rfguard.Tests.{clock, window_metrics}

abbrev Rows : Type 0
Rows = List (MetricsRow ℤ)

abbrev memory : Driver ℤ Rows Rows
memory = record {
  connect = λ name dsn. some [];
  exec_statement = λ stmt db. (true, db);
  insert_alert = λ sql row db. (true, db);
  begin_tx = λ db. some [];
  prepare_insert = λ sql tx. (true, tx);
  insert_metrics = λ row tx. (is_nil tx, tx ++ (row ∷ []));
  rollback = λ tx db. db;
  commit = λ tx db. (is_nil db, db ++ tx);
  close = λ db. true;
}

abbrev itself : Rows → Rows
itself r = r

memory-IsTransactional : IsTransactional memory itself itself
memory-IsTransactional = record {
  begins = λ db tx h. ground (arith, h);
  prepares = λ sql tx. refl;
  inserts = λ row tx h. refl;
  commits = λ tx db h. refl;
  fails = λ tx db h. inr refl;
  rolls_back = λ tx db. refl;
}

abbrev store : Store Rows
store = record { dialect = sqlite; db = some [] }

abbrev two_metrics : List (WindowMetrics ℤ)
two_metrics = window_metrics ∷ window_metrics ∷ []

-- The second row fails, and the first is not kept.
second_fails : save_metrics memory clock (codes "r1") two_metrics store ≡ (false, store)
unfolding save_metrics insert_all
second_fails = refl

save_metrics-IsAtomic_example :
    let r = save_metrics memory clock (codes "r1") two_metrics store in
    let rows = stored memory itself itself memory-IsTransactional clock (codes "r1") r.1.db in
    let added = rows_of clock 0 (codes "r1") two_metrics in
    ((r.0 ≡ true) × (rows ≡ [] ++ added)) ⊎ ((r.0 ≡ false) × ((rows ≡ []) ⊎ (rows ≡ [] ++ added)))
save_metrics-IsAtomic_example =
    save_metrics-IsAtomic memory itself itself memory-IsTransactional clock (codes "r1") two_metrics
      store [] refl refl
