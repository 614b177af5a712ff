-- ===== src/Storage/Atomic.antt =====
-- Saving metrics is all or nothing.
use rfguard.Common.Tests.{
  ℕ, suc, ◌≡◌, refl, ap, sym, ◌∙◌, Bool, true, false, List, [], ◌∷◌, ◌++◌, Option, none, some,
  arith, ◌⊎◌, Bool-cases, inl, inr,
}
use mathlib.Core.List.{append_assoc, append-nil}
use rfguard.Common.Text.{Text, is_empty}
use rfguard.Common.Clock.{Time}
use rfguard.Model.{WindowMetrics}
use rfguard.Storage.Sql.{Dialect, insert_metrics_sql}
use rfguard.Storage.{
  Driver, MetricsRow, Store, metrics_row, and_then, insert_all, finish, prepared, in_tx,
  save_metrics,
}

-- What the code relies on: a database has committed rows, and a transaction pending ones, which a
-- commit appends if it gives no error. If it gives an error, the transaction is still atomic: the
-- database has them all or none. A rollback, with an error or not, leaves the rows as they were.
pub record IsTransactional {F Db Tx : Type 0} (driver : Driver F Db Tx)
    (rows : Db → List (MetricsRow F)) (pending : Tx → List (MetricsRow F)) : Type 0 where
  pub begins : (db : Db) (tx : Tx) → driver.begin_tx db ≡ some tx → pending tx ≡ []
  pub prepares : (sql : Text) (tx : Tx) → pending (driver.prepare_insert sql tx).1 ≡ pending tx
  pub inserts :
      (row : MetricsRow F) (tx : Tx)
      → (driver.insert_metrics row tx).0 ≡ true
      → pending (driver.insert_metrics row tx).1 ≡ pending tx ++ (row ∷ [])
  pub commits :
      (tx : Tx) (db : Db)
      → (driver.commit tx db).0 ≡ true
      → rows (driver.commit tx db).1 ≡ rows db ++ pending tx
  pub fails :
      (tx : Tx) (db : Db)
      → (driver.commit tx db).0 ≡ false
      → (rows (driver.commit tx db).1 ≡ rows db)
        ⊎ (rows (driver.commit tx db).1 ≡ rows db ++ pending tx)
  pub rolls_back : (tx : Tx) (db : Db) → rows (driver.rollback tx db) ≡ rows db

-- The rows of some metrics.
abbrev pub rows_of :
    {F : Type 0} → (ℕ → Time) → ℕ → Text → List (WindowMetrics F) → List (MetricsRow F)
rows_of clock n reader_id [] = []
rows_of clock n reader_id (wm ∷ metrics) =
    metrics_row reader_id (clock n) wm ∷ rows_of clock (suc n) reader_id metrics

module _ {F Db Tx : Type 0} (driver : Driver F Db Tx) (rows : Db → List (MetricsRow F))
    (pending : Tx → List (MetricsRow F)) (laws : IsTransactional driver rows pending)
    (clock : ℕ → Time) (reader_id : Text) where
  -- All the rows without an error; with an error, none of them or all.
  abbrev pub IsAtomic : Db → List (MetricsRow F) → Bool × Db → Type 0
  IsAtomic db added (saved, after) =
      ((saved ≡ true) × (rows after ≡ rows db ++ added))
      ⊎ ((saved ≡ false) × ((rows after ≡ rows db) ⊎ (rows after ≡ rows db ++ added)))

  and_then-pending :
      (tx : Tx) (row : MetricsRow F) (more : List (MetricsRow F)) (f : Tx → Bool × Tx)
      (r : Bool × Tx)
      → (r.0 ≡ true → pending r.1 ≡ pending tx ++ (row ∷ []))
      → ((t : Tx) → (f t).0 ≡ true → pending (f t).1 ≡ pending t ++ more)
      → (and_then f r).0 ≡ true
      → pending (and_then f r).1 ≡ pending tx ++ (row ∷ more)
  and_then-pending tx row more f (false, t) added later h = ground (arith, h)
  and_then-pending tx row more f (true, t) added later h =
      later t h ∙ ap (λ p. p ++ more) (added refl) ∙ append_assoc (pending tx) (row ∷ []) more

  -- A loop that comes to its end has added all the rows.
  insert_all-pending :
      (n : ℕ) (metrics : List (WindowMetrics F)) (tx : Tx)
      → (insert_all driver clock n reader_id metrics tx).0 ≡ true
      → pending (insert_all driver clock n reader_id metrics tx).1
        ≡ pending tx ++ rows_of clock n reader_id metrics
  unfolding insert_all
  insert_all-pending n [] tx h = sym (append-nil (pending tx))
  insert_all-pending n (wm ∷ metrics) tx h =
      let row = metrics_row reader_id (clock n) wm in
      and_then-pending tx row (rows_of clock (suc n) reader_id metrics)
        (insert_all driver clock (suc n) reader_id metrics) (driver.insert_metrics row tx)
        (laws.inserts row tx) (insert_all-pending (suc n) metrics) h

  finish-IsAtomic :
      (db : Db) (added : List (MetricsRow F)) (r : Bool × Tx)
      → (r.0 ≡ true → pending r.1 ≡ added)
      → IsAtomic db added (finish driver db r)
  finish-IsAtomic db added (false, tx) h = inr (refl, inl (laws.rolls_back tx db))
  finish-IsAtomic db added (true, tx) h = elim (Bool-cases (driver.commit tx db).0) [
    | inl done ↦ inl (done, laws.commits tx db done ∙ ap (λ p. rows db ++ p) (h refl))
    | inr failed ↦ inr (
      failed,
      elim (laws.fails tx db failed) [
        | inl none' ↦ inl none'
        | inr all ↦ inr (all ∙ ap (λ p. rows db ++ p) (h refl))
      ],
    )
  ]

  prepared-IsAtomic :
      (metrics : List (WindowMetrics F)) (db : Db) (r : Bool × Tx)
      → pending r.1 ≡ []
      → IsAtomic db
          (rows_of clock 0 reader_id metrics)
          (prepared driver clock reader_id metrics db r)
  prepared-IsAtomic metrics db (false, tx) h = inr (refl, inl (laws.rolls_back tx db))
  prepared-IsAtomic metrics db (true, tx) h =
      finish-IsAtomic db (rows_of clock 0 reader_id metrics)
        (insert_all driver clock 0 reader_id metrics tx)
        (λ ended.
          insert_all-pending 0 metrics tx ended
          ∙ ap (λ p. p ++ rows_of clock 0 reader_id metrics) h)

  in_tx-IsAtomic :
      (dialect : Dialect) (metrics : List (WindowMetrics F)) (db : Db) (tx : Option Tx)
      → driver.begin_tx db ≡ tx
      → IsAtomic db
          (rows_of clock 0 reader_id metrics)
          (in_tx driver dialect clock reader_id metrics db tx)
  in_tx-IsAtomic dialect metrics db none h = inr (refl, inl refl)
  in_tx-IsAtomic dialect metrics db (some tx) h =
      let sql = insert_metrics_sql dialect in
      prepared-IsAtomic metrics db (driver.prepare_insert sql tx)
        (laws.prepares sql tx ∙ laws.begins db tx h)

  abbrev pub stored : Option Db → List (MetricsRow F)
  stored none = []
  stored (some db) = rows db

  -- On a database whose transactions are atomic, `SaveMetrics` for a named reader is all or nothing,
  -- whichever call fails: without an error the database has one more
  -- row for each of the metrics, in their order; with one it has the rows that it had, or all the new
  -- ones as well, and never a part of them.
  pub save_metrics-IsAtomic :
      (metrics : List (WindowMetrics F)) (s : Store Db) (db : Db)
      → s.db ≡ some db
      → is_empty reader_id ≡ false
      → let r = save_metrics driver clock reader_id metrics s in
        let added = rows_of clock 0 reader_id metrics in
        ((r.0 ≡ true) × (stored r.1.db ≡ rows db ++ added))
        ⊎ ((r.0 ≡ false) × ((stored r.1.db ≡ rows db) ⊎ (stored r.1.db ≡ rows db ++ added)))
  unfolding save_metrics
  save_metrics-IsAtomic [] s db h e =
      rw (save_metrics, e) (inl (refl, ap stored h ∙ sym (append-nil (rows db))))
  save_metrics-IsAtomic (wm ∷ metrics) s db h e =
      rw (save_metrics, e, h) (in_tx-IsAtomic s.dialect (wm ∷ metrics) db (driver.begin_tx db) refl)
