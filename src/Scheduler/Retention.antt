-- ===== src/Scheduler/Retention.antt =====
-- internal/scheduler/scheduler.go: `runRetention`, over the store's rollups and deletion, which are
-- SQL statements of the database.
use netdata_postgres_mcp.Base.{ℕ, ◌+◌, ◌-◌, ◌*◌, ◌≡◌, Option, none, some, ltb, if◌then◌else◌, arith}
use netdata_postgres_mcp.Metrics.{Metrics}

-- Each call by the time that bounds the samples it works on; `none` is an error, which leaves the
-- database as it is, and the number is the number of rows affected.
pub record Retention (Db : Type 0) : Type 0 where
  pub aggregate_hourly : ℕ → Db → Option (Db × ℕ)
  pub aggregate_daily : ℕ → Db → Option (Db × ℕ)
  pub delete_before : ℕ → Db → Option (Db × ℕ)

-- time.Hour, in nanoseconds.
abbrev pub hour : ℕ
hour = 3600000000000

module _ {Db : Type 0} (store : Retention Db) where
  open store use {aggregate_hourly, aggregate_daily, delete_before}

  abbrev pub or_unchanged : Db → Option (Db × ℕ) → Db
  or_unchanged db none = db
  or_unchanged db (some (db', rolled)) = db'

  -- DeleteOldSamples, with its own reading of the clock.
  abbrev pub delete_old_samples : ℕ → ℕ → Db → Option (Db × ℕ)
  delete_old_samples now older_than = delete_before (now - older_than)

  after_delete : Db → Metrics → Option (Db × ℕ) → Db × Metrics
  after_delete db m none = (db, m)
  after_delete db m (some (db', deleted)) =
      if ltb 0 deleted
      then (db', record m { retention_deleted = m.retention_deleted + deleted })
      else (db', m)

  -- The three readings of the clock, the retention, the database and the counters.
  unfoldable pub run_retention : ℕ → ℕ → ℕ → ℕ → Db → Metrics → Db × Metrics
  unfolding after_delete
  run_retention now now' now'' retention db m =
      let hourly = or_unchanged db (aggregate_hourly (now - hour) db) in
      let daily = or_unchanged hourly (aggregate_daily (now' - 24 * hour) hourly) in
      after_delete daily m (delete_old_samples now'' retention daily)

  -- The samples deleted are counted exactly, and the deletion works on what both rollups left, whether
  -- they succeeded or not: a failed one leaves the database as it was.
  pub run_retention-deletes :
      (now now' now'' retention deleted : ℕ) (db hourly daily db' : Db) (m : Metrics)
      → or_unchanged db (aggregate_hourly (now - hour) db) ≡ hourly
      → or_unchanged hourly (aggregate_daily (now' - 24 * hour) hourly) ≡ daily
      → delete_before (now'' - retention) daily ≡ some (db', deleted)
      → run_retention now now' now'' retention db m
        ≡ (db', record m { retention_deleted = m.retention_deleted + deleted })
  unfolding run_retention
  run_retention-deletes now now' now'' retention deleted db hourly daily db' m h d e =
      rw (h, d, e) (ground arith)
