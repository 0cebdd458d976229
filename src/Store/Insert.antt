-- ===== src/Store/Insert.antt =====
-- internal/store/store.go: `InsertSamples` and `insertBatch`.
pub mod Laws
use netdata_postgres_mcp.Base.{
  ℕ, zero, suc, ◌+◌, ◌-◌, true, false, List, [], ◌∷◌, Option, none, some, length, take, drop, ltb,
  ◌==◌, if◌then◌else◌,
}
use netdata_postgres_mcp.Base.Text.{Bytes, str}
use netdata_postgres_mcp.Postgres.{Statement, numbered, arguments, Pool, batch_at}
use netdata_postgres_mcp.Store.Sample.{MetricSample, sample_row}

abbrev pub batch_size : ℕ
batch_size = 500

unfoldable pub sample_columns : List Bytes
sample_columns =
    str "node_id"
    ∷ str "collected_at"
    ∷ str "context"
    ∷ str "chart"
    ∷ str "family"
    ∷ str "instance"
    ∷ str "dimension"
    ∷ str "unit"
    ∷ str "value"
    ∷ str "labels"
    ∷ []

-- Ten placeholders a row, `$(i * 10 + 1)` to `$(i * 10 + 10)`.
pub insert_statement : List MetricSample → Statement
insert_statement samples = record {
  columns = sample_columns;
  values = numbered 10 sample_row 0 samples;
  args = arguments 10 sample_row samples;
}

pub data Error : Type 0 where
  begin_failed commit_failed : Error
  batch_failed : ℕ → Error

-- `stuck` is no Go value: the loop ran out of fuel.
pub data LoopEnd (Tx : Type 0) : Type 0 where
  done : ℕ → Tx → LoopEnd Tx
  failed : ℕ → Error → LoopEnd Tx
  stuck : LoopEnd Tx

-- The database after the call, and Go's `(int64, error)`.
pub record Inserted (Db : Type 0) : Type 0 where
  pub db : Db
  pub count : ℕ
  pub error : Option Error

module _ (pool : Pool) where
  open pool use {Db, Tx, begin, exec, commit}

  pub insert_batch : Tx → List MetricSample → Option (Tx × ℕ)
  insert_batch tx samples =
      if length samples == 0 then some (tx, 0) else exec tx (insert_statement samples)

  unfoldable pub insert_loop : ℕ → List MetricSample → ℕ → ℕ → Tx → LoopEnd Tx
  unfolding insert_batch
  insert_loop zero samples i total tx = if ltb i (length samples) then stuck else done total tx
  insert_loop (suc fuel) samples i total tx = elim (ltb i (length samples)) [
    | false ↦ done total tx
    | true ↦ elim (insert_batch tx (batch_at batch_size samples i)) [
      | none ↦ failed total (batch_failed i)
      | some (tx', inserted) ↦ insert_loop fuel samples (i + batch_size) (total + inserted) tx'
    ]
  ]

  -- A transaction that does not commit is rolled back: the database is as it was.
  after_loop : Db → LoopEnd Tx → Option (Inserted Db)
  after_loop db stuck = none
  after_loop db (failed total e) = some (record { db = db; count = total; error = some e })
  after_loop db (done total tx) = elim (commit tx) [
    | none ↦ some (record { db = db; count = 0; error = some commit_failed })
    | some db' ↦ some (record { db = db'; count = total; error = none })
  ]

  -- `none` for the loop that ran out of fuel.
  unfoldable pub insert_samples : Db → List MetricSample → Option (Inserted Db)
  unfolding insert_loop after_loop
  insert_samples db samples =
      if length samples == 0
      then some (record { db = db; count = 0; error = none })
      else elim (begin db) [
        | none ↦ some (record { db = db; count = 0; error = some begin_failed })
        | some tx ↦ after_loop db (insert_loop (suc (length samples)) samples 0 0 tx)
      ]
