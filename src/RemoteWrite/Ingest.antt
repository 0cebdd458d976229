-- ===== src/RemoteWrite/Ingest.antt =====
-- internal/remotewrite/handler.go: `ingest` and `metricToContext`.
pub mod Rows
pub mod Laws
use netdata_postgres_mcp.Base.{
  ℕ, zero, suc, ◌+◌, ◌*◌, ◌/◌, ◌%◌, ◌^◌, Bool, true, false, List, [], ◌∷◌, ◌++◌, Option, none, some,
  length, ltb, ◌==◌, if◌then◌else◌,
}
use netdata_postgres_mcp.Base.Text.{Bytes, str, eq_str, is_empty, has_prefix}
use netdata_postgres_mcp.Postgres.{
  Arg, text, time, double, Statement, numbered, arguments, Pool, batch_at,
}
use netdata_postgres_mcp.RemoteWrite.Parse.{PrLabel, PrSample, PrTimeSeries}

-- collectedAt is an `int64` of nanoseconds, its two's complement; the value a bit pattern.
pub record Row : Type 0 where
  pub collected_at : ℕ
  pub context : Bytes
  pub dimension : Bytes
  pub instance_name : Bytes
  pub value : ℕ

unfoldable pub metric_to_context : Bytes → Bytes
metric_to_context name =
    if has_prefix name (str "node_cpu")
    then str "system.cpu"
    else if has_prefix name (str "node_disk")
    then str "disk.io"
    else if has_prefix name (str "node_memory")
    then str "system.ram"
    else if has_prefix name (str "node_network")
    then str "system.ip"
    else str "prometheus." ++ name

-- math.IsNaN(v) || math.IsInf(v, 0): the eleven bits of the exponent are all ones.
unfoldable pub is_nan_or_inf : ℕ → Bool
is_nan_or_inf v = (v / 2 ^ 52 % 2 ^ 11) == 2047

-- The loop over the labels: `metricName` and `instance`.
unfoldable pub scan_labels : List PrLabel → Bytes → Bytes → Bytes × Bytes
scan_labels [] metric_name inst = (metric_name, inst)
scan_labels (l ∷ ls) metric_name inst =
    let named = scan_labels ls l.value inst in
    let instanced = scan_labels ls metric_name l.value in
    let rest = scan_labels ls metric_name inst in
    if eq_str l.name (str "__name__")
    then named
    else if eq_str l.name (str "instance")
    then instanced
    else rest

-- s.TimestampMs * int64(time.Millisecond)
abbrev pub nanoseconds : ℕ → ℕ
nanoseconds ms = (ms * 1000000) % 2 ^ 64

-- The loop over the samples of a series with a name.
unfoldable pub sample_rows : Bytes → Bytes → List PrSample → List Row
sample_rows metric_name inst [] = []
sample_rows metric_name inst (s ∷ ss) =
    let rest = sample_rows metric_name inst ss in
    if is_nan_or_inf s.value
    then rest
    else record {
      collected_at = nanoseconds s.timestamp_ms;
      context = metric_to_context metric_name;
      dimension = metric_name;
      instance_name = inst;
      value = s.value;
    }
      ∷ rest

-- What the loop appends to `rows` for a series.
unfoldable pub series_rows : PrTimeSeries → List Row
series_rows ts =
    let (metric_name, inst) = scan_labels ts.labels [] [] in
    if is_empty metric_name then [] else sample_rows metric_name inst ts.samples

unfoldable pub rows_of : List PrTimeSeries → List Row
rows_of [] = []
rows_of (ts ∷ rest) = series_rows ts ++ rows_of rest

abbrev pub batch_size : ℕ
batch_size = 500

unfoldable pub row_columns : List Bytes
row_columns =
    str "node_id"
    ∷ str "collected_at"
    ∷ str "context"
    ∷ str "dimension"
    ∷ str "instance"
    ∷ str "value"
    ∷ []

unfoldable pub row_args : Bytes → Row → List Arg
row_args node_id r =
    text node_id
    ∷ time r.collected_at
    ∷ text r.context
    ∷ text r.dimension
    ∷ text r.instance_name
    ∷ double r.value
    ∷ []

-- Six placeholders a row, `$(j * 6 + 1)` to `$(j * 6 + 6)`.
pub batch_statement : Bytes → List Row → Statement
batch_statement node_id batch = record {
  columns = row_columns;
  values = numbered 6 (row_args node_id) 0 batch;
  args = arguments 6 (row_args node_id) batch;
}

pub data Error : Type 0 where
  begin_failed commit_failed : Error
  batch_failed : ℕ → Error

-- `stuck` is no Go value: the loop ran out of fuel.
pub data LoopEnd (Tx : Type 0) : Type 0 where
  done : ℕ → Tx → LoopEnd Tx
  failed : ℕ → Error → LoopEnd Tx
  stuck : LoopEnd Tx

-- The database after the call, and Go's `(int, error)`.
pub record Ingested (Db : Type 0) : Type 0 where
  pub db : Db
  pub count : ℕ
  pub error : Option Error

module _ (pool : Pool) (node_id : Bytes) where
  open pool use {Db, Tx, begin, exec, commit}

  unfoldable pub ingest_loop : ℕ → List Row → ℕ → ℕ → Tx → LoopEnd Tx
  ingest_loop zero rows i count tx = if ltb i (length rows) then stuck else done count tx
  ingest_loop (suc fuel) rows i count tx = elim (ltb i (length rows)) [
    | false ↦ done count tx
    | true ↦ elim (exec tx (batch_statement node_id (batch_at batch_size rows i))) [
      | none ↦ failed count (batch_failed i)
      | some (tx', affected) ↦
          ingest_loop fuel rows (i + batch_size) (count + length (batch_at batch_size rows i)) tx'
    ]
  ]

  -- A transaction that does not commit is rolled back: the database is as it was.
  after_loop : Db → LoopEnd Tx → Option (Ingested Db)
  after_loop db stuck = none
  after_loop db (failed count e) = some (record { db = db; count = count; error = some e })
  after_loop db (done count tx) = elim (commit tx) [
    | none ↦ some (record { db = db; count = 0; error = some commit_failed })
    | some db' ↦ some (record { db = db'; count = count; error = none })
  ]

  ingest_rows : Db → List Row → Option (Ingested Db)
  unfolding ingest_loop after_loop
  ingest_rows db rows =
      if length rows == 0
      then some (record { db = db; count = 0; error = none })
      else elim (begin db) [
        | none ↦ some (record { db = db; count = 0; error = some begin_failed })
        | some tx ↦ after_loop db (ingest_loop (suc (length rows)) rows 0 0 tx)
      ]

  -- `none` for the loop that ran out of fuel.
  unfoldable pub ingest : Db → List PrTimeSeries → Option (Ingested Db)
  unfolding ingest_rows
  ingest db series = ingest_rows db (rows_of series)
