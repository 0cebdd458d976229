-- ===== src/RemoteWrite/Handler.antt =====
-- internal/remotewrite/handler.go: `ServeHTTP`. Snappy is not part of the repository; `none` is an
-- error of `snappy.Decode`.
pub mod Responses
use netdata_postgres_mcp.Base.{ℕ, ◌+◌, not, List, Option, none, some, if◌then◌else◌}
use netdata_postgres_mcp.Base.Text.{Bytes, str, eq_str}
use netdata_postgres_mcp.Metrics.{Metrics}
use netdata_postgres_mcp.Postgres.{Pool}
use netdata_postgres_mcp.RemoteWrite.Parse.{
  Outcome, ok, err, panics, stuck, PrTimeSeries, parse_write_request,
}
use netdata_postgres_mcp.RemoteWrite.Ingest.{Ingested, ingest}

-- The parts of the `http.Request` that the handler reads; the body is what `io.ReadAll` returns for
-- the first 10 MiB of it, `none` for a read error.
pub record Request : Type 0 where
  pub method : Bytes
  pub body : Option Bytes

-- `crashed` is a panic of the handler, which net/http recovers by closing the connection.
pub data Response : Type 0 where
  status : ℕ → Response
  crashed : Response

pub record Served (Db : Type 0) : Type 0 where
  pub response : Response
  pub db : Db
  pub metrics : Metrics

module _ (pool : Pool) (node_id : Bytes) (snappy_decode : Bytes → Option Bytes) where
  open pool use {Db}

  abbrev answered : ℕ → Db → Metrics → Option (Served Db)
  answered code db m = some (record { response = status code; db = db; metrics = m })

  -- What follows the call of `ingest`.
  report : Metrics → Option (Ingested Db) → Option (Served Db)
  report m none = none
  report m (some r) = elim r.error [
    | some e ↦ answered 500 r.db (record m { remote_write_errors = m.remote_write_errors + 1 })
    | none ↦
        answered 204 r.db (record m { remote_write_samples = m.remote_write_samples + r.count })
  ]

  -- What follows the call of `parseWriteRequest`.
  store_parsed : Db → Metrics → Outcome (List PrTimeSeries) → Option (Served Db)
  unfolding report
  store_parsed db m (ok series) = report m (ingest pool node_id db series)
  store_parsed db m (err e) = answered 400 db m
  store_parsed db m panics = some (record { response = crashed; db = db; metrics = m })
  store_parsed db m stuck = none

  decode_body : Db → Metrics → Option Bytes → Option (Served Db)
  unfolding store_parsed
  decode_body db m none = answered 400 db m
  decode_body db m (some body) = elim (snappy_decode body) [
    | none ↦ answered 400 db m
    | some decoded ↦ store_parsed db m (parse_write_request decoded)
  ]

  -- `none` for a loop that ran out of fuel.
  unfoldable pub serve_http : Db → Metrics → Request → Option (Served Db)
  unfolding decode_body
  serve_http db m r =
      if not (eq_str r.method (str "POST")) then answered 405 db m else decode_body db m r.body
