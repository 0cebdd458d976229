-- ===== src/RemoteWrite/Handler/Responses.antt =====
-- What `ServeHTTP` of internal/remotewrite/handler.go answers, stores and counts.
use mathlib.Core.List.{flat_map}
use netdata_postgres_mcp.Base.{
  ◌+◌, ◌≡◌, ◌≢◌, refl, ◌⊎◌, inl, inr, ap, List, map, length, Option, none, some, All, Option-cases,
  Bool-cases,
}
use netdata_postgres_mcp.Base.Text.{Bytes, str, eq_str}
use netdata_postgres_mcp.Metrics.{Metrics}
use netdata_postgres_mcp.Postgres.{insert_all, Pool}
use netdata_postgres_mcp.RemoteWrite.Parse.{
  Outcome, ok, err, panics, stuck, PrTimeSeries, parse_write_request,
}
use netdata_postgres_mcp.RemoteWrite.Parse.Total.{parse_write_request-ne-stuck}
use netdata_postgres_mcp.RemoteWrite.Parse.Series.{
  encode_write_request, IsSeries, parse-encode_write_request,
}
use netdata_postgres_mcp.RemoteWrite.Ingest.{Row, row_args, Ingested, rows_of}
use netdata_postgres_mcp.RemoteWrite.Ingest.Rows.{described, rows_of-described}
use netdata_postgres_mcp.RemoteWrite.Ingest.Laws.{AllOrNothing, ingest-AllOrNothing}
use netdata_postgres_mcp.RemoteWrite.Handler.{
  Request, status, Served, report, store_parsed, decode_body, serve_http,
}

module _ (pool : Pool) (node_id : Bytes) (snappy_decode : Bytes → Option Bytes) where
  open pool use {Db, stored, conflict}

  -- 204 with the rows stored and counted, or 500 with an error counted and nothing stored.
  unfoldable pub StoredOrFailed : Db → Metrics → List Row → Option (Served Db) → Type 0
  StoredOrFailed db m rows none = ⊥
  StoredOrFailed db m rows (some s) =
      ((s.response ≡ status 204)
        × (stored s.db ≡ insert_all conflict (stored db) (map (row_args node_id) rows))
        × (s.metrics ≡ record m { remote_write_samples = m.remote_write_samples + length rows }))
      ⊎ ((s.response ≡ status 500)
          × (s.db ≡ db)
          × (s.metrics ≡ record m { remote_write_errors = m.remote_write_errors + 1 }))

  report-StoredOrFailed :
      (db : Db) (m : Metrics) (rows : List Row) (r : Option (Ingested Db))
      → AllOrNothing pool node_id db rows r
      → StoredOrFailed db m rows (report pool node_id snappy_decode m r)
  unfolding report StoredOrFailed AllOrNothing
  report-StoredOrFailed db m rows none h = h
  report-StoredOrFailed db m rows (some r) h = elim (Option-cases r.error) [
    | inl e ↦
        let h' : (stored r.db ≡ insert_all conflict (stored db) (map (row_args node_id) rows))
            × (r.count ≡ length rows) =
          rw (AllOrNothing, e) at h in
        rw (report, e) (inl (refl, h'.0, rw h'.1 refl))
    | inr (x, e) ↦
        let h' : r.db ≡ db = rw (AllOrNothing, e) at h in rw (report, e) (inr (refl, h', refl))
  ]

  store_parsed-StoredOrFailed :
      (db : Db) (m : Metrics) (series : List PrTimeSeries)
      → StoredOrFailed db m
          (rows_of series)
          (store_parsed pool node_id snappy_decode db m (ok series))
  unfolding store_parsed
  store_parsed-StoredOrFailed db m series =
      report-StoredOrFailed db m (rows_of series) _ (ingest-AllOrNothing pool node_id db series)

  -- A POST whose body decodes to the encoding of time series that fit their fields is answered: with
  -- 204, and then the table holds what it held with the rows of the series added and the
  -- counter of samples grows by their number, or with 500, and then the table is as it was and the
  -- counter of errors grows by one.
  pub serve_http-encode_write_request :
      (db : Db) (m : Metrics) (body : Bytes) (series : List PrTimeSeries)
      → snappy_decode body ≡ some (encode_write_request series)
      → All IsSeries series
      → StoredOrFailed db m (flat_map described series) (
          serve_http pool node_id snappy_decode db m
            (record { method = str "POST"; body = some body }))
  unfolding serve_http decode_body store_parsed str eq_str
  serve_http-encode_write_request db m body series e h =
      rw
        (
          serve_http,
          decode_body,
          e,
          parse-encode_write_request series h,
          ← rows_of-described series,
        )
        (store_parsed-StoredOrFailed db m series)

  -- What a request may do to the database and to the counters.
  unfoldable pub Kept : Db → Metrics → Option (Served Db) → Type 0
  Kept db m none = ⊥
  Kept db m (some s) =
      (s.response ≡ status 204)
      ⊎ ((s.db ≡ db) × (s.metrics.remote_write_samples ≡ m.remote_write_samples))

  StoredOrFailed-Kept :
      (db : Db) (m : Metrics) (rows : List Row) (r : Option (Served Db))
      → StoredOrFailed db m rows r
      → Kept db m r
  unfolding StoredOrFailed Kept
  StoredOrFailed-Kept db m rows none h = h
  StoredOrFailed-Kept db m rows (some s) (inl h) = inl h.0
  StoredOrFailed-Kept db m rows (some s) (inr h) =
      inr (h.1, ap (λ (n : Metrics). n.remote_write_samples) h.2)

  store_parsed-Kept :
      (db : Db) (m : Metrics) (bytes : Bytes) (o : Outcome (List PrTimeSeries))
      → o ≢ stuck
      → Kept db m (store_parsed pool node_id snappy_decode db m o)
  unfolding store_parsed Kept
  store_parsed-Kept db m bytes (ok series) h =
      StoredOrFailed-Kept db m (rows_of series) _ (store_parsed-StoredOrFailed db m series)
  store_parsed-Kept db m bytes (err x) h = inr (refl, refl)
  store_parsed-Kept db m bytes panics h = inr (refl, refl)
  store_parsed-Kept db m bytes stuck h = absurd (h refl)

  decode_body-Kept :
      (db : Db) (m : Metrics) (body : Option Bytes)
      → Kept db m (decode_body pool node_id snappy_decode db m body)
  unfolding decode_body Kept
  decode_body-Kept db m none = inr (refl, refl)
  decode_body-Kept db m (some body) = elim (Option-cases (snappy_decode body)) [
    | inl e ↦ rw (decode_body, e) (inr (refl, refl))
    | inr (bytes, e) ↦
        rw (decode_body, e)
          (store_parsed-Kept db m bytes (parse_write_request bytes)
            (parse_write_request-ne-stuck bytes))
  ]

  -- Every request is served to its end. Unless the answer is 204, the database and the counter of
  -- samples are as they were.
  pub serve_http-Kept :
      (db : Db) (m : Metrics) (r : Request)
      → Kept db m (serve_http pool node_id snappy_decode db m r)
  unfolding serve_http Kept
  serve_http-Kept db m r = elim (Bool-cases (eq_str r.method (str "POST"))) [
    | inl e ↦ rw e (decode_body-Kept db m r.body)
    | inr e ↦ rw e (inr (refl, refl))
  ]
