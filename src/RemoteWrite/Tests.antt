-- ===== src/RemoteWrite/Tests.antt =====
-- internal/remotewrite/handler.go on a request with one series of two samples, the second not a number.
use mathlib.Core.List.{flat_map}
use netdata_postgres_mcp.Base.{
  ℕ, ◌<◌, ◌≡◌, ◌≢◌, refl, List, [], ◌∷◌, ◌++◌, some, true, ltb, ltb→lt, length, All, arith,
}
use netdata_postgres_mcp.Base.Text.{str, eq_str, is_empty}
use netdata_postgres_mcp.Metrics.{global}
use netdata_postgres_mcp.Postgres.Memory.{memory}
use netdata_postgres_mcp.RemoteWrite.Varint.RoundTrip.{groups, encode_varint}
use netdata_postgres_mcp.RemoteWrite.Parse.{
  PrTimeSeries, ok, err, panics, truncated, stuck, parse_write_request,
}
use netdata_postgres_mcp.RemoteWrite.Parse.Wire.{encode_tag, encode_field, varint, encode_all}
use netdata_postgres_mcp.RemoteWrite.Parse.Total.{parse_write_request-ne-stuck}
use netdata_postgres_mcp.RemoteWrite.Parse.Requests.{
  RequestField, series, unknown, IsRequestField, encode_request_field, request_of,
  parse_write_request-encode,
}
use netdata_postgres_mcp.RemoteWrite.Parse.Series.{
  le_bytes, encode_write_request, IsSeries, parse-encode_write_request,
}
use netdata_postgres_mcp.RemoteWrite.Parse.Panics.{truncated_request, huge_length_panics}
use netdata_postgres_mcp.RemoteWrite.Ingest.{
  rows_of, series_rows, scan_labels, sample_rows, is_nan_or_inf,
}
use netdata_postgres_mcp.RemoteWrite.Ingest.Rows.{described}
use netdata_postgres_mcp.RemoteWrite.Handler.{serve_http}
use netdata_postgres_mcp.RemoteWrite.Handler.Responses.{
  StoredOrFailed, serve_http-encode_write_request,
}

abbrev load : PrTimeSeries
load = record {
  labels =
      record { name = str "__name__"; value = str "node_cpu_load" }
      ∷ record { name = str "instance"; value = str "h1" }
      ∷ [];
  samples =
      record { timestamp_ms = 1700000000000; value = 4607182418800017408 }
      ∷ record { timestamp_ms = 1700000001000; value = 9221120237041090560 }
      ∷ [];
}

-- A bound on concrete bytes, by computation.
below : (n m : ℕ) → ltb n m ≡ true → n < m
below = ltb→lt

load-IsSeries : All IsSeries (load ∷ [])
unfolding encode_field encode_varint encode_all str le_bytes groups
load-IsSeries = (
  (
    (
      (below _ _ refl, below _ _ refl, below _ _ refl),
      ((below _ _ refl, below _ _ refl, below _ _ refl), tt),
    ),
    (
      (below _ _ refl, below _ _ refl, below _ _ refl),
      ((below _ _ refl, below _ _ refl, below _ _ refl), tt),
    ),
    below _ _ refl,
  ),
  tt,
)

parse_write_request-ne-stuck_example : parse_write_request (10 ∷ 200 ∷ []) ≢ stuck
parse_write_request-ne-stuck_example = parse_write_request-ne-stuck (10 ∷ 200 ∷ [])

parse-encode_write_request_example :
    parse_write_request (encode_write_request (load ∷ [])) ≡ ok (load ∷ [])
parse-encode_write_request_example = parse-encode_write_request (load ∷ []) load-IsSeries

-- A field that the parser does not know, and a series without fields.
abbrev fields : List RequestField
fields = unknown (varint 3 300) ∷ series [] ∷ []

fields-IsRequestField : All IsRequestField fields
unfolding encode_all
fields-IsRequestField = (((omega arith, omega arith), refl), (((omega arith, omega arith), tt), tt))

parse_write_request-encode_example :
    parse_write_request (encode_all encode_request_field fields) ≡ ok (request_of fields)
parse_write_request-encode_example = parse_write_request-encode fields fields-IsRequestField

truncated_request_example :
    (parse_write_request (encode_tag 1 2 ++ (encode_varint 5 ++ (1 ∷ []))) ≡ err truncated)
    × (parse_write_request (encode_tag 2 2 ++ (encode_varint 5 ++ (1 ∷ []))) ≡ panics)
truncated_request_example =
    truncated_request 2 5 (1 ∷ []) (omega arith) (omega arith) (omega arith) (λ e. omega (arith, e))

huge_length_panics_example :
    parse_write_request (encode_tag 1 2 ++ (encode_varint 9223372036854775808 ++ (1 ∷ []))) ≡ panics
huge_length_panics_example =
    huge_length_panics 9223372036854775808 (1 ∷ []) (omega arith) (omega arith) (omega arith)

-- The sample that is not a number has no row.
load_rows : length (rows_of (load ∷ [])) ≡ 1
unfolding rows_of series_rows scan_labels sample_rows is_nan_or_inf str eq_str is_empty
load_rows = refl

-- For snappy, the encoding that compresses nothing.
serve_http-encode_write_request_example :
    StoredOrFailed memory (str "remote-write") some [] global (flat_map described (load ∷ [])) (
      serve_http memory
        (str "remote-write")
        some
        []
        global
        (record { method = str "POST"; body = some (encode_write_request (load ∷ [])) }))
serve_http-encode_write_request_example =
    serve_http-encode_write_request memory (str "remote-write") some [] global
      (encode_write_request (load ∷ [])) (load ∷ []) refl load-IsSeries
