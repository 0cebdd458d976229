-- ===== src/RemoteWrite/Parse/Requests.antt =====
-- Whole write requests: `parseWriteRequest` of internal/remotewrite/handler.go reads every
-- well-formed protobuf message, and gives back the time series that a Prometheus server encodes.
use mathlib.Core.List.{foldl, append_assoc}
use netdata_postgres_mcp.Base.{◌≡◌, false, List, [], ◌∷◌, ◌++◌, length, All, arith, ◌==◌, Bool}
use netdata_postgres_mcp.Base.Text.{Bytes}
use netdata_postgres_mcp.RemoteWrite.Parse.{ok, PrTimeSeries, request_field, parse_write_request}
use netdata_postgres_mcp.RemoteWrite.Parse.Wire.{
  WireField, varint, delimited, encode_field, encode_field-pos, encode_all, IsWire,
}
use netdata_postgres_mcp.RemoteWrite.Parse.Fields.{
  next_tag-encode_field, skip_over-payload, delimited-encode, loop-encode_all,
}
use netdata_postgres_mcp.RemoteWrite.Parse.RoundTrip.{
  SeriesField, IsSeriesField, series_of, encode_series_field, parse_time_series-encode,
}

-- A field of a request: a time series, or one of another number or type.
pub data RequestField : Type 0 where
  series : List SeriesField → RequestField
  unknown : WireField → RequestField

abbrev pub request_wire : RequestField → WireField
request_wire (series fs) = delimited 1 (encode_all encode_series_field fs)
request_wire (unknown f) = f

abbrev pub is_series : WireField → Bool
is_series (delimited num s) = num == 1
is_series _ = false

abbrev pub IsRequestField : RequestField → Type 0
IsRequestField (series fs) = IsWire (request_wire (series fs)) × All IsSeriesField fs
IsRequestField (unknown f) = IsWire f × (is_series f ≡ false)

abbrev pub request_of_field : List PrTimeSeries → RequestField → List PrTimeSeries
request_of_field result (series fs) = result ++ (series_of fs ∷ [])
request_of_field result (unknown f) = result

abbrev pub request_of : List RequestField → List PrTimeSeries
request_of = foldl request_of_field []

abbrev pub encode_request_field : RequestField → Bytes
encode_request_field f = encode_field (request_wire f)

request_field_unknown :
    (f : WireField) (rest : Bytes) (result : List PrTimeSeries)
    → IsWire f
    → is_series f ≡ false
    → request_field (encode_field f ++ rest) result ≡ ok (rest, result)
unfolding request_field
request_field_unknown (varint num v) rest result h k =
    rw (next_tag-encode_field (varint num v) rest h)
      (ground (arith, skip_over-payload (varint num v) rest h))
request_field_unknown f rest result h k =
    rw (next_tag-encode_field f rest h) (ground (arith, skip_over-payload f rest h))

request_field-encode :
    (f : RequestField) (rest : Bytes) (result : List PrTimeSeries)
    → IsRequestField f
    → request_field (encode_request_field f ++ rest) result ≡ ok (rest, request_of_field result f)
unfolding request_field
request_field-encode (series fs) rest result h =
    let bytes = encode_all encode_series_field fs in
    rw (next_tag-encode_field (delimited 1 bytes) rest h.0)
      (rw (append_assoc, delimited-encode bytes rest h.0.1, parse_time_series-encode fs h.1))
request_field-encode (unknown f) rest result h = request_field_unknown f rest result h.0 h.1

-- The parser reads every message that is made of fields of the wire types 0, 1, 2 and 5, with varints
-- written in as few bytes as possible: the fields may be in any order and fields of other numbers may
-- be anywhere among them. Its result is the message's meaning: the time series in order, each with
-- its labels and samples in order, and fields of other numbers ignored.
pub parse_write_request-encode :
    (fs : List RequestField)
    → All IsRequestField fs
    → parse_write_request (encode_all encode_request_field fs) ≡ ok (request_of fs)
unfolding parse_write_request
parse_write_request-encode fs h =
    loop-encode_all request_field encode_request_field request_of_field IsRequestField
      (λ f. encode_field-pos (request_wire f)) request_field-encode fs
      (length (encode_all encode_request_field fs)) [] h (omega arith)
