-- ===== src/RemoteWrite/Parse/RoundTrip.antt =====
-- The parsers of internal/remotewrite/handler.go against the meaning of a protobuf message: its
-- fields in order, a repeated scalar overwritten, a repeated message appended, the rest ignored.
use mathlib.Core.List.{foldl, append_assoc}
use netdata_postgres_mcp.Base.{
  ℕ, zero, suc, ◌≡◌, refl, false, List, [], ◌∷◌, ◌++◌, length, length-append, All, take, arith,
  ◌==◌, if◌then◌else◌, ◌||◌, Bool,
}
use netdata_postgres_mcp.Base.Text.{Bytes}
use netdata_postgres_mcp.RemoteWrite.Varint.RoundTrip.{
  encode_varint, encode_varint-pos, decode-encode_varint,
}
use netdata_postgres_mcp.RemoteWrite.Parse.{
  ok, PrLabel, PrSample, PrTimeSeries, uint64_le, label_field, parse_label, sample_field,
  parse_sample, series_payload, series_field, parse_time_series,
}
use netdata_postgres_mcp.RemoteWrite.Parse.Wire.{
  WireField, varint, fixed64, delimited, fixed32, encode_field, encode_field-pos, encode_all,
  IsWire,
}
use netdata_postgres_mcp.RemoteWrite.Parse.Fields.{
  next_tag-encode_field, skip_over-payload, delimited-encode, slice_from-append, loop-encode_all,
}

abbrev pub Message : Type 0
Message = List WireField

abbrev pub encode_message : Message → Bytes
encode_message = encode_all encode_field

-- The meaning of one field of a label.
abbrev pub label_of_field : PrLabel → WireField → PrLabel
label_of_field l (delimited num s) =
    if num == 1 then record l { name = s } else if num == 2 then record l { value = s } else l
label_of_field l _ = l

abbrev pub label_of : Message → PrLabel
label_of = foldl label_of_field (record { name = []; value = [] })

label_field-encode :
    (f : WireField) (rest : Bytes) (l : PrLabel)
    → IsWire f
    → label_field (encode_field f ++ rest) l ≡ ok (rest, label_of_field l f)
unfolding label_field
label_field-encode (delimited num s) rest l h =
    rw (next_tag-encode_field (delimited num s) rest h)
      (rw (append_assoc, delimited-encode s rest h.1))
label_field-encode (varint num v) rest l h =
    rw (next_tag-encode_field (varint num v) rest h, skip_over-payload (varint num v) rest h)
label_field-encode (fixed64 num s) rest l h =
    rw (next_tag-encode_field (fixed64 num s) rest h, skip_over-payload (fixed64 num s) rest h)
label_field-encode (fixed32 num s) rest l h =
    rw (next_tag-encode_field (fixed32 num s) rest h, skip_over-payload (fixed32 num s) rest h)

pub parse_label-encode :
    (m : Message) → All IsWire m → parse_label (encode_message m) ≡ ok (label_of m)
unfolding parse_label
parse_label-encode m h =
    loop-encode_all label_field encode_field label_of_field IsWire encode_field-pos
      label_field-encode m (length (encode_message m)) _ h (omega arith)

-- The meaning of one field of a sample.
abbrev pub sample_of_field : PrSample → WireField → PrSample
sample_of_field s (fixed64 num bits) = if num == 1 then record s { value = uint64_le bits } else s
sample_of_field s (varint num v) = if num == 2 then record s { timestamp_ms = v } else s
sample_of_field s _ = s

abbrev pub sample_of : Message → PrSample
sample_of = foldl sample_of_field (record { timestamp_ms = 0; value = 0 })

take-append_eq : (n : ℕ) (xs ys : Bytes) → length xs ≡ n → take n (xs ++ ys) ≡ take n xs
take-append_eq zero xs ys h = refl
take-append_eq (suc n) [] ys h = absurd (omega arith)
take-append_eq (suc n) (x ∷ xs) ys h = rw (take-append_eq n xs ys (omega arith))

uint64_le-append : (bits rest : Bytes) → length bits ≡ 8 → uint64_le (bits ++ rest) ≡ uint64_le bits
unfolding uint64_le
uint64_le-append bits rest h = rw (take-append_eq 8 bits rest h)

sample_field-encode :
    (f : WireField) (rest : Bytes) (s : PrSample)
    → IsWire f
    → sample_field (encode_field f ++ rest) s ≡ ok (rest, sample_of_field s f)
unfolding sample_field
sample_field-encode (varint num v) rest s h = rw (next_tag-encode_field (varint num v) rest h) (
    ground (
      arith,
      decode-encode_varint v rest h.1,
      encode_varint-pos v,
      slice_from-append (encode_varint v) rest (length (encode_varint v)) refl,
      skip_over-payload (varint num v) rest h,
    ))
sample_field-encode (fixed64 num bits) rest s h =
    rw (next_tag-encode_field (fixed64 num bits) rest h) (
      ground (
        arith,
        length-append bits rest,
        slice_from-append bits rest 8 h.1,
        uint64_le-append bits rest h.1,
        skip_over-payload (fixed64 num bits) rest h,
      ))
sample_field-encode (delimited num bytes) rest s h =
    rw (next_tag-encode_field (delimited num bytes) rest h)
      (ground (arith, skip_over-payload (delimited num bytes) rest h))
sample_field-encode (fixed32 num bytes) rest s h =
    rw (next_tag-encode_field (fixed32 num bytes) rest h)
      (ground (arith, skip_over-payload (fixed32 num bytes) rest h))

pub parse_sample-encode :
    (m : Message) → All IsWire m → parse_sample (encode_message m) ≡ ok (sample_of m)
unfolding parse_sample
parse_sample-encode m h =
    loop-encode_all sample_field encode_field sample_of_field IsWire encode_field-pos
      sample_field-encode m (length (encode_message m)) _ h (omega arith)

-- A field of a time series: a label, a sample, or one of another number or type.
pub data SeriesField : Type 0 where
  label : Message → SeriesField
  sample : Message → SeriesField
  other : WireField → SeriesField

abbrev pub series_wire : SeriesField → WireField
series_wire (label m) = delimited 1 (encode_message m)
series_wire (sample m) = delimited 2 (encode_message m)
series_wire (other f) = f

abbrev pub is_series_payload : WireField → Bool
is_series_payload (delimited num s) = num == 1 || num == 2
is_series_payload _ = false

abbrev pub IsSeriesField : SeriesField → Type 0
IsSeriesField (label m) = IsWire (series_wire (label m)) × All IsWire m
IsSeriesField (sample m) = IsWire (series_wire (sample m)) × All IsWire m
IsSeriesField (other f) = IsWire f × (is_series_payload f ≡ false)

abbrev pub series_of_field : PrTimeSeries → SeriesField → PrTimeSeries
series_of_field ts (label m) = record ts { labels = ts.labels ++ (label_of m ∷ []) }
series_of_field ts (sample m) = record ts { samples = ts.samples ++ (sample_of m ∷ []) }
series_of_field ts (other f) = ts

abbrev pub series_of : List SeriesField → PrTimeSeries
series_of = foldl series_of_field (record { labels = []; samples = [] })

abbrev pub encode_series_field : SeriesField → Bytes
encode_series_field f = encode_field (series_wire f)

series_payload_other :
    (num : ℕ) (s : Bytes) (ts : PrTimeSeries)
    → is_series_payload (delimited num s) ≡ false
    → series_payload num s ts ≡ ok ts
unfolding series_payload
series_payload_other num s ts h = ground arith

series_payload_label :
    (m : Message) (ts : PrTimeSeries)
    → All IsWire m
    → series_payload 1 (encode_message m) ts ≡ ok (series_of_field ts (label m))
unfolding series_payload
series_payload_label m ts h = rw (parse_label-encode m h)

series_payload_sample :
    (m : Message) (ts : PrTimeSeries)
    → All IsWire m
    → series_payload 2 (encode_message m) ts ≡ ok (series_of_field ts (sample m))
unfolding series_payload
series_payload_sample m ts h = rw (parse_sample-encode m h)

series_field-encode :
    (f : SeriesField) (rest : Bytes) (ts : PrTimeSeries)
    → IsSeriesField f
    → series_field (encode_series_field f ++ rest) ts ≡ ok (rest, series_of_field ts f)
unfolding series_field
series_field-encode (label m) rest ts h =
    let bytes = encode_message m in
    rw (next_tag-encode_field (delimited 1 bytes) rest h.0)
      (rw (append_assoc, delimited-encode bytes rest h.0.1, series_payload_label m ts h.1))
series_field-encode (sample m) rest ts h =
    let bytes = encode_message m in
    rw (next_tag-encode_field (delimited 2 bytes) rest h.0)
      (rw (append_assoc, delimited-encode bytes rest h.0.1, series_payload_sample m ts h.1))
series_field-encode (other (delimited num s)) rest ts h =
    rw (next_tag-encode_field (delimited num s) rest h.0)
      (rw (append_assoc, delimited-encode s rest h.0.1, series_payload_other num s ts h.1))
series_field-encode (other (varint num v)) rest ts h =
    rw (next_tag-encode_field (varint num v) rest h.0, skip_over-payload (varint num v) rest h.0)
series_field-encode (other (fixed64 num s)) rest ts h =
    rw (next_tag-encode_field (fixed64 num s) rest h.0, skip_over-payload (fixed64 num s) rest h.0)
series_field-encode (other (fixed32 num s)) rest ts h =
    rw (next_tag-encode_field (fixed32 num s) rest h.0, skip_over-payload (fixed32 num s) rest h.0)

pub parse_time_series-encode :
    (fs : List SeriesField)
    → All IsSeriesField fs
    → parse_time_series (encode_all encode_series_field fs) ≡ ok (series_of fs)
unfolding parse_time_series
parse_time_series-encode fs h =
    loop-encode_all series_field encode_series_field series_of_field IsSeriesField
      (λ f. encode_field-pos (series_wire f)) series_field-encode fs
      (length (encode_all encode_series_field fs)) _ h (omega arith)
