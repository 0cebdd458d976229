-- ===== src/RemoteWrite/Parse/Series.antt =====
-- The encoding that a Prometheus server sends, and that `parseWriteRequest` of
-- internal/remotewrite/handler.go gives it back: for each time series its labels, then its samples.
use mathlib.Core.List.{foldl, foldl-append, append-nil, append_assoc}
use native.Mathlib.Nat.{pow-suc}
use netdata_postgres_mcp.Base.{
  ℕ, zero, suc, ◌%◌, ◌/◌, ◌^◌, ◌<◌, ◌≡◌, refl, ◌∙◌, ap, List, [], ◌∷◌, ◌++◌, map, length, All,
  All-append, take, arith,
}
use netdata_postgres_mcp.Base.Text.{Bytes}
use netdata_postgres_mcp.RemoteWrite.Parse.{
  ok, PrLabel, PrSample, PrTimeSeries, uint64_le, little_endian, parse_write_request,
}
use netdata_postgres_mcp.RemoteWrite.Parse.Wire.{varint, fixed64, delimited, encode_all}
use netdata_postgres_mcp.RemoteWrite.Parse.RoundTrip.{
  Message, encode_message, sample_of, SeriesField, label, sample, IsSeriesField, series_of_field,
  series_of, encode_series_field,
}
use netdata_postgres_mcp.RemoteWrite.Parse.Requests.{
  RequestField, series, IsRequestField, request_of_field, encode_request_field,
  parse_write_request-encode,
}

unfoldable pub le_bytes : ℕ → ℕ → Bytes
le_bytes zero v = []
le_bytes (suc n) v = (v % 256) ∷ le_bytes n (v / 256)

length-le_bytes : (n v : ℕ) → length (le_bytes n v) ≡ n
unfolding le_bytes
length-le_bytes zero v = refl
length-le_bytes (suc n) v = ap suc (length-le_bytes n (v / 256))

little_endian-le_bytes : (n v : ℕ) → v < 256 ^ n → little_endian (le_bytes n v) ≡ v
unfolding le_bytes little_endian
little_endian-le_bytes zero v h = omega arith
little_endian-le_bytes (suc n) v h =
    omega (arith, little_endian-le_bytes n (v / 256) (omega (arith, pow-suc 256 n)))

take_self : (n : ℕ) (xs : Bytes) → length xs ≡ n → take n xs ≡ xs
take_self zero [] h = refl
take_self zero (x ∷ xs) h = absurd (omega arith)
take_self (suc n) [] h = absurd (omega arith)
take_self (suc n) (x ∷ xs) h = rw (take_self n xs (omega arith))

uint64_le-le_bytes : (v : ℕ) → v < 2 ^ 64 → uint64_le (le_bytes 8 v) ≡ v
unfolding uint64_le
uint64_le-le_bytes v h =
    rw (take_self 8 (le_bytes 8 v) (length-le_bytes 8 v)) (little_endian-le_bytes 8 v (omega arith))

abbrev pub message_of_label : PrLabel → Message
message_of_label l = delimited 1 l.name ∷ delimited 2 l.value ∷ []

abbrev pub message_of_sample : PrSample → Message
message_of_sample s = fixed64 1 (le_bytes 8 s.value) ∷ varint 2 s.timestamp_ms ∷ []

abbrev pub fields_of_series : PrTimeSeries → List SeriesField
fields_of_series ts =
    map (λ l. label (message_of_label l)) ts.labels
    ++ map (λ s. sample (message_of_sample s)) ts.samples

abbrev pub series_field_of : PrTimeSeries → RequestField
series_field_of ts = series (fields_of_series ts)

abbrev pub encode_write_request : List PrTimeSeries → Bytes
encode_write_request result = encode_all encode_request_field (map series_field_of result)

abbrev pub IsLabel : PrLabel → Type 0
IsLabel l =
    (length l.name < 2 ^ 63)
    × (length l.value < 2 ^ 63)
    × (length (encode_message (message_of_label l)) < 2 ^ 63)

abbrev pub IsSample : PrSample → Type 0
IsSample s =
    (s.value < 2 ^ 64)
    × (s.timestamp_ms < 2 ^ 64)
    × (length (encode_message (message_of_sample s)) < 2 ^ 63)

-- The values fit 64 bits and no message is of 2 ^ 63 bytes or more.
abbrev pub IsSeries : PrTimeSeries → Type 0
IsSeries ts =
    All IsLabel ts.labels
    × All IsSample ts.samples
    × (length (encode_all encode_series_field (fields_of_series ts)) < 2 ^ 63)

series_of-labels :
    (ls : List PrLabel) (ts : PrTimeSeries)
    → foldl series_of_field ts (map (λ l. label (message_of_label l)) ls)
      ≡ record ts { labels = ts.labels ++ ls }
series_of-labels [] ts = simp append-nil
series_of-labels (l ∷ ls) ts =
    series_of-labels ls (record ts { labels = ts.labels ++ (l ∷ []) })
    ∙ rw (append_assoc ts.labels (l ∷ []) ls)

sample_of-message : (s : PrSample) → IsSample s → sample_of (message_of_sample s) ≡ s
sample_of-message s h =
    ap (λ (v : ℕ). record { timestamp_ms = s.timestamp_ms; value = v })
      (uint64_le-le_bytes s.value h.0)

series_of-samples :
    (ss : List PrSample) (ts : PrTimeSeries)
    → All IsSample ss
    → foldl series_of_field ts (map (λ s. sample (message_of_sample s)) ss)
      ≡ record ts { samples = ts.samples ++ ss }
series_of-samples [] ts h = simp append-nil
series_of-samples (s ∷ ss) ts h =
    ap
      (λ (x : PrSample).
        foldl series_of_field (record ts { samples = ts.samples ++ (x ∷ []) })
          (map (λ s'. sample (message_of_sample s')) ss))
      (sample_of-message s h.0)
    ∙ series_of-samples ss (record ts { samples = ts.samples ++ (s ∷ []) }) h.1
    ∙ rw (append_assoc ts.samples (s ∷ []) ss)

series_of-fields :
    (ts : PrTimeSeries) → All IsSample ts.samples → series_of (fields_of_series ts) ≡ ts
series_of-fields ts h =
    foldl-append series_of_field (record { labels = []; samples = [] })
      (map (λ l. label (message_of_label l)) ts.labels) _
    ∙ rw (series_of-labels ts.labels (record { labels = []; samples = [] }))
        (series_of-samples ts.samples (record { labels = ts.labels; samples = [] }) h)

All-labels :
    (ls : List PrLabel)
    → All IsLabel ls
    → All IsSeriesField (map (λ l. label (message_of_label l)) ls)
All-labels [] h = tt
All-labels (l ∷ ls) h =
    (((omega arith, h.0.2), ((omega arith, h.0.0), ((omega arith, h.0.1), tt))), All-labels ls h.1)

All-samples :
    (ss : List PrSample)
    → All IsSample ss
    → All IsSeriesField (map (λ s. sample (message_of_sample s)) ss)
All-samples [] h = tt
All-samples (s ∷ ss) h = (
  ((omega arith, h.0.2), ((omega arith, length-le_bytes 8 s.value), ((omega arith, h.0.1), tt))),
  All-samples ss h.1,
)

All-series :
    (result : List PrTimeSeries)
    → All IsSeries result
    → All IsRequestField (map series_field_of result)
All-series [] h = tt
All-series (ts ∷ result) h = (
  (
    (omega arith, h.0.2),
    All-append IsSeriesField (map (λ l. label (message_of_label l)) ts.labels) _
        (All-labels ts.labels h.0.0) (All-samples ts.samples h.0.1),
  ),
  All-series result h.1,
)

request_of-series :
    (result before : List PrTimeSeries)
    → All IsSeries result
    → foldl request_of_field before (map series_field_of result) ≡ before ++ result
request_of-series [] before h = simp append-nil
request_of-series (ts ∷ result) before h =
    ap
      (λ (x : PrTimeSeries).
        foldl request_of_field (before ++ (x ∷ [])) (map series_field_of result))
      (series_of-fields ts h.0.1)
    ∙ request_of-series result (before ++ (ts ∷ [])) h.1
    ∙ append_assoc before (ts ∷ []) result

-- Parsing the encoding of any list of time series, with 64-bit sample values and timestamps and no
-- message of 2 ^ 63 bytes or more, gives back that list: all labels, samples and series, in order.
pub parse-encode_write_request :
    (result : List PrTimeSeries)
    → All IsSeries result
    → parse_write_request (encode_write_request result) ≡ ok result
parse-encode_write_request result h =
    parse_write_request-encode (map series_field_of result) (All-series result h)
    ∙ ap ok (request_of-series result [] h)
