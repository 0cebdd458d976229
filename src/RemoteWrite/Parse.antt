-- ===== src/RemoteWrite/Parse.antt =====
-- internal/remotewrite/handler.go: the types of a decoded request, `skipField` and the four message
-- parsers. A `float64` is its bit pattern and an `int64` its two's complement, both numbers below
-- 2 ^ 64; lengths and offsets are Go `int`s, of 64 bits, so a length of 2 ^ 63 or more is negative.
pub mod Wire
pub mod Total
pub mod Fields
pub mod RoundTrip
pub mod Requests
pub mod Series
pub mod Panics
use netdata_postgres_mcp.Base.{
  ℕ, zero, suc, ◌+◌, ◌*◌, ◌%◌, ◌^◌, ◌≡◌, refl, Bool, true, false, ◌&&◌, List, [], ◌∷◌, ◌++◌, ltb,
  leb, ◌==◌, if◌then◌else◌, length, take, drop,
}
use netdata_postgres_mcp.Base.Text.{Bytes}
use netdata_postgres_mcp.RemoteWrite.Varint.{decode_varint, decode_tag}

-- `panics` is a slice expression out of range, a run-time panic in Go. `stuck` is no Go value: the
-- loop of a parser ran out of fuel.
pub data Error : Type 0 where
  invalid_tag invalid_length invalid_varint truncated unknown_wire_type : Error

pub data Outcome (A : Type 0) : Type 0 where
  ok : A → Outcome A
  err : Error → Outcome A
  panics stuck : Outcome A

infixl 5 ◌>>=◌
abbrev pub ◌>>=◌ : {A B : Type 0} → Outcome A → (A → Outcome B) → Outcome B
ok a >>= f = f a
err e >>= f = err e
panics >>= f = panics
stuck >>= f = stuck

pub record PrSample : Type 0 where
  pub timestamp_ms : ℕ
  pub value : ℕ

pub record PrLabel : Type 0 where
  pub name : Bytes
  pub value : Bytes

pub record PrTimeSeries : Type 0 where
  pub labels : List PrLabel
  pub samples : List PrSample

-- int(n) > len(data)
unfoldable pub exceeds : ℕ → Bytes → Bool
exceeds n bytes = ltb n (2 ^ 63) && ltb (length bytes) n

-- data[:n] and data[n:]. Behind the guard `int(n) > len(data)` a `data[:n]` beyond the length has n
-- at least 2 ^ 63, which is beyond the capacity too.
unfoldable pub slice_to : Bytes → ℕ → Outcome Bytes
slice_to bytes n = if leb n (length bytes) then ok (take n bytes) else panics

unfoldable pub slice_from : Bytes → ℕ → Outcome Bytes
slice_from bytes n = if leb n (length bytes) then ok (drop n bytes) else panics

-- The offset is an `int`: a negative one is a number of 2 ^ 63 or more.
unfoldable pub skip_field : ℕ → Bytes → Outcome ℕ
skip_field wire_type bytes =
    let (l, n) = decode_varint bytes in
    if wire_type == 0
    then (if n == 0 then err invalid_varint else ok n)
    else if wire_type == 1
    then (if ltb (length bytes) 8 then err truncated else ok 8)
    else if wire_type == 2
    then (if n == 0 then err invalid_length else ok ((n + l) % 2 ^ 64))
    else if wire_type == 5
    then (if ltb (length bytes) 4 then err truncated else ok 4)
    else err unknown_wire_type

-- `skip, err := skipField(wireType, data)` and `data = data[skip:]`, which ends each parser's loop.
unfoldable pub skip_over : ℕ → Bytes → Outcome Bytes
skip_over wire_type bytes = do n ← skip_field wire_type bytes; slice_from bytes n

-- The varint length in front of a field, the field's bytes and what follows them.
unfoldable pub delimited : Bytes → Outcome (Bytes × Bytes)
delimited bytes =
    let (len, n) = decode_varint bytes in
    if n == 0 then err invalid_length else do
      rest ← slice_from bytes n
      if exceeds len rest
          then err truncated
          else do payload ← slice_to rest len; after ← slice_from rest len; ok (payload, after)

-- decodeTag(data), its failure, and `data = data[n:]`.
unfoldable pub next_tag : Bytes → Outcome (ℕ × ℕ × Bytes)
next_tag bytes =
    let t = decode_tag bytes in
    if t.n == 0
    then err invalid_tag
    else do rest ← slice_from bytes t.n; ok (t.field_num, t.wire_type, rest)

-- for len(data) > 0 { … }: each round takes a byte at least, so `length data` rounds are enough.
unfoldable pub message_loop :
    {S : Type 0} → (Bytes → S → Outcome (Bytes × S)) → ℕ → Bytes → S → Outcome S
message_loop field fuel [] s = ok s
message_loop field zero (b ∷ bs) s = stuck
message_loop field (suc fuel) (b ∷ bs) s = do
  (rest, s') ← field (b ∷ bs) s
  message_loop field fuel rest s'

-- The body of each parser's loop.
set_label : ℕ → Bytes → PrLabel → PrLabel
set_label field_num payload l =
    if field_num == 1
    then record l { name = payload }
    else if field_num == 2
    then record l { value = payload }
    else l

unfoldable pub label_field : Bytes → PrLabel → Outcome (Bytes × PrLabel)
unfolding set_label
label_field bytes l = do
  (field_num, wire_type, rest) ← next_tag bytes
  if wire_type == 2
      then (do (payload, after) ← delimited rest; ok (after, set_label field_num payload l))
      else (do after ← skip_over wire_type rest; ok (after, l))

unfoldable pub parse_label : Bytes → Outcome PrLabel
parse_label bytes = message_loop label_field (length bytes) bytes (record { name = []; value = [] })

-- binary.LittleEndian.Uint64 of the first eight bytes.
unfoldable pub little_endian : Bytes → ℕ
little_endian [] = 0
little_endian (b ∷ rest) = b + 256 * little_endian rest

unfoldable pub uint64_le : Bytes → ℕ
uint64_le bytes = little_endian (take 8 bytes)

unfoldable pub sample_field : Bytes → PrSample → Outcome (Bytes × PrSample)
sample_field bytes s = do
  (field_num, wire_type, rest) ← next_tag bytes
  if field_num == 1 && wire_type == 1
      then (if ltb (length rest) 8
          then err truncated
          else (do after ← slice_from rest 8; ok (after, record s { value = uint64_le rest })))
      else if field_num == 2 && wire_type == 0
      then (let (v, n) = decode_varint rest in
          if n == 0
          then err invalid_varint
          else (do after ← slice_from rest n; ok (after, record s { timestamp_ms = v })))
      else (do after ← skip_over wire_type rest; ok (after, s))

unfoldable pub parse_sample : Bytes → Outcome PrSample
parse_sample bytes =
    message_loop sample_field (length bytes) bytes (record { timestamp_ms = 0; value = 0 })

-- The `switch fieldNum` of `parseTimeSeries`.
unfoldable pub series_payload : ℕ → Bytes → PrTimeSeries → Outcome PrTimeSeries
series_payload field_num payload ts =
    if field_num == 1
    then (do l ← parse_label payload; ok (record ts { labels = ts.labels ++ (l ∷ []) }))
    else if field_num == 2
    then (do s ← parse_sample payload; ok (record ts { samples = ts.samples ++ (s ∷ []) }))
    else ok ts

unfoldable pub series_field : Bytes → PrTimeSeries → Outcome (Bytes × PrTimeSeries)
series_field bytes ts = do
  (field_num, wire_type, rest) ← next_tag bytes
  if wire_type == 2
      then (do
        (payload, after) ← delimited rest
        ts' ← series_payload field_num payload ts
        ok (after, ts'))
      else (do after ← skip_over wire_type rest; ok (after, ts))

unfoldable pub parse_time_series : Bytes → Outcome PrTimeSeries
parse_time_series bytes =
    message_loop series_field (length bytes) bytes (record { labels = []; samples = [] })

unfoldable pub request_field : Bytes → List PrTimeSeries → Outcome (Bytes × List PrTimeSeries)
request_field bytes result = do
  (field_num, wire_type, rest) ← next_tag bytes
  if field_num == 1 && wire_type == 2
      then (do
        (payload, after) ← delimited rest
        ts ← parse_time_series payload
        ok (after, result ++ (ts ∷ [])))
      else (do after ← skip_over wire_type rest; ok (after, result))

unfoldable pub parse_write_request : Bytes → Outcome (List PrTimeSeries)
parse_write_request bytes = message_loop request_field (length bytes) bytes []
