-- ===== src/RemoteWrite/Parse/Total.antt =====
-- The parsers of internal/remotewrite/handler.go end on every input: each round of a loop takes at
-- least one byte, so the fuel of the model is enough.
use netdata_postgres_mcp.Base.{
  ℕ, zero, suc, ◌+◌, ◌≤◌, ◌<◌, ◌≡◌, ◌≢◌, ltb, Bool, true, false, List, [], ◌∷◌, length, arith,
  length-drop, ◌==◌, ◌&&◌, if◌then◌else◌,
}
use mathlib.Core.Path.{subst}
use netdata_postgres_mcp.Base.Text.{Bytes}
use netdata_postgres_mcp.RemoteWrite.Varint.{decode_varint, decode_tag}
use netdata_postgres_mcp.RemoteWrite.Parse.{
  Outcome, ok, err, panics, stuck, ◌>>=◌, PrLabel, PrSample, PrTimeSeries, slice_to, slice_from,
  skip_field, skip_over, exceeds, delimited, next_tag, message_loop, label_field, parse_label,
  sample_field, parse_sample, series_payload, series_field, parse_time_series, request_field,
  parse_write_request,
}

-- What a value satisfies, if there is one; never out of fuel.
abbrev pub Ensures : {A : Type 0} → (A → Type 0) → Outcome A → Type 0
Ensures P (ok a) = P a
Ensures P (err e) = Unit
Ensures P panics = Unit
Ensures P stuck = ⊥

pub Ensures-bind :
    {A B : Type 0} (P : A → Type 0) (Q : B → Type 0) (m : Outcome A) (f : A → Outcome B)
    → Ensures P m
    → ((a : A) → P a → Ensures Q (f a))
    → Ensures Q (m >>= f)
Ensures-bind P Q (ok a) f h k = k a h
Ensures-bind P Q (err e) f h k = tt
Ensures-bind P Q panics f h k = tt
Ensures-bind P Q stuck f h k = h

pub Ensures-if :
    {A : Type 0} (Q : A → Type 0) (b : Bool) (m n : Outcome A)
    → Ensures Q m
    → Ensures Q n
    → Ensures Q (if b then m else n)
Ensures-if Q true m n hm hn = hm
Ensures-if Q false m n hm hn = hn

-- The bytes that a round of a loop leaves are fewer than it was given.
abbrev pub Shorter : {S : Type 0} → Bytes → Bytes × S → Type 0
Shorter bytes (rest, s) = length rest < length bytes

slice_from-Ensures :
    (bytes : Bytes) (n : ℕ) → Ensures (λ rest. length rest + n ≡ length bytes) (slice_from bytes n)
unfolding slice_from
slice_from-Ensures bytes n = ground (arith, length-drop n bytes)

slice_from-le :
    (bytes : Bytes) (n : ℕ) → Ensures (λ rest. length rest ≤ length bytes) (slice_from bytes n)
unfolding slice_from
slice_from-le bytes n = ground (arith, length-drop n bytes)

slice_to-Ensures : (bytes : Bytes) (n : ℕ) → Ensures (λ payload. Unit {0}) (slice_to bytes n)
unfolding slice_to
slice_to-Ensures bytes n = ground arith

next_tag-Ensures : (bytes : Bytes) → Ensures (λ t. length t.2 < length bytes) (next_tag bytes)
unfolding next_tag slice_from
next_tag-Ensures bytes = ground (arith, length-drop (decode_tag bytes).n bytes)

skip_over-Ensures :
    (wire_type : ℕ) (bytes : Bytes)
    → Ensures (λ after. length after ≤ length bytes) (skip_over wire_type bytes)
unfolding skip_over
skip_over-Ensures wire_type bytes =
    Ensures-bind (λ n. Unit {0}) _ (skip_field wire_type bytes) _
      (unfold skip_field in ground arith) (λ n h. slice_from-le bytes n)

delimited-Ensures : (bytes : Bytes) → Ensures (λ p. length p.1 ≤ length bytes) (delimited bytes)
unfolding delimited
delimited-Ensures bytes =
    let (len, n) = decode_varint bytes in
    Ensures-if _ (n == 0) _ _ tt (
      Ensures-bind _ _ (slice_from bytes n) _ (slice_from-le bytes n) λ rest h.
        Ensures-if _ (exceeds len rest) _ _ tt (
          Ensures-bind _ _ (slice_to rest len) _ (slice_to-Ensures rest len) λ payload _.
            Ensures-bind _ _ (slice_from rest len) _ (slice_from-le rest len)
              (λ after k. omega arith)))

module _ {S : Type 0} (field : Bytes → S → Outcome (Bytes × S))
    (advances : (bytes : Bytes) (s : S) → Ensures (Shorter bytes) (field bytes s)) where
  pub message_loop-Ensures :
      (fuel : ℕ) (bytes : Bytes) (s : S)
      → length bytes ≤ fuel
      → Ensures (λ s'. Unit {0}) (message_loop field fuel bytes s)
  unfolding message_loop
  message_loop-Ensures fuel [] s h = tt
  message_loop-Ensures zero (b ∷ bs) s h = absurd (omega arith)
  message_loop-Ensures (suc fuel) (b ∷ bs) s h =
      Ensures-bind (Shorter (b ∷ bs)) _ (field (b ∷ bs) s) _ (advances (b ∷ bs) s)
        (λ r l. message_loop-Ensures fuel r.0 r.1 (omega arith))

label_field-Shorter : (bytes : Bytes) (l : PrLabel) → Ensures (Shorter bytes) (label_field bytes l)
unfolding label_field
label_field-Shorter bytes l = Ensures-bind _ _ (next_tag bytes) _ (next_tag-Ensures bytes) λ t h.
    Ensures-if _ (t.1 == 2) _ _
      (Ensures-bind _ _ (delimited t.2) _ (delimited-Ensures t.2) (λ p k. omega arith))
      (Ensures-bind _ _ (skip_over t.1 t.2) _ (skip_over-Ensures t.1 t.2) (λ r k. omega arith))

-- A loop whose rounds advance never runs out of the fuel that its caller gives.
abbrev Ends : {A : Type 0} → Outcome A → Type 0
Ends = Ensures (λ a. Unit {0})

pub parse_label-Ends : (bytes : Bytes) → Ends (parse_label bytes)
unfolding parse_label
parse_label-Ends bytes =
    message_loop-Ensures label_field label_field-Shorter (length bytes) bytes _ (omega arith)

sample_field-Shorter :
    (bytes : Bytes) (s : PrSample) → Ensures (Shorter bytes) (sample_field bytes s)
unfolding sample_field
sample_field-Shorter bytes s = Ensures-bind _ _ (next_tag bytes) _ (next_tag-Ensures bytes) λ t h.
    let (v, n) = decode_varint t.2 in
    Ensures-if _ ((t.0 == 1) && (t.1 == 1)) _ _
      (Ensures-if _ (ltb (length t.2) 8) _ _ tt
        (Ensures-bind _ _ (slice_from t.2 8) _ (slice_from-le t.2 8) (λ r k. omega arith)))
      (Ensures-if _ ((t.0 == 2) && (t.1 == 0)) _ _
        (Ensures-if _ (n == 0) _ _ tt
          (Ensures-bind _ _ (slice_from t.2 n) _ (slice_from-le t.2 n) (λ r k. omega arith)))
        (Ensures-bind _ _ (skip_over t.1 t.2) _ (skip_over-Ensures t.1 t.2) (λ r k. omega arith)))

pub parse_sample-Ends : (bytes : Bytes) → Ends (parse_sample bytes)
unfolding parse_sample
parse_sample-Ends bytes =
    message_loop-Ensures sample_field sample_field-Shorter (length bytes) bytes _ (omega arith)

series_payload-Ends :
    (field_num : ℕ) (payload : Bytes) (ts : PrTimeSeries)
    → Ends (series_payload field_num payload ts)
unfolding series_payload
series_payload-Ends field_num payload ts =
    Ensures-if _ (field_num == 1) _ _
      (Ensures-bind _ _ (parse_label payload) _ (parse_label-Ends payload) (λ l _. tt))
      (Ensures-if _ (field_num == 2) _ _
        (Ensures-bind _ _ (parse_sample payload) _ (parse_sample-Ends payload) (λ s _. tt)) tt)

series_field-Shorter :
    (bytes : Bytes) (ts : PrTimeSeries) → Ensures (Shorter bytes) (series_field bytes ts)
unfolding series_field
series_field-Shorter bytes ts = Ensures-bind _ _ (next_tag bytes) _ (next_tag-Ensures bytes) λ t h.
    Ensures-if _ (t.1 == 2) _ _
      (Ensures-bind _ _ (delimited t.2) _ (delimited-Ensures t.2) λ p k.
        Ensures-bind _ _ (series_payload t.0 p.0 ts) _ (series_payload-Ends t.0 p.0 ts)
          (λ ts' _. omega arith))
      (Ensures-bind _ _ (skip_over t.1 t.2) _ (skip_over-Ensures t.1 t.2) (λ r k. omega arith))

pub parse_time_series-Ends : (bytes : Bytes) → Ends (parse_time_series bytes)
unfolding parse_time_series
parse_time_series-Ends bytes =
    message_loop-Ensures series_field series_field-Shorter (length bytes) bytes _ (omega arith)

request_field-Shorter :
    (bytes : Bytes) (result : List PrTimeSeries)
    → Ensures (Shorter bytes) (request_field bytes result)
unfolding request_field
request_field-Shorter bytes result =
    Ensures-bind _ _ (next_tag bytes) _ (next_tag-Ensures bytes) λ t h.
      Ensures-if _ ((t.0 == 1) && (t.1 == 2)) _ _
        (Ensures-bind _ _ (delimited t.2) _ (delimited-Ensures t.2) λ p k.
          Ensures-bind _ _ (parse_time_series p.0) _ (parse_time_series-Ends p.0)
            (λ ts _. omega arith))
        (Ensures-bind _ _ (skip_over t.1 t.2) _ (skip_over-Ensures t.1 t.2) (λ r k. omega arith))

parse_write_request-Ends : (bytes : Bytes) → Ends (parse_write_request bytes)
unfolding parse_write_request
parse_write_request-Ends bytes =
    message_loop-Ensures request_field request_field-Shorter (length bytes) bytes _ (omega arith)

-- Whatever the bytes, the request parser ends: with a result, an error, or a slice out of range.
pub parse_write_request-ne-stuck : (bytes : Bytes) → parse_write_request bytes ≢ stuck
parse_write_request-ne-stuck bytes e = subst Ends e (parse_write_request-Ends bytes)
