-- ===== src/RemoteWrite/Parse/Panics.antt =====
-- What `parseWriteRequest` of internal/remotewrite/handler.go does with a delimited field whose
-- length goes beyond the bytes that are left.
use netdata_postgres_mcp.Base.{
  ℕ, ◌+◌, ◌*◌, ◌^◌, ◌≤◌, ◌<◌, ◌≡◌, ◌≢◌, refl, [], ◌∷◌, ◌++◌, length, length-append, arith,
}
use netdata_postgres_mcp.Base.Text.{Bytes}
use netdata_postgres_mcp.RemoteWrite.Varint.RoundTrip.{
  encode_varint, encode_varint-pos, decode-encode_varint,
}
use netdata_postgres_mcp.RemoteWrite.Parse.{
  Outcome, Error, err, panics, truncated, exceeds, slice_to, slice_from, skip_field, skip_over,
  delimited, message_loop, request_field, parse_write_request,
}
use netdata_postgres_mcp.RemoteWrite.Parse.Wire.{encode_tag}
use netdata_postgres_mcp.RemoteWrite.Parse.Fields.{
  next_tag-encode, slice_from-append, length-encode_varint-le,
}

loop_panics :
    {S : Type 0} (field : Bytes → S → Outcome (Bytes × S)) (bytes : Bytes) (s : S)
    → 0 < length bytes
    → field bytes s ≡ panics
    → message_loop field (length bytes) bytes s ≡ panics
unfolding message_loop
loop_panics field [] s h e = elim h [ ]
loop_panics field (b ∷ bytes) s h e = rw e

loop_err :
    {S : Type 0} (field : Bytes → S → Outcome (Bytes × S)) (bytes : Bytes) (s : S) (x : Error)
    → 0 < length bytes
    → field bytes s ≡ err x
    → message_loop field (length bytes) bytes s ≡ err x
unfolding message_loop
loop_err field [] s x h e = elim h [ ]
loop_err field (b ∷ bytes) s x h e = rw e

delimited_beyond :
    (l : ℕ) (rest : Bytes)
    → length rest < l
    → l < 2 ^ 63
    → delimited (encode_varint l ++ rest) ≡ err truncated
unfolding delimited exceeds
delimited_beyond l rest h k =
    rw (decode-encode_varint l rest (omega arith))
      (rw (slice_from-append (encode_varint l) rest _ refl) (ground (arith, encode_varint-pos l)))

delimited_huge :
    (l : ℕ) (rest : Bytes)
    → length rest < 2 ^ 63
    → 2 ^ 63 ≤ l
    → l < 2 ^ 64
    → delimited (encode_varint l ++ rest) ≡ panics
unfolding delimited exceeds slice_to
delimited_huge l rest h k b =
    rw (decode-encode_varint l rest b)
      (rw (slice_from-append (encode_varint l) rest _ refl) (ground (arith, encode_varint-pos l)))

skip_over_beyond :
    (l : ℕ) (rest : Bytes)
    → length rest < l
    → l < 2 ^ 63
    → skip_over 2 (encode_varint l ++ rest) ≡ panics
unfolding skip_over skip_field slice_from
skip_over_beyond l rest h k = rw (decode-encode_varint l rest (omega arith)) (
    ground (
      arith,
      encode_varint-pos l,
      length-encode_varint-le l (omega arith),
      length-append (encode_varint l) rest,
    ))

tagged-pos : (num wire : ℕ) (bytes : Bytes) → 0 < length (encode_tag num wire ++ bytes)
tagged-pos num wire bytes =
    omega (arith, length-append (encode_tag num wire) bytes, encode_varint-pos (num * 8 + wire))

-- A request that begins with a delimited field whose length, below 2 ^ 63, goes beyond the bytes that
-- follow: for a time series the parser returns an error; for a field of another number,
-- whose length `skipField` does not check, it slices out of range.
pub truncated_request :
    (num l : ℕ) (rest : Bytes)
    → length rest < l
    → l < 2 ^ 63
    → num < 2 ^ 61
    → num ≢ 1
    → (parse_write_request (encode_tag 1 2 ++ (encode_varint l ++ rest)) ≡ err truncated)
      × (parse_write_request (encode_tag num 2 ++ (encode_varint l ++ rest)) ≡ panics)
unfolding parse_write_request request_field
truncated_request num l rest h k hn other = (
  loop_err request_field _ [] truncated (tagged-pos 1 2 _) (
      rw (next_tag-encode 1 2 (encode_varint l ++ rest) (omega arith) (omega arith))
        (rw (delimited_beyond l rest h k))),
  loop_panics request_field _ [] (tagged-pos num 2 _) (
      rw (next_tag-encode num 2 (encode_varint l ++ rest) hn (omega arith))
        (ground (arith, skip_over_beyond l rest h k))),
)

-- A request that begins with a time series of a length of 2 ^ 63 or more passes the guard on its
-- length, which is negative as an `int`, and slices out of range.
pub huge_length_panics :
    (l : ℕ) (rest : Bytes)
    → length rest < 2 ^ 63
    → 2 ^ 63 ≤ l
    → l < 2 ^ 64
    → parse_write_request (encode_tag 1 2 ++ (encode_varint l ++ rest)) ≡ panics
unfolding parse_write_request request_field
huge_length_panics l rest fits k b = loop_panics request_field _ [] (tagged-pos 1 2 _) (
    rw (next_tag-encode 1 2 (encode_varint l ++ rest) (omega arith) (omega arith))
      (rw (delimited_huge l rest fits k b)))
