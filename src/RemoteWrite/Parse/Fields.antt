-- ===== src/RemoteWrite/Parse/Fields.antt =====
-- How one round of a parser of internal/remotewrite/handler.go reads one field of the wire format,
-- and how its loop reads a message.
use mathlib.Core.List.{foldl, append_assoc}
use netdata_postgres_mcp.Base.{
  ℕ, zero, suc, ◌+◌, ◌*◌, ◌^◌, ◌≤◌, ◌<◌, ◌≡◌, refl, ◌∙◌, ap, List, [], ◌∷◌, ◌++◌, length,
  length-append, All, take, drop, arith,
}
use netdata_postgres_mcp.Base.Text.{Bytes}
use netdata_postgres_mcp.RemoteWrite.Varint.RoundTrip.{
  encode_varint, encode_varint-pos, decode-encode_varint, decode-encode_tag, decode_varint-le,
}
use netdata_postgres_mcp.RemoteWrite.Parse.{
  Outcome, ok, ◌>>=◌, exceeds, slice_to, slice_from, skip_field, skip_over,
  delimited as read_delimited, next_tag, message_loop,
}
use netdata_postgres_mcp.RemoteWrite.Parse.Wire.{
  WireField, varint, fixed64, delimited, fixed32, number, wire_type, payload, encode_tag,
  encode_field, encode_all, IsWire,
}

take-append_self : (xs ys : Bytes) → take (length xs) (xs ++ ys) ≡ xs
take-append_self [] ys = refl
take-append_self (x ∷ xs) ys = rw (take-append_self xs ys)

drop-append_self : (xs ys : Bytes) → drop (length xs) (xs ++ ys) ≡ ys
drop-append_self [] ys = refl
drop-append_self (x ∷ xs) ys = drop-append_self xs ys

pub slice_from-append : (xs ys : Bytes) (n : ℕ) → length xs ≡ n → slice_from (xs ++ ys) n ≡ ok ys
unfolding slice_from
slice_from-append xs ys n e = rw (← e) (ground (arith, length-append xs ys, drop-append_self xs ys))

slice_to-append : (xs ys : Bytes) → slice_to (xs ++ ys) (length xs) ≡ ok xs
unfolding slice_to
slice_to-append xs ys = ground (arith, length-append xs ys, take-append_self xs ys)

pub next_tag-encode :
    (num wire : ℕ) (rest : Bytes)
    → num < 2 ^ 61
    → wire < 8
    → next_tag (encode_tag num wire ++ rest) ≡ ok (num, wire, rest)
unfolding next_tag
next_tag-encode num wire rest hn hw = rw (decode-encode_tag num wire rest hn hw) (
    rw (slice_from-append (encode_tag num wire) rest _ refl)
      (ground (arith, encode_varint-pos (num * 8 + wire))))

pub delimited-encode :
    (s rest : Bytes)
    → length s < 2 ^ 63
    → read_delimited (encode_varint (length s) ++ (s ++ rest)) ≡ ok (s, rest)
unfolding read_delimited exceeds
delimited-encode s rest h =
    let n = length (encode_varint (length s)) in
    rw (decode-encode_varint (length s) (s ++ rest) (omega arith)) (
      rw
        (
          slice_from-append (encode_varint (length s)) (s ++ rest) n refl,
          slice_to-append s rest,
          slice_from-append s rest (length s) refl,
        )
        (ground (arith, encode_varint-pos (length s), length-append s rest)))

pub skip_over-varint :
    (v : ℕ) (rest : Bytes) → v < 2 ^ 64 → skip_over 0 (encode_varint v ++ rest) ≡ ok rest
unfolding skip_over skip_field
skip_over-varint v rest h = rw (decode-encode_varint v rest h) (
    ground (
      arith,
      encode_varint-pos v,
      slice_from-append (encode_varint v) rest (length (encode_varint v)) refl,
    ))

pub length-encode_varint-le : (v : ℕ) → v < 2 ^ 64 → length (encode_varint v) ≤ 10
length-encode_varint-le v h = omega (
  arith,
  ap (λ (p : ℕ × ℕ). p.1) (decode-encode_varint v [] h),
  (decode_varint-le (encode_varint v ++ [])).1,
)

pub skip_over-delimited :
    (s rest : Bytes)
    → length s < 2 ^ 63
    → skip_over 2 (encode_varint (length s) ++ (s ++ rest)) ≡ ok rest
unfolding skip_over skip_field
skip_over-delimited s rest h =
    let code = encode_varint (length s) in
    rw (decode-encode_varint (length s) (s ++ rest) (omega arith)) (
      ground (
        arith,
        encode_varint-pos (length s),
        length-encode_varint-le (length s) (omega arith),
        length-append code s,
        append_assoc code s rest,
        slice_from-append (code ++ s) rest (length code + length s),
      ))

pub skip_over-fixed64 : (s rest : Bytes) → length s ≡ 8 → skip_over 1 (s ++ rest) ≡ ok rest
unfolding skip_over skip_field
skip_over-fixed64 s rest h = ground (arith, length-append s rest, slice_from-append s rest 8 h)

pub skip_over-fixed32 : (s rest : Bytes) → length s ≡ 4 → skip_over 5 (s ++ rest) ≡ ok rest
unfolding skip_over skip_field
skip_over-fixed32 s rest h = ground (arith, length-append s rest, slice_from-append s rest 4 h)

-- The tag and the payload of a field, in front of anything.
pub next_tag-encode_field :
    (f : WireField) (rest : Bytes)
    → IsWire f
    → next_tag (encode_field f ++ rest) ≡ ok (number f, wire_type f, payload f ++ rest)
unfolding encode_field
next_tag-encode_field (varint num v) rest h =
    rw append_assoc (next_tag-encode num 0 _ h.0 (omega arith))
next_tag-encode_field (fixed64 num s) rest h =
    rw append_assoc (next_tag-encode num 1 _ h.0 (omega arith))
next_tag-encode_field (delimited num s) rest h =
    rw (append_assoc (encode_tag num 2)) (next_tag-encode num 2 _ h.0 (omega arith))
next_tag-encode_field (fixed32 num s) rest h =
    rw append_assoc (next_tag-encode num 5 _ h.0 (omega arith))

pub skip_over-payload :
    (f : WireField) (rest : Bytes)
    → IsWire f
    → skip_over (wire_type f) (payload f ++ rest) ≡ ok rest
skip_over-payload (varint num v) rest h = skip_over-varint v rest h.1
skip_over-payload (fixed64 num s) rest h = skip_over-fixed64 s rest h.1
skip_over-payload (delimited num s) rest h = rw append_assoc (skip_over-delimited s rest h.1)
skip_over-payload (fixed32 num s) rest h = skip_over-fixed32 s rest h.1

-- A loop whose rounds each read one field reads a message field by field.
module _ {S F : Type 0} (field : Bytes → S → Outcome (Bytes × S)) (encode : F → Bytes)
    (apply : S → F → S) (Good : F → Type 0) (nonempty : (f : F) → 0 < length (encode f))
    (reads : (f : F) (rest : Bytes) (s : S)
      → Good f
      → field (encode f ++ rest) s ≡ ok (rest, apply s f)) where
  round :
      (fuel : ℕ) (bytes : Bytes) (s : S)
      → 0 < length bytes
      → message_loop field (suc fuel) bytes s
        ≡ (field bytes s >>= λ r. message_loop field fuel r.0 r.1)
  unfolding message_loop
  round fuel [] s h = elim h [ ]
  round fuel (b ∷ bytes) s h = refl

  pub loop-encode_all :
      (fs : List F) (fuel : ℕ) (s : S)
      → All Good fs
      → length (encode_all encode fs) ≤ fuel
      → message_loop field fuel (encode_all encode fs) s ≡ ok (foldl apply s fs)
  unfolding encode_all message_loop
  loop-encode_all [] fuel s g h = refl
  loop-encode_all (f ∷ fs) zero s g h =
      absurd (omega (arith, nonempty f, length-append (encode f) (encode_all encode fs)))
  loop-encode_all (f ∷ fs) (suc fuel) s g h =
      let split = length-append (encode f) (encode_all encode fs) in
      round fuel (encode f ++ encode_all encode fs) s (omega (arith, nonempty f, split))
      ∙ rw (reads f (encode_all encode fs) s g.0)
          (loop-encode_all fs fuel (apply s f) g.1 (omega (arith, nonempty f, split)))
