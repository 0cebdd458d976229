-- ===== src/RemoteWrite/Parse/Wire.antt =====
-- The protobuf wire format, as its specification describes it: what the parsers of
-- internal/remotewrite/handler.go are to read. No part of it is in the repository.
use netdata_postgres_mcp.Base.{
  ℕ, ◌+◌, ◌*◌, ◌^◌, ◌<◌, ◌≡◌, List, [], ◌∷◌, ◌++◌, length, length-append, arith,
}
use netdata_postgres_mcp.Base.Text.{Bytes}
use netdata_postgres_mcp.RemoteWrite.Varint.RoundTrip.{encode_varint, encode_varint-pos}

-- A field with its number: a varint, eight bytes, a delimited payload, or four bytes.
pub data WireField : Type 0 where
  varint : ℕ → ℕ → WireField
  fixed64 : ℕ → Bytes → WireField
  delimited : ℕ → Bytes → WireField
  fixed32 : ℕ → Bytes → WireField

abbrev pub encode_tag : ℕ → ℕ → Bytes
encode_tag num wire = encode_varint (num * 8 + wire)

abbrev pub number : WireField → ℕ
number (varint num v) = num
number (fixed64 num s) = num
number (delimited num s) = num
number (fixed32 num s) = num

abbrev pub wire_type : WireField → ℕ
wire_type (varint num v) = 0
wire_type (fixed64 num s) = 1
wire_type (delimited num s) = 2
wire_type (fixed32 num s) = 5

abbrev pub payload : WireField → Bytes
payload (varint num v) = encode_varint v
payload (fixed64 num s) = s
payload (delimited num s) = encode_varint (length s) ++ s
payload (fixed32 num s) = s

unfoldable pub encode_field : WireField → Bytes
encode_field f = encode_tag (number f) (wire_type f) ++ payload f

unfoldable pub encode_all : {F : Type 0} → (F → Bytes) → List F → Bytes
encode_all encode [] = []
encode_all encode (f ∷ fs) = encode f ++ encode_all encode fs

-- Numbers in range, and payloads of the right size; a delimited one shorter than 2 ^ 63 bytes.
abbrev pub IsWire : WireField → Type 0
IsWire (varint num v) = (num < 2 ^ 61) × (v < 2 ^ 64)
IsWire (fixed64 num s) = (num < 2 ^ 61) × (length s ≡ 8)
IsWire (delimited num s) = (num < 2 ^ 61) × (length s < 2 ^ 63)
IsWire (fixed32 num s) = (num < 2 ^ 61) × (length s ≡ 4)

pub encode_field-pos : (f : WireField) → 0 < length (encode_field f)
unfolding encode_field
encode_field-pos f = omega (
  arith,
  length-append (encode_tag (number f) (wire_type f)) (payload f),
  encode_varint-pos (number f * 8 + wire_type f),
)
