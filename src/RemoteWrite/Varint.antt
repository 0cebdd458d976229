-- ===== src/RemoteWrite/Varint.antt =====
-- internal/remotewrite/handler.go: `decodeVarint` and `decodeTag`. A byte slice is a list of
-- numbers, a `uint64` a number below 2 ^ 64.
mod Bits
pub mod RoundTrip
use Prim.Native.Nat.{bit_and, bit_or}
use netdata_postgres_mcp.Base.{
  ℕ, ◌+◌, ◌*◌, ◌/◌, ◌%◌, ◌^◌, ◌≡◌, refl, List, [], ◌∷◌, ltb, leb, ◌==◌, if◌then◌else◌,
}
use netdata_postgres_mcp.Base.Text.{Bytes}

-- uint64(b) << s
abbrev pub shl64 : ℕ → ℕ → ℕ
shl64 b s = b * 2 ^ s % 2 ^ 64

-- The loop over what `range data` has not reached. `s` is 7 times `i`, at most 63 where it is used.
unfoldable pub varint_loop : Bytes → ℕ → ℕ → ℕ → ℕ × ℕ
varint_loop [] i x s = (0, 0)
varint_loop (b ∷ rest) i x s =
    let more = varint_loop rest (i + 1) (bit_or x (shl64 (bit_and b 0x7f) s)) (s + 7) in
    if leb 10 i then (0, 0) else if ltb b 0x80 then (bit_or x (shl64 b s), i + 1) else more

-- The value and the number of bytes read, 0 bytes for a failure.
unfoldable pub decode_varint : Bytes → ℕ × ℕ
unfolding varint_loop
decode_varint bytes = varint_loop bytes 0 0 0

pub record Tag : Type 0 where
  pub field_num : ℕ
  pub wire_type : ℕ
  pub n : ℕ

unfoldable pub decode_tag : Bytes → Tag
decode_tag bytes =
    let (v, n) = decode_varint bytes in
    if n == 0
    then record { field_num = 0; wire_type = 0; n = 0 }
    else record { field_num = v / 2 ^ 3; wire_type = bit_and v 0x7; n = n }
