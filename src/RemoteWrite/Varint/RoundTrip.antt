-- ===== src/RemoteWrite/Varint/RoundTrip.antt =====
-- `decodeVarint` against the encoder that the protobuf format prescribes, and the bytes it reads.
use Prim.Native.Nat.{bit_and, bit_or}
use netdata_postgres_mcp.Base.{
  ℕ, zero, suc, ◌+◌, ◌*◌, ◌/◌, ◌%◌, ◌^◌, ◌≤◌, ◌<◌, ◌≡◌, refl, ap, arith, refl, false, [], ◌∷◌, ◌++◌,
  ltb, leb, if◌then◌else◌, refl, length, Bool-cases, ltb→lt, inl, inr, ◌∙◌,
}
use netdata_postgres_mcp.Base.Text.{Bytes}
use native.Mathlib.Nat.{pow-suc, div-add-mod, mod-eq_of_lt}
use native.Mathlib.Numerals.{towards_suc}
use netdata_postgres_mcp.RemoteWrite.Varint.{shl64, varint_loop, decode_varint, decode_tag}
use netdata_postgres_mcp.RemoteWrite.Varint.Bits.{bit_or_disjoint, bit_and_payload, bit_and_seven}

-- Seven bits a byte, lowest first, with the top bit set on all bytes but the last; at most
-- `more` bytes before the last.
unfoldable pub groups : ℕ → ℕ → Bytes
groups zero v = v ∷ []
groups (suc more) v =
    let rest = groups more (v / 128) in if ltb v 128 then v ∷ [] else (v % 128 + 128) ∷ rest

unfoldable pub encode_varint : ℕ → Bytes
encode_varint = groups 9

-- One round of the loop, on the last byte and on another.
last_round :
    (v i x s : ℕ) (rest : Bytes)
    → i ≤ 9
    → v < 128
    → x < 2 ^ s
    → v * 2 ^ s < 2 ^ 64
    → varint_loop (v ∷ rest) i x s ≡ (x + v * 2 ^ s, i + 1)
unfolding varint_loop
last_round v i x s rest hi hv hx hs = ground (arith, bit_or_disjoint s x v)

next_round :
    (r i x s : ℕ) (rest : Bytes)
    → i ≤ 9
    → r < 128
    → x < 2 ^ s
    → r * 2 ^ s < 2 ^ 64
    → varint_loop ((r + 128) ∷ rest) i x s ≡ varint_loop rest (i + 1) (x + r * 2 ^ s) (s + 7)
unfolding varint_loop
next_round r i x s rest hi hr hx hs =
    rw (bit_and_payload r hr, not_tenth, continued, mod-eq_of_lt hs, bit_or_disjoint s x r hx)
  where
    not_tenth : leb 10 i ≡ false
    not_tenth = ground arith

    continued : ltb (r + 128) 0x80 ≡ false
    continued = ground arith

two-pow-add_seven : (s : ℕ) → 2 ^ (s + 7) ≡ 128 * 2 ^ s
two-pow-add_seven s = simp towards_suc (simp pow-suc (omega arith))

low_bits_le : (v p : ℕ) → v % 128 * p + v / 128 * (128 * p) ≡ v * p
low_bits_le v p = omega (arith, ap (λ (t : ℕ). t * p) (div-add-mod v 128))

pair_eq : {a b c d : ℕ} → a ≡ c → b ≡ d → ◌≡◌ {A = ℕ × ℕ} (a, b) (c, d)
pair_eq p q = cc

digit_fits : (v x p : ℕ) → x < p → x + v % 128 * p < 128 * p
digit_fits v x p h = omega (arith, digit_times (v % 128) p (omega arith))
  where
    digit_times : (r q : ℕ) → r ≤ 127 → r * q ≤ 127 * q
    digit_times r q l = grind arith

loop-groups :
    (more v i x s : ℕ) (rest : Bytes)
    → i + more ≡ 9
    → s ≡ 7 * i
    → x < 2 ^ s
    → v * 2 ^ s < 2 ^ 64
    → varint_loop (groups more v ++ rest) i x s ≡ (x + v * 2 ^ s, i + length (groups more v))
unfolding groups
loop-groups zero v i x s rest hi hs hx hv =
    let e : s ≡ 63 = omega arith in
    last_round v i x s rest (omega arith) (omega (arith, rw e at hv)) hx hv
loop-groups (suc more) v i x s rest hi hs hx hv = elim (Bool-cases (ltb v 128)) [
  | inl last ↦ rw last (last_round v i x s rest (omega arith) (ltb→lt v 128 last) hx hv)
  | inr longer ↦
      let digits = low_bits_le v (2 ^ s) in
      let wider = two-pow-add_seven s in
      rw longer (
        next_round (v % 128) i x s (groups more (v / 128) ++ rest) (omega arith) (omega arith) hx
          (omega arith)
        ∙ loop-groups more (v / 128) (i + 1) (x + v % 128 * 2 ^ s) (s + 7) rest (omega arith)
            (omega arith) (rw wider (digit_fits v x (2 ^ s) hx)) (rw wider (omega arith))
        ∙ rw wider (pair_eq (omega arith) (omega arith)))
]

-- Decoding the encoding of a 64-bit number, whatever follows, gives the number and the length of
-- the encoding.
pub decode-encode_varint :
    (v : ℕ) (rest : Bytes)
    → v < 2 ^ 64
    → decode_varint (encode_varint v ++ rest) ≡ (v, length (encode_varint v))
unfolding decode_varint encode_varint
decode-encode_varint v rest h =
    loop-groups 9 v 0 0 0 rest refl refl (omega arith) (omega arith)
    ∙ pair_eq (omega arith) (omega arith)

groups-pos : (more v : ℕ) → 0 < length (groups more v)
unfolding groups
groups-pos zero v = omega arith
groups-pos (suc more) v = ground arith

pub encode_varint-pos : (v : ℕ) → 0 < length (encode_varint v)
unfolding encode_varint
encode_varint-pos v = groups-pos 9 v

-- So a tag gives back its field number and wire type.
pub decode-encode_tag :
    (num wire : ℕ) (rest : Bytes)
    → num < 2 ^ 61
    → wire < 8
    → decode_tag (encode_varint (num * 8 + wire) ++ rest)
      ≡ record { field_num = num; wire_type = wire; n = length (encode_varint (num * 8 + wire)) }
unfolding decode_tag
decode-encode_tag num wire rest hn hw =
    rw (decode-encode_varint (num * 8 + wire) rest (omega arith))
      (ground (arith, encode_varint-pos (num * 8 + wire), bit_and_seven (num * 8 + wire)))

-- A varint is read from the bytes that are there, and from ten at most.
loop-le :
    (bytes : Bytes) (i x s : ℕ)
    → i ≤ 10
    → ((varint_loop bytes i x s).1 ≤ i + length bytes) × ((varint_loop bytes i x s).1 ≤ 10)
unfolding varint_loop
loop-le [] i x s h = (omega arith, omega arith)
loop-le (b ∷ rest) i x s h =
    ground (arith, loop-le rest (i + 1) (bit_or x (shl64 (bit_and b 0x7f) s)) (s + 7))

pub decode_varint-le :
    (bytes : Bytes) → ((decode_varint bytes).1 ≤ length bytes) × ((decode_varint bytes).1 ≤ 10)
unfolding decode_varint
decode_varint-le bytes = ground (arith, loop-le bytes 0 0 0)

pub decode_tag-le : (bytes : Bytes) → (decode_tag bytes).n ≤ length bytes
unfolding decode_tag
decode_tag-le bytes = ground (arith, decode_varint-le bytes)
