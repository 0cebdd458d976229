-- ===== src/RemoteWrite/Varint/Bits.antt =====
-- The bit operations of `decodeVarint` as arithmetic.
use Prim.Native.Nat.{bit_and, bit_or, min, max, digits, bit_or-bitwise, bit_and-bitwise}
use netdata_postgres_mcp.Base.{
  ℕ, zero, suc, ◌+◌, ◌*◌, ◌/◌, ◌%◌, ◌^◌, ◌≤◌, ◌<◌, ◌≡◌, refl, ap, arith, Bool, true, ◌&&◌, ◌==◌,
}
use native.Mathlib.Nat.{pow-suc}

-- The digits of `x` fall below those of a multiple of 2 ^ s.
digits_disjoint :
    (n s x y : ℕ) → x ≤ n → x < 2 ^ s → digits (λ b. b) max n x (y * 2 ^ s) ≡ x + y * 2 ^ s
digits_disjoint zero s zero y p q = omega arith
digits_disjoint zero s (suc x) y p q = absurd (omega arith)
digits_disjoint (suc n) s zero y p q = omega arith
digits_disjoint (suc n) zero (suc x) y p q = absurd (omega arith)
digits_disjoint (suc n) (suc s) (suc x) y p q =
    let e : y * 2 ^ suc s ≡ 2 * (y * 2 ^ s) = omega (arith, ap (λ (t : ℕ). y * t) (pow-suc 2 s)) in
    let half : 2 * (y * 2 ^ s) / 2 ≡ y * 2 ^ s = omega arith in
    rw (e, half)
      (omega (
        arith,
        pow-suc 2 s,
        digits_disjoint n s (suc x / 2) y (omega arith) (omega (arith, pow-suc 2 s)),
      ))

-- `|` adds a multiple of 2 ^ s to a number below 2 ^ s.
pub bit_or_disjoint : (s x y : ℕ) → x < 2 ^ s → bit_or x (y * 2 ^ s) ≡ x + y * 2 ^ s
bit_or_disjoint s x y h = rw bit_or-bitwise (digits_disjoint x s x y (omega arith) h)

-- The payload of a continuation byte, from a table.
payloads_agree : ℕ → Bool
payloads_agree zero = true
payloads_agree (suc r) = (bit_and (r + 128) 0x7f == r) && payloads_agree r

payload_of_table : (n r : ℕ) → payloads_agree n ≡ true → r < n → bit_and (r + 128) 0x7f ≡ r
unfolding payloads_agree
payload_of_table zero r t h = absurd (omega arith)
payload_of_table (suc n) r t h = ground (arith, payload_of_table n r)

pub bit_and_payload : (r : ℕ) → r < 128 → bit_and (r + 128) 0x7f ≡ r
unfolding payloads_agree
bit_and_payload r h = payload_of_table 128 r refl h

-- A mask of k ones, digit by digit.
abbrev masked : ℕ → ℕ → ℕ → ℕ
masked n a m = digits (λ b. zero) min n a m

masked_none : (n a : ℕ) → a ≤ n → masked n a 0 ≡ 0
masked_none zero a h = refl
masked_none (suc n) zero h = refl
masked_none (suc n) (suc a) h = omega (arith, masked_none n (suc a / 2) (omega arith))

masked_one : (n a : ℕ) → a ≤ n → masked n a 1 ≡ a % 2
masked_one zero zero h = refl
masked_one zero (suc a) h = absurd (omega arith)
masked_one (suc n) zero h = refl
masked_one (suc n) (suc a) h = omega (arith, masked_none n (suc a / 2) (omega arith))

masked_two : (n a : ℕ) → a ≤ n → masked n a 3 ≡ a % 4
masked_two zero zero h = refl
masked_two zero (suc a) h = absurd (omega arith)
masked_two (suc n) zero h = refl
masked_two (suc n) (suc a) h = omega (arith, masked_one n (suc a / 2) (omega arith))

masked_three : (n a : ℕ) → a ≤ n → masked n a 7 ≡ a % 8
masked_three zero zero h = refl
masked_three zero (suc a) h = absurd (omega arith)
masked_three (suc n) zero h = refl
masked_three (suc n) (suc a) h = omega (arith, masked_two n (suc a / 2) (omega arith))

pub bit_and_seven : (v : ℕ) → bit_and v 0x7 ≡ v % 8
bit_and_seven v = rw bit_and-bitwise (masked_three v v (omega arith))
