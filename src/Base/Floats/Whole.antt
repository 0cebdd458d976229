-- ===== src/Base/Floats/Whole.antt =====
-- Whole numbers in place of float64, for concrete runs of internal/mcp and internal/derived.
use netdata_postgres_mcp.Base.{ℕ, ◌+◌, ◌-◌, ◌*◌, ◌/◌, ◌^◌, ltb, ◌==◌, if◌then◌else◌}
use netdata_postgres_mcp.Base.Floats.{Float}

-- Differences stop at 0, and a quotient is rounded down.
abbrev pub whole_numbers : Float ℕ
whole_numbers = record {
  decimal = λ n k. n / 10 ^ k;
  add = λ x y. x + y;
  sub = λ x y. x - y;
  mul = λ x y. x * y;
  div = λ x y. x / y;
  less = ltb;
  equal = λ x y. x == y;
  round = λ x. x;
  min = λ x y. if ltb x y then x else y;
  max = λ x y. if ltb x y then y else x;
  abs = λ x. x;
  greatest = 2 ^ 1024;
}
