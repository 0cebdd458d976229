-- ===== src/Base/Floats.antt =====
-- What internal/mcp and internal/derived use of float64, and `round2` of internal/mcp/server.go; and what IEEE 754 says of its order.
pub mod Whole
use Prim.Native.Nat.{ℕ}
use mathlib.Core.Path.{◌≡◌}
use mathlib.Core.Logic.{◌⊎◌}
use mathlib.Core.Bool.{Bool, true, false}
use netdata_postgres_mcp.Base.Tests.{if◌then◌else◌}

-- `decimal n k` is the float64 nearest to n / 10 ^ k, `round` is math.Round, `greatest`
-- math.MaxFloat64.
pub record Float (F : Type 0) : Type 0 where
  pub decimal : ℕ → ℕ → F
  pub add : F → F → F
  pub sub : F → F → F
  pub mul : F → F → F
  pub div : F → F → F
  pub less : F → F → Bool
  pub equal : F → F → Bool
  pub round : F → F
  pub min : F → F → F
  pub max : F → F → F
  pub abs : F → F
  pub greatest : F

-- NaN is not equal to itself, and in no order with anything.
pub record IsOrdered {F : Type 0} (float : Float F) : Type 0 where
  pub less_irrefl : (x : F) → float.less x x ≡ false
  pub less_trans :
      (x y z : F) → float.less x y ≡ true → float.less y z ≡ true → float.less x z ≡ true
  pub less_cotrans :
      (x y z : F)
      → float.equal y y ≡ true
      → float.less x z ≡ true
      → (float.less x y ≡ true) ⊎ (float.less y z ≡ true)
  pub less-number :
      (x y : F) → float.less x y ≡ true → (float.equal x x ≡ true) × (float.equal y y ≡ true)
  pub decimal-nonneg : (n k : ℕ) → float.less (float.decimal n k) (float.decimal 0 0) ≡ false
  pub decimal-number : (n k : ℕ) → float.equal (float.decimal n k) (float.decimal n k) ≡ true

unfoldable pub round2 : {F : Type 0} → Float F → F → F
round2 float f = float.div (float.round (float.mul f (float.decimal 100 0))) (float.decimal 100 0)

-- if v > m { m = v }
unfoldable pub raise : {F : Type 0} → Float F → F → F → F
raise float m v = if float.less m v then v else m
