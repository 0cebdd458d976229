-- ===== src/Mcp/Regression.antt =====
-- internal/mcp/forecast.go: `linearRegression`. The arithmetic of float64 is a parameter.
use netdata_postgres_mcp.Base.{List, [], ◌∷◌, length, if◌then◌else◌}
use netdata_postgres_mcp.Base.Floats.{Float}

-- A point of the line: its hours since the first point, and its value.
abbrev pub Xy : Type 0 → Type 0
Xy F = F × F

pub record Sums (F : Type 0) : Type 0 where
  pub sum_x : F
  pub sum_y : F
  pub sum_xy : F
  pub sum_x2 : F

pub record Fit (F : Type 0) : Type 0 where
  pub slope : F
  pub intercept : F
  pub r2 : F

module _ {F : Type 0} (float : Float F) where
  abbrev pub zero_f : F
  zero_f = float.decimal 0 0

  -- The loop of the sums; sumY2 is not used.
  unfoldable pub sums : Sums F → List (Xy F) → Sums F
  sums s [] = s
  sums s (p ∷ ps) =
      sums
        (record {
          sum_x = float.add s.sum_x p.0;
          sum_y = float.add s.sum_y p.1;
          sum_xy = float.add s.sum_xy (float.mul p.0 p.1);
          sum_x2 = float.add s.sum_x2 (float.mul p.0 p.0);
        })
        ps

  abbrev pub no_sums : Sums F
  no_sums = record { sum_x = zero_f; sum_y = zero_f; sum_xy = zero_f; sum_x2 = zero_f }

  -- n*sumX2 - sumX*sumX, and the slope and the intercept
  unfoldable pub denom : F → Sums F → F
  denom n s = float.sub (float.mul n s.sum_x2) (float.mul s.sum_x s.sum_x)

  unfoldable pub slope_of : F → Sums F → F
  unfolding denom
  slope_of n s =
      float.div (float.sub (float.mul n s.sum_xy) (float.mul s.sum_x s.sum_y)) (denom n s)

  unfoldable pub intercept_of : F → Sums F → F → F
  intercept_of n s slope = float.div (float.sub s.sum_y (float.mul slope s.sum_x)) n

  abbrev pub square : F → F
  square x = float.mul x x

  -- The loop of ssRes and ssTot.
  unfoldable pub residues : F → F → F → F × F → List (Xy F) → F × F
  residues slope intercept mean_y ss [] = ss
  residues slope intercept mean_y ss (p ∷ ps) =
      let predicted_y = float.add (float.mul slope p.0) intercept in
      residues slope intercept mean_y
        (
          float.add ss.0 (square (float.sub p.1 predicted_y)),
          float.add ss.1 (square (float.sub p.1 mean_y)),
        )
        ps

  abbrev pub r2_of : F × F → F
  r2_of ss =
      if float.equal ss.1 zero_f
      then float.decimal 1 0
      else float.max zero_f (float.sub (float.decimal 1 0) (float.div ss.0 ss.1))

  -- What follows the sums of n points.
  unfoldable pub fit_of : F → Sums F → List (Xy F) → Fit F
  unfolding slope_of intercept_of residues
  fit_of n s ps =
      let slope = slope_of n s in
      let intercept = intercept_of n s slope in
      let ss = residues slope intercept (float.div s.sum_y n) (zero_f, zero_f) ps in
      if float.equal (denom n s) zero_f
      then record { slope = zero_f; intercept = float.div s.sum_y n; r2 = zero_f }
      else record { slope = slope; intercept = intercept; r2 = r2_of ss }

  unfoldable pub linear_regression : List (Xy F) → Fit F
  unfolding sums fit_of
  linear_regression ps = fit_of (float.decimal (length ps) 0) (sums no_sums ps) ps
