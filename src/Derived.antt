-- ===== src/Derived.antt =====
-- internal/derived/derived.go: the derived samples. A float64 is its bit pattern, its arithmetic is a
-- parameter.
pub mod Latest
pub mod Division
mod Tests
use netdata_postgres_mcp.Base.{
  ℕ, Bool, not, ◌||◌, List, [], ◌∷◌, ◌++◌, Option, none, some, ltb, if◌then◌else◌,
}
use netdata_postgres_mcp.Base.Text.{Bytes, str, eq_str, to_lower}
use netdata_postgres_mcp.Base.Assoc.{Assoc, lookup, update}
use netdata_postgres_mcp.Base.Floats.{Float}
use netdata_postgres_mcp.Store.Sample.{MetricSample}

-- config.DerivedContext of internal/config/derived.go
pub record DerivedContext : Type 0 where
  pub name : Bytes
  pub expression : Bytes
  pub input_a : Bytes
  pub input_b : Bytes
  pub unit : Bytes

-- s.Context + "." + s.Dimension
unfoldable pub sample_key : MetricSample → Bytes
sample_key s = s.context ++ str "." ++ s.dimension

-- The sample that stays at a key.
unfoldable pub newer : MetricSample → Option MetricSample → MetricSample
newer s none = s
newer s (some existing) = if ltb existing.collected_at s.collected_at then s else existing

-- The loop that fills `latest`.
unfoldable pub index_latest : Assoc MetricSample → List MetricSample → Assoc MetricSample
unfolding newer sample_key
index_latest latest [] = latest
index_latest latest (s ∷ samples) = index_latest (update (sample_key s) (newer s) latest) samples

module _ (float : Float ℕ) where
  -- A quotient, unless there is no divisor or it is 0.
  unfoldable pub quotient : ℕ → Option MetricSample → Option ℕ
  quotient a none = none
  quotient a (some b) =
      if float.equal b.value (float.decimal 0 0) then none else some (float.div a b.value)

  abbrev pub with_b : (ℕ → ℕ → ℕ) → ℕ → Option MetricSample → Option ℕ
  with_b op a none = none
  with_b op a (some b) = some (op a b.value)

  abbrev pub times_hundred : Option ℕ → Option ℕ
  times_hundred none = none
  times_hundred (some v) = some (float.mul v (float.decimal 100 0))

  -- The switch on the expression; `none` is its `continue`.
  unfoldable pub expression_value : Bytes → ℕ → Option MetricSample → Option ℕ
  unfolding quotient
  expression_value e a b =
      if eq_str e (str "a")
      then some a
      else if eq_str e (str "a * 100")
      then some (float.mul a (float.decimal 100 0))
      else if eq_str e (str "a / b * 100")
      then times_hundred (quotient a b)
      else if eq_str e (str "a / b")
      then quotient a b
      else if eq_str e (str "a - b")
      then with_b float.sub a b
      else if eq_str e (str "a + b")
      then with_b float.add a b
      else none

  unfoldable pub derived_value :
      Assoc MetricSample → DerivedContext → Option MetricSample → Option ℕ
  unfolding expression_value
  derived_value latest def none = none
  derived_value latest def (some a) =
      expression_value (to_lower def.expression) a.value (lookup def.input_b latest)

  abbrev pub derived_samples : Bytes → ℕ → DerivedContext → Option ℕ → List MetricSample
  derived_samples node_id now def none = []
  derived_samples node_id now def (some value) =
      record {
        node_id = node_id;
        collected_at = now;
        context = def.name;
        chart = def.name;
        family = [];
        instance_name = [];
        dimension = str "value";
        unit = def.unit;
        value = value;
        labels = some ((str "derived", str "true") ∷ []);
      }
      ∷ []

  -- The loop over the definitions.
  unfoldable pub derive : Bytes → ℕ → Assoc MetricSample → List DerivedContext → List MetricSample
  unfolding derived_value
  derive node_id now latest [] = []
  derive node_id now latest (def ∷ definitions) =
      derived_samples node_id now def (derived_value latest def (lookup def.input_a latest))
      ++ derive node_id now latest definitions

  -- `now` is time.Now.
  unfoldable pub compute : Bytes → ℕ → List DerivedContext → List MetricSample → List MetricSample
  unfolding derive index_latest
  compute node_id now [] samples = []
  compute node_id now (def ∷ definitions) samples =
      derive node_id now (index_latest [] samples) (def ∷ definitions)
