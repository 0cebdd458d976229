-- ===== src/Derived/Division.antt =====
-- The quotients of internal/derived/derived.go.
use netdata_postgres_mcp.Base.{
  ℕ, ◌≡◌, refl, false, List, [], ◌∷◌, Option, none, some, Bool-cases, inl, inr,
}
use netdata_postgres_mcp.Base.Text.{Bytes}
use netdata_postgres_mcp.Base.Assoc.{Assoc, lookup}
use netdata_postgres_mcp.Base.Floats.{Float}
use netdata_postgres_mcp.Store.Sample.{MetricSample}
use netdata_postgres_mcp.Derived.{
  DerivedContext, index_latest, quotient, expression_value, derived_value, derive, compute,
}

module _ (float : Float ℕ) (div' : ℕ → ℕ → ℕ)
    (agrees : (x y : ℕ)
      → float.equal y (float.decimal 0 0) ≡ false
      → float.div x y ≡ div' x y) where
  abbrev pub other : Float ℕ
  other = record float { div = div' }

  quotient-other : (a : ℕ) (b : Option MetricSample) → quotient float a b ≡ quotient other a b
  unfolding quotient
  quotient-other a none = refl
  quotient-other a (some b) = elim (Bool-cases (float.equal b.value (float.decimal 0 0))) [
    | inl z ↦ rw z refl
    | inr z ↦ rw (z, agrees a b.value z) refl
  ]

  expression_value-other :
      (e : Bytes) (a : ℕ) (b : Option MetricSample)
      → expression_value float e a b ≡ expression_value other e a b
  unfolding expression_value
  expression_value-other e a b = rw (quotient-other a b) refl

  derived_value-other :
      (latest : Assoc MetricSample) (def : DerivedContext) (o : Option MetricSample)
      → derived_value float latest def o ≡ derived_value other latest def o
  unfolding derived_value
  derived_value-other latest def none = refl
  derived_value-other latest def (some a) = expression_value-other _ a.value _

  derive-other :
      (node_id : Bytes) (now : ℕ) (latest : Assoc MetricSample) (definitions : List DerivedContext)
      → derive float node_id now latest definitions ≡ derive other node_id now latest definitions
  unfolding derive
  derive-other node_id now latest [] = refl
  derive-other node_id now latest (def ∷ definitions) =
      rw
        (
          derived_value-other latest def (lookup def.input_a latest),
          derive-other node_id now latest definitions,
        )
        refl

  -- Nothing is divided by 0: the derived samples are the same whatever a quotient by 0 would be.
  pub compute_division :
      (node_id : Bytes) (now : ℕ) (definitions : List DerivedContext) (samples : List MetricSample)
      → compute float node_id now definitions samples
        ≡ compute other node_id now definitions samples
  unfolding compute
  compute_division node_id now [] samples = refl
  compute_division node_id now (def ∷ definitions) samples =
      derive-other node_id now (index_latest [] samples) (def ∷ definitions)
