-- ===== src/Derived/Tests.antt =====
-- internal/derived/derived.go on two samples of a dimension, with whole numbers for the floats.
use netdata_postgres_mcp.Base.{
  ℕ, ◌/◌, ◌≤◌, ◌≡◌, refl, false, List, [], ◌∷◌, none, some, All, ◌==◌, if◌then◌else◌,
}
use netdata_postgres_mcp.Base.Text.{str}
use netdata_postgres_mcp.Base.Assoc.{lookup}
use netdata_postgres_mcp.Store.Sample.{MetricSample}
use netdata_postgres_mcp.Base.Floats.Whole.{whole_numbers}
use netdata_postgres_mcp.Derived.{DerivedContext, index_latest, compute}
use netdata_postgres_mcp.Derived.Latest.{samples_of, index_latest_last}
use netdata_postgres_mcp.Derived.Division.{other, compute_division}

abbrev used : ℕ → ℕ → MetricSample
used at value = record {
  node_id = str "n1";
  collected_at = at;
  context = str "system.ram";
  chart = [];
  family = [];
  instance_name = [];
  dimension = str "used";
  unit = str "MiB";
  value = value;
  labels = none;
}

abbrev samples : List MetricSample
samples = used 20 5 ∷ used 30 7 ∷ used 10 9 ∷ []

index_latest_last_example :
    ((s : MetricSample)
      → lookup (str "system.ram.used") (index_latest [] samples) ≡ some s
      → All
          (λ (t : MetricSample). t.collected_at ≤ s.collected_at)
          (samples_of (str "system.ram.used") samples))
    × (lookup (str "system.ram.used") (index_latest [] samples) ≡ none
        → samples_of (str "system.ram.used") samples ≡ [])
index_latest_last_example = index_latest_last samples (str "system.ram.used")

abbrev share : DerivedContext
share = record {
  name = str "custom.share";
  expression = str "A / B * 100";
  input_a = str "system.ram.used";
  input_b = str "system.ram.used";
  unit = str "percentage";
}

-- Division that gives 1 for a quotient by 0.
abbrev div_or_one : ℕ → ℕ → ℕ
div_or_one x y = if y == 0 then 1 else x / y

div_agrees : (x y : ℕ) → (y == 0) ≡ false → x / y ≡ div_or_one x y
div_agrees x y h = rw h refl

compute_division_example :
    compute whole_numbers (str "n1") 40 (share ∷ []) samples
    ≡ compute (other whole_numbers div_or_one div_agrees) (str "n1") 40 (share ∷ []) samples
compute_division_example =
    compute_division whole_numbers div_or_one div_agrees (str "n1") 40 (share ∷ []) samples
