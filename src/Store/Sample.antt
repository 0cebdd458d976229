-- ===== src/Store/Sample.antt =====
-- internal/store/store.go: `MetricSample`, which the collector makes and the store writes.
use netdata_postgres_mcp.Base.{ℕ, List, [], ◌∷◌, Option, none, some}
use netdata_postgres_mcp.Base.Text.{Bytes}
use netdata_postgres_mcp.Postgres.{Arg, text, time, double, json}

-- An instant is its Unix time in nanoseconds, a float64 its bit pattern; `none` is a nil map.
pub record MetricSample : Type 0 where
  pub node_id : Bytes
  pub collected_at : ℕ
  pub context : Bytes
  pub chart : Bytes
  pub family : Bytes
  pub instance_name : Bytes
  pub dimension : Bytes
  pub unit : Bytes
  pub value : ℕ
  pub labels : Option (List (Bytes × Bytes))

-- if labels == nil { labels = map[string]string{} }
abbrev pub labels_or_empty : Option (List (Bytes × Bytes)) → List (Bytes × Bytes)
labels_or_empty none = []
labels_or_empty (some labels) = labels

-- The arguments that `insertBatch` appends for a sample.
unfoldable pub sample_row : MetricSample → List Arg
sample_row s =
    text s.node_id
    ∷ time s.collected_at
    ∷ text s.context
    ∷ text s.chart
    ∷ text s.family
    ∷ text s.instance_name
    ∷ text s.dimension
    ∷ text s.unit
    ∷ double s.value
    ∷ json (labels_or_empty s.labels)
    ∷ []
