-- ===== src/Store/Rollup.antt =====
-- internal/store/rollup.go: `AggregateHourly`, and its runs by `retentionLoop` of internal/scheduler/scheduler.go.
-- The statement is one of SQL: a row of hardware_metric_rollups_1h is kept as the values that its AVG,
-- MIN, MAX and COUNT are computed from. A series is a node, a context, a dimension and an instance.
pub mod Gaps
use netdata_postgres_mcp.Base.{
  ℕ, zero, suc, ◌+◌, ◌-◌, ◌*◌, ◌/◌, Bool, ◌&&◌, List, [], ◌∷◌, Option, none, some, ltb, leb, ◌==◌,
  if◌then◌else◌,
}
use netdata_postgres_mcp.Base.Text.{Bytes, eq_str}
use netdata_postgres_mcp.Scheduler.Retention.{hour}

pub record RawSample (V : Type 0) : Type 0 where
  pub series : Bytes
  pub collected_at : ℕ
  pub value : V

-- The rows, by series and hour.
abbrev pub Rollups : Type 0 → Type 0
Rollups V = Bytes → ℕ → Option (List V)

-- collected_at >= $1 AND collected_at < $2, where $1 is three hours before $2
unfoldable pub in_window : ℕ → ℕ → Bool
in_window before t = leb (before - 3 * hour) t && ltb t before

-- date_trunc('hour', collected_at), as the number of the hour
unfoldable pub bucket : ℕ → ℕ
bucket t = t / hour

module _ {V : Type 0} where
  -- The values of a group.
  unfoldable pub group : ℕ → Bytes → ℕ → List (RawSample V) → List V
  unfolding in_window bucket
  group before series b [] = []
  group before series b (s ∷ samples) =
      let rest = group before series b samples in
      if in_window before s.collected_at && (eq_str s.series series && (bucket s.collected_at == b))
      then s.value ∷ rest
      else rest

  -- ON CONFLICT … DO UPDATE: a group that is there replaces the row.
  abbrev pub upsert : Option (List V) → List V → Option (List V)
  upsert old [] = old
  upsert old (v ∷ vs) = some (v ∷ vs)

  unfoldable pub aggregate_hourly : ℕ → List (RawSample V) → Rollups V → Rollups V
  unfolding group
  aggregate_hourly before samples rollups series b =
      upsert (rollups series b) (group before series b samples)

  -- The first runs of retentionLoop, at the start and every 24 hours; `samples` is the table at each of
  -- them.
  unfoldable pub daily_runs : ℕ → (ℕ → List (RawSample V)) → ℕ → Rollups V → Rollups V
  unfolding aggregate_hourly
  daily_runs start samples zero rollups = rollups
  daily_runs start samples (suc n) rollups =
      aggregate_hourly (start + n * (24 * hour) - hour) (samples n)
        (daily_runs start samples n rollups)
