-- ===== src/Mcp/Readings.antt =====
-- internal/mcp/server.go: what `DetectBottlenecks` reads off the aggregates. The arithmetic of float64 is a
-- parameter.
use netdata_postgres_mcp.Base.{ℕ, Bool, true, false, List, [], ◌∷◌, Option, if◌then◌else◌}
use netdata_postgres_mcp.Base.Text.{Bytes, str, eq_str, has_prefix}
use netdata_postgres_mcp.Base.Floats.{Float, raise}

pub record DimAgg (F : Type 0) : Type 0 where
  pub context : Bytes
  pub dimension : Bytes
  pub instance_name : Option Bytes
  pub avg : F
  pub max : F
  pub count : ℕ

-- The variables of the loop over the aggregates.
pub record Readings (F : Type 0) : Type 0 where
  pub cpu_usage_avg : F
  pub cpu_usage_max : F
  pub ram_used_avg : F
  pub ram_used_max : F
  pub disk_util_max : F
  pub iowait_avg : F
  pub swap_used_avg : F
  pub has_cpu : Bool
  pub has_ram : Bool
  pub has_disk : Bool

module _ {F : Type 0} (float : Float F) where
  abbrev pub whole : ℕ → F
  whole n = float.decimal n 0

  unfoldable pub no_readings : Readings F
  no_readings = record {
    cpu_usage_avg = whole 0;
    cpu_usage_max = whole 0;
    ram_used_avg = whole 0;
    ram_used_max = whole 0;
    disk_util_max = whole 0;
    iowait_avg = whole 0;
    swap_used_avg = whole 0;
    has_cpu = false;
    has_ram = false;
    has_disk = false;
  }

  -- case a.Context == "system.cpu"
  unfoldable pub read_cpu : Readings F → DimAgg F → Readings F
  unfolding raise
  read_cpu r a =
      let idle = eq_str a.dimension (str "idle") in
      record r {
        has_cpu = true;
        cpu_usage_avg = if idle then r.cpu_usage_avg else float.add r.cpu_usage_avg a.avg;
        cpu_usage_max = if idle then r.cpu_usage_max else raise float r.cpu_usage_max a.max;
        iowait_avg = if eq_str a.dimension (str "iowait") then a.avg else r.iowait_avg;
      }

  -- case a.Context == "system.ram"
  unfoldable pub read_ram : Readings F → DimAgg F → Readings F
  read_ram r a =
      let used = eq_str a.dimension (str "used") in
      record r {
        has_ram = true;
        ram_used_avg = if used then a.avg else r.ram_used_avg;
        ram_used_max = if used then a.max else r.ram_used_max;
      }

  -- case a.Context == "system.swap"
  unfoldable pub read_swap : Readings F → DimAgg F → Readings F
  read_swap r a = record r {
    swap_used_avg = if eq_str a.dimension (str "used") then a.avg else r.swap_used_avg;
  }

  -- case strings.HasPrefix(a.Context, "disk.util")
  unfoldable pub read_disk : Readings F → DimAgg F → Readings F
  unfolding raise
  read_disk r a = record r { has_disk = true; disk_util_max = raise float r.disk_util_max a.max }

  -- One round of the loop over the aggregates.
  unfoldable pub read_agg : Readings F → DimAgg F → Readings F
  unfolding read_cpu read_ram read_swap read_disk
  read_agg r a =
      if eq_str a.context (str "system.cpu")
      then read_cpu r a
      else if eq_str a.context (str "system.ram")
      then read_ram r a
      else if eq_str a.context (str "system.swap")
      then read_swap r a
      else if has_prefix a.context (str "disk.util")
      then read_disk r a
      else r

  unfoldable pub read_aggs : Readings F → List (DimAgg F) → Readings F
  unfolding read_agg
  read_aggs r [] = r
  read_aggs r (a ∷ aggs) = read_aggs (read_agg r a) aggs
