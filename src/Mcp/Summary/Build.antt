-- ===== src/Mcp/Summary/Build.antt =====
-- internal/mcp/server.go: `buildSummary`. Go goes through a map in no fixed order: `order` and
-- `order_contexts` are the order of the entries in the loop of a number. sort.Slice is a parameter.
pub mod Top
use netdata_postgres_mcp.Base.{
  ℕ, ◌+◌, Bool, true, false, not, ◌&&◌, ◌||◌, List, [], ◌∷◌, ◌++◌, map, take, Option, none, some,
  if◌then◌else◌,
}
use netdata_postgres_mcp.Base.Text.{Bytes, str, eq_str, has_prefix}
use netdata_postgres_mcp.Base.Assoc.{Assoc, lookup}
use netdata_postgres_mcp.Base.Floats.{Float, round2, raise}
use netdata_postgres_mcp.Mcp.Summary.{DimStats, Stats}
use netdata_postgres_mcp.Mcp.Summary.Sections.{
  DimStat, ResourceSummary, SummaryPart, cpu_part, ram_part, util_part, Section, average, dim_stat,
  dim_stats, cpu_totals, ram_used, greatest_util, cpu_section, ram_section, disk_io_section,
  disk_util_section,
}

pub record AbnormalDimension (F : Type 0) : Type 0 where
  pub context : Bytes
  pub dimension : Bytes
  pub max_value : F
  pub avg_value : F

pub record SummaryResult (F : Type 0) : Type 0 where
  pub node_id : Bytes
  pub from : ℕ
  pub to : ℕ
  pub cpu : Option (ResourceSummary F)
  pub ram : Option (ResourceSummary F)
  pub disk_io : Option (ResourceSummary F)
  pub disk_util : Option (ResourceSummary F)
  pub top_abnormal : List (AbnormalDimension F)
  pub summary : List (SummaryPart F)

pub record AbnormalCandidate (F : Type 0) : Type 0 where
  pub ctx : Bytes
  pub dim : Bytes
  pub max : F
  pub avg : F

module _ {F : Type 0} (float : Float F) where
  -- The first context of the loop that has one of the prefixes.
  unfoldable pub first_with : List Bytes → Stats F → Option (Assoc (DimStats F))
  first_with prefixes [] = none
  first_with prefixes (e ∷ stats) =
      let rest = first_with prefixes stats in if has_any e.0 prefixes then some e.1 else rest
    where
      has_any : Bytes → List Bytes → Bool
      has_any name [] = false
      has_any name (p ∷ ps) = has_prefix name p || has_any name ps

  unfoldable pub is_ignored : Bytes → Bool
  is_ignored dim =
      eq_str dim (str "idle")
      || eq_str dim (str "free")
      || eq_str dim (str "available")
      || eq_str dim (str "cached")
      || eq_str dim (str "buffers")

  -- The candidates of a context, but for the ignored dimensions.
  unfoldable pub dim_candidates : Bytes → Assoc (DimStats F) → List (AbnormalCandidate F)
  unfolding is_ignored average
  dim_candidates ctx [] = []
  dim_candidates ctx (e ∷ dims) =
      let rest = dim_candidates ctx dims in
      if is_ignored e.0
      then rest
      else record { ctx = ctx; dim = e.0; max = e.1.max; avg = average float e.1 } ∷ rest

  unfoldable pub abnormal_dimension : AbnormalCandidate F → AbnormalDimension F
  unfolding round2
  abnormal_dimension c = record {
    context = c.ctx;
    dimension = c.dim;
    max_value = round2 float c.max;
    avg_value = round2 float c.avg;
  }

  module _ (order : ℕ → Assoc (DimStats F) → Assoc (DimStats F))
      (order_contexts : ℕ → Stats F → Stats F) where
    unfoldable pub abnormal_candidates : Stats F → List (AbnormalCandidate F)
    unfolding dim_candidates
    abnormal_candidates [] = []
    abnormal_candidates (e ∷ stats) = dim_candidates e.0 (order 7 e.1) ++ abnormal_candidates stats

    module _
        (sort : (AbnormalCandidate F → AbnormalCandidate F → Bool)
          → List (AbnormalCandidate F)
          → List (AbnormalCandidate F)) where
      unfoldable pub top_abnormal : Stats F → List (AbnormalDimension F)
      unfolding abnormal_candidates abnormal_dimension
      top_abnormal stats = map abnormal_dimension (
          take 5
            (sort (λ c d. float.less d.max c.max) (abnormal_candidates (order_contexts 6 stats))))

      unfoldable pub build_summary : Bytes → ℕ → ℕ → Stats F → SummaryResult F
      unfolding cpu_section ram_section disk_io_section disk_util_section first_with top_abnormal
      build_summary node_id from to stats =
          let on_cpu : Section F = cpu_section float order (lookup (str "system.cpu") stats) in
          let on_ram : Section F = ram_section float order (lookup (str "system.ram") stats) in
          let on_util : Section F =
            disk_util_section float order
              (first_with (str "disk.util" ∷ []) (order_contexts 5 stats)) in
          record {
            node_id = node_id;
            from = from;
            to = to;
            cpu = on_cpu.0;
            ram = on_ram.0;
            disk_io =
                disk_io_section float order
                  (first_with (str "disk.io" ∷ str "system.io" ∷ []) (order_contexts 4 stats));
            disk_util = on_util.0;
            top_abnormal = top_abnormal stats;
            summary = on_cpu.1 ++ on_ram.1 ++ on_util.1;
          }
