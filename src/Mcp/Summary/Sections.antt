-- ===== src/Mcp/Summary/Sections.antt =====
-- internal/mcp/server.go: the sections of `buildSummary`. Go goes through a map in no fixed order: `order` is
-- the order of the entries in the loop of a number. A part of the summary's text is kept as the
-- numbers that it is formatted from.
use netdata_postgres_mcp.Base.{ℕ, List, [], ◌∷◌, map, Option, none, some, if◌then◌else◌}
use netdata_postgres_mcp.Base.Text.{str, eq_str}
use netdata_postgres_mcp.Base.Assoc.{Assoc}
use netdata_postgres_mcp.Base.Floats.{Float, round2, raise}
use netdata_postgres_mcp.Mcp.Summary.{DimStats}

pub record DimStat (F : Type 0) : Type 0 where
  pub avg : F
  pub max : F
  pub min : F

pub record ResourceSummary (F : Type 0) : Type 0 where
  pub average_percent : F
  pub peak_percent : F
  pub dimensions : Assoc (DimStat F)

pub data SummaryPart (F : Type 0) : Type 0 where
  cpu_part : F → F → SummaryPart F
  ram_part : F → F → SummaryPart F
  util_part : F → SummaryPart F

-- A section of the summary and what it adds to the text.
abbrev pub Section : Type 0 → Type 0
Section F = Option (ResourceSummary F) × List (SummaryPart F)

module _ {F : Type 0} (float : Float F) where
  -- ds.Sum / float64(ds.Count)
  unfoldable pub average : DimStats F → F
  average ds = float.div ds.sum (float.decimal ds.count 0)

  unfoldable pub dim_stat : DimStats F → DimStat F
  unfolding average round2
  dim_stat ds = record {
    avg = round2 float (average ds);
    max = round2 float ds.max;
    min = round2 float ds.min;
  }

  -- The entries of `Dimensions`.
  unfoldable pub dim_stats : Assoc (DimStats F) → Assoc (DimStat F)
  unfolding dim_stat
  dim_stats dims = map (λ e. (e.0, dim_stat e.1)) dims

  -- totalAvg and totalMax, over the dimensions but the idle one
  unfoldable pub cpu_totals : F × F → Assoc (DimStats F) → F × F
  unfolding average raise
  cpu_totals total [] = total
  cpu_totals total (e ∷ dims) =
      cpu_totals
        (if eq_str e.0 (str "idle")
          then total
          else (float.add total.0 (average e.1), raise float total.1 e.1.max))
        dims

  -- usedAvg and usedMax
  unfoldable pub ram_used : F × F → Assoc (DimStats F) → F × F
  unfolding average
  ram_used used [] = used
  ram_used used (e ∷ dims) =
      ram_used (if eq_str e.0 (str "used") then (average e.1, e.1.max) else used) dims

  -- maxUtil
  unfoldable pub greatest_util : F → Assoc (DimStats F) → F
  unfolding raise
  greatest_util m [] = m
  greatest_util m (e ∷ dims) = greatest_util (raise float m e.1.max) dims

  -- `order` goes with every loop, which has its number.
  module _ (order : ℕ → Assoc (DimStats F) → Assoc (DimStats F)) where
    unfoldable pub cpu_section : Option (Assoc (DimStats F)) → Section F
    unfolding cpu_totals dim_stats round2
    cpu_section none = (none, [])
    cpu_section (some dims) =
        let total = cpu_totals (float.decimal 0 0, float.decimal 0 0) (order 0 dims) in
        (
          some (record {
            average_percent = round2 float total.0;
            peak_percent = round2 float total.1;
            dimensions = dim_stats (order 0 dims);
          }),
          cpu_part total.0 total.1 ∷ [],
        )

    unfoldable pub ram_section : Option (Assoc (DimStats F)) → Section F
    unfolding ram_used dim_stats round2
    ram_section none = (none, [])
    ram_section (some dims) =
        let used = ram_used (float.decimal 0 0, float.decimal 0 0) (order 1 dims) in
        (
          some (record {
            average_percent = round2 float used.0;
            peak_percent = round2 float used.1;
            dimensions = dim_stats (order 1 dims);
          }),
          ram_part used.0 used.1 ∷ [],
        )

    unfoldable pub disk_io_section : Option (Assoc (DimStats F)) → Option (ResourceSummary F)
    unfolding dim_stats
    disk_io_section none = none
    disk_io_section (some dims) = some (record {
      average_percent = float.decimal 0 0;
      peak_percent = float.decimal 0 0;
      dimensions = dim_stats (order 2 dims);
    })

    unfoldable pub disk_util_section : Option (Assoc (DimStats F)) → Section F
    unfolding dim_stats greatest_util round2
    disk_util_section none = (none, [])
    disk_util_section (some dims) =
        let m = greatest_util (float.decimal 0 0) (order 3 dims) in
        (
          some (record {
            average_percent = float.decimal 0 0;
            peak_percent = round2 float m;
            dimensions = dim_stats (order 3 dims);
          }),
          util_part m ∷ [],
        )
