-- ===== src/Mcp/Summary.antt =====
-- internal/mcp/server.go: how `handleSummarize` gathers the samples of its rows, by context and
-- key. `buildSummary` is in Build.
pub mod Totals
pub mod Extremes
pub mod Keys
pub mod Sections
pub mod Order
pub mod Build
use netdata_postgres_mcp.Base.{ℕ, ◌+◌, Bool, List, [], ◌∷◌, ◌++◌, Option, none, some, if◌then◌else◌}
use netdata_postgres_mcp.Base.Text.{Bytes, str, is_empty}
use netdata_postgres_mcp.Base.Assoc.{Assoc, update}
use netdata_postgres_mcp.Base.Floats.{Float, raise}

pub record DimStats (F : Type 0) : Type 0 where
  pub sum : F
  pub count : ℕ
  pub max : F
  pub min : F

-- A row of the query.
pub record SampleRow (F : Type 0) : Type 0 where
  pub context : Bytes
  pub dimension : Bytes
  pub instance_name : Option Bytes
  pub value : F

-- The statistics by context and key.
abbrev pub Stats : Type 0 → Type 0
Stats F = Assoc (Assoc (DimStats F))

-- if inst != nil && *inst != "" { key = *inst + "/" + dim }
unfoldable pub sample_key : Option Bytes → Bytes → Bytes
sample_key none dim = dim
sample_key (some inst) dim = if is_empty inst then dim else inst ++ str "/" ++ dim

module _ {F : Type 0} (float : Float F) where
  unfoldable pub new_stats : DimStats F
  new_stats = record {
    sum = float.decimal 0 0;
    count = 0;
    max = float.decimal 0 0;
    min = float.greatest;
  }

  -- if v < m { m = v }
  unfoldable pub lower : F → F → F
  lower m v = if float.less v m then v else m

  unfoldable pub add_value : DimStats F → F → DimStats F
  unfolding raise lower
  add_value ds val = record {
    sum = float.add ds.sum val;
    count = ds.count + 1;
    max = raise float ds.max val;
    min = lower ds.min val;
  }

  unfoldable pub add_to : F → Option (DimStats F) → DimStats F
  unfolding add_value new_stats
  add_to val none = add_value new_stats val
  add_to val (some ds) = add_value ds val

  unfoldable pub add_to_dims : Bytes → F → Option (Assoc (DimStats F)) → Assoc (DimStats F)
  unfolding add_to
  add_to_dims key val none = update key (add_to val) []
  add_to_dims key val (some dims) = update key (add_to val) dims

  -- One round of the loop over the rows.
  unfoldable pub add_row : Stats F → SampleRow F → Stats F
  unfolding add_to_dims sample_key
  add_row stats row =
      update row.context (add_to_dims (sample_key row.instance_name row.dimension) row.value) stats

  -- The loop, which passes over a row that cannot be read.
  unfoldable pub add_rows : Stats F → List (Option (SampleRow F)) → Stats F
  unfolding add_row
  add_rows stats [] = stats
  add_rows stats (none ∷ rows) = add_rows stats rows
  add_rows stats (some row ∷ rows) = add_rows (add_row stats row) rows
