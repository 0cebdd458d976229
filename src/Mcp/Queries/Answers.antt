-- ===== src/Mcp/Queries/Answers.antt =====
-- What the tools of internal/mcp/server.go, rollup.go and cardinality.go answer with the rows of
-- their statements. PostgreSQL is a parameter: `none` is an error of Query, and a row that Scan cannot
-- read is `none` too.
pub mod Whole
pub mod Limits
use netdata_postgres_mcp.Base.{
  ℕ, ℤ, Bool, List, [], ◌∷◌, map, Option, none, some, Result, ok, err, ◌>>=◌, length, if◌then◌else◌,
}
use netdata_postgres_mcp.Base.Text.{Bytes}
use netdata_postgres_mcp.Base.Floats.{Float, round2}
use netdata_postgres_mcp.Mcp.Select.{Select}
use netdata_postgres_mcp.Mcp.Queries.{
  ToolError, invalid_after, invalid_before, query_failed, scan_failed, iteration_failed, no_data,
  QueryArgs, latest_select, cardinality_select, query_select, required_time, time_or,
  rollup_between, select_rollup_table,
}

-- The rows that Next goes through, and whether rows.Err is an error when it has ended.
pub record Rows (R : Type 0) : Type 0 where
  pub scans : List (Option R)
  pub broken : Bool

-- The rows that can be read; the others are passed over.
unfoldable pub readable : {A : Type 0} → List (Option A) → List A
readable [] = []
readable (none ∷ rows) = readable rows
readable (some p ∷ rows) = p ∷ readable rows

pub record RollupRow (F : Type 0) : Type 0 where
  pub node_id : Bytes
  pub bucket : ℕ
  pub context : Bytes
  pub dimension : Bytes
  pub instance_name : Bytes
  pub unit : Bytes
  pub avg_value : F
  pub min_value : F
  pub max_value : F
  pub sample_count : ℕ

pub record RollupResult (F : Type 0) : Type 0 where
  pub node_id : Bytes
  pub source : Bytes
  pub from : ℕ
  pub to : ℕ
  pub row_count : ℕ
  pub rows : List (RollupRow F)

module _ {R : Type 0} where
  -- for rows.Next() { … }, which returns at a row that cannot be read
  unfoldable pub scan_all : List (Option R) → Result ToolError (List R)
  scan_all [] = ok []
  scan_all (none ∷ scans) = err scan_failed
  scan_all (some r ∷ scans) = scan_all scans >>= λ rs. ok (r ∷ rs)

  abbrev pub if_whole : Bool → List R → Result ToolError (List R)
  if_whole broken rs = if broken then err iteration_failed else ok rs

  abbrev pub if_any : List R → Result ToolError (List R)
  if_any [] = err no_data
  if_any (r ∷ rs) = ok (r ∷ rs)

  -- The rows of a query that may have failed, as the tools for the latest values, for samples and for
  -- rollups read them.
  unfoldable pub answer_rows : Option (Rows R) → Result ToolError (List R)
  unfolding scan_all
  answer_rows none = err query_failed
  answer_rows (some rows) = scan_all rows.scans

  -- handleListNodes
  unfoldable pub handle_list_nodes : Option (Rows R) → Result ToolError (List R)
  unfolding scan_all
  handle_list_nodes none = err query_failed
  handle_list_nodes (some rows) = scan_all rows.scans >>= if_whole rows.broken

  -- handleLatestMetrics; `run` is s.pool.Query.
  unfoldable pub handle_latest_metrics :
      (Select → Option (Rows R)) → Bytes → Bytes → Result ToolError (List R)
  unfolding answer_rows latest_select
  handle_latest_metrics run node_id contexts = answer_rows (run (latest_select node_id contexts))

-- `parse` is parseTimeArg at the time of the call, for `after` and for `before`; `run` is s.pool.Query.
module _ {R : Type 0} (parse parse' : Bytes → Option ℕ) (run : Select → Option (Rows R)) where
  -- handleCardinality
  unfoldable pub handle_cardinality : ℕ → Bytes → Bytes → Result ToolError (List R)
  unfolding answer_rows cardinality_select
  handle_cardinality now node_id after =
      cardinality_select parse parse' now node_id after >>= λ s. answer_rows (run s) >>= if_any

  module _ {F : Type 0} (is_positive : F → Bool) (to_int : F → ℤ) where
    -- handleQueryMetrics
    unfoldable pub handle_query_metrics : QueryArgs F → Result ToolError (List R)
    unfolding answer_rows query_select
    handle_query_metrics a =
        query_select parse parse' is_positive to_int a >>= λ s. answer_rows (run s)

-- handleQueryRollup, whose rows have the values of the limit's type.
module _ {F : Type 0} (parse parse' : Bytes → Option ℕ) (run : Select → Option (Rows (RollupRow F)))
    (is_positive : F → Bool) (to_int : F → ℤ) (float : Float F) where
  unfoldable pub round_row : RollupRow F → RollupRow F
  unfolding round2
  round_row r = record r {
    avg_value = round2 float r.avg_value;
    min_value = round2 float r.min_value;
    max_value = round2 float r.max_value;
  }

  unfoldable pub rollup_answer : QueryArgs F → ℕ → ℕ → Result ToolError (RollupResult F)
  unfolding answer_rows rollup_between select_rollup_table round_row
  rollup_answer a after before = do
    rs ← answer_rows (run (rollup_between parse parse' is_positive to_int a after before))
    ok (record {
      node_id = a.node_id;
      source = (select_rollup_table after before).1;
      from = after;
      to = before;
      row_count = length rs;
      rows = map round_row rs;
    })

  -- `now` is time.Now.
  unfoldable pub handle_query_rollup : ℕ → QueryArgs F → Result ToolError (RollupResult F)
  unfolding rollup_answer time_or required_time
  handle_query_rollup now a = do
    after ← required_time parse invalid_after a.after
    before ← time_or parse' invalid_before now a.before
    rollup_answer a after before
