-- ===== src/Mcp/Tests.antt =====
-- internal/mcp on small data, with whole numbers for the floats and insertion sort for sort.Slice.
mod Numbers
use netdata_postgres_mcp.Base.{
  ℕ, zero, suc, ℤ, pos, negsuc, ◌≡◌, ◌≢◌, refl, Bool, true, false, List, [], ◌∷◌, ◌++◌, map, take,
  Option, none, some, Result, err, All, ltb, ◌==◌, if◌then◌else◌,
}
use netdata_postgres_mcp.Base.Text.{Bytes, str, is_empty, eq_str, has_prefix}
use netdata_postgres_mcp.Base.Floats.{Float, IsOrdered}
use netdata_postgres_mcp.Base.Floats.Whole.{whole_numbers}
use netdata_postgres_mcp.Mcp.Select.{Value, number, Select}
use netdata_postgres_mcp.Mcp.Select.Meaning.{limit_of}
use netdata_postgres_mcp.Mcp.Queries.{QueryArgs, query_select, iteration_failed}
use netdata_postgres_mcp.Mcp.Queries.Filters.{Agrees, query_asked, limit_asked, query_select-Agrees}
use netdata_postgres_mcp.Mcp.Queries.Answers.{
  Rows, RollupRow, handle_list_nodes, handle_latest_metrics, handle_query_metrics,
  handle_cardinality, handle_query_rollup,
}
use netdata_postgres_mcp.Mcp.Queries.Answers.Whole.{ended, answer_rows_partial}
use netdata_postgres_mcp.Mcp.Times.{parse_time_arg}
use netdata_postgres_mcp.Mcp.Natural.{parse_natural_query, handle_natural_query}
use netdata_postgres_mcp.Mcp.Natural.Windows.{
  ReadsDurations, PlanAnswer, handle_natural_query-PlanAnswer,
}

-- Every text but the empty one is a time, and every float is a whole number.
abbrev at_five : Bytes → Option ℕ
at_five s = if is_empty s then none else some 5

abbrev is_positive : ℕ → Bool
is_positive n = ltb 0 n

abbrev query : QueryArgs ℕ
query = record {
  node_id = str "n1";
  context = str "system.cpu";
  dimension = [];
  instance_name = [];
  labels_str = str "mode=idle";
  after = str "-1h";
  before = [];
  limit = 9000;
}

query_select-Agrees_example :
    Agrees
      (str "hardware_metric_samples")
      (limit_asked at_five at_five is_positive pos query)
      (query_select at_five at_five is_positive pos query)
      (query_asked at_five at_five is_positive pos query)
query_select-Agrees_example = query_select-Agrees at_five at_five is_positive pos query

abbrev nodes : Rows ℕ
nodes = record { scans = some 1 ∷ some 2 ∷ []; broken = false }

abbrev first_node : List ℕ
first_node = 1 ∷ []

-- Two rows, whatever is asked.
abbrev two_rows : Select → Option (Rows ℕ)
two_rows s = some nodes

abbrev no_rollups : Select → Option (Rows (RollupRow ℕ))
no_rollups s = some (record { scans = []; broken = false })

answer_rows_partial_example :
    (handle_latest_metrics (λ s. ended true (two_rows s)) (str "n1") (str "-1h")
      ≡ handle_latest_metrics (λ s. ended false (two_rows s)) (str "n1") (str "-1h"))
    × ((handle_query_metrics at_five at_five (λ s. ended true (two_rows s)) is_positive pos query
          ≡ handle_query_metrics at_five at_five
              (λ s. ended false (two_rows s))
              is_positive
              pos
              query)
        × ((handle_cardinality at_five at_five
                (λ s. ended true (two_rows s))
                9
                (str "n1")
                (str "-1h")
              ≡ handle_cardinality at_five at_five
                  (λ s. ended false (two_rows s))
                  9
                  (str "n1")
                  (str "-1h"))
            × ((handle_query_rollup at_five at_five
                    (λ s. ended true (no_rollups s))
                    is_positive
                    pos
                    whole_numbers
                    9
                    query
                  ≡ handle_query_rollup at_five at_five
                      (λ s. ended false (no_rollups s))
                      is_positive
                      pos
                      whole_numbers
                      9
                      query)
                × (handle_list_nodes (some (record { scans = map some first_node; broken = true }))
                    ≡ err iteration_failed))))
answer_rows_partial_example =
    answer_rows_partial at_five at_five two_rows no_rollups is_positive pos whole_numbers 9 query
      (str "n1") (str "-1h") first_node

-- A table of one row, which LIMIT 0 leaves out.
abbrev rows_for : Option Value → Option (Rows ℕ)
rows_for (some (number (pos zero))) = some (record { scans = []; broken = false })
rows_for (some (number (pos (suc n)))) = some (record { scans = some 7 ∷ []; broken = false })
rows_for _ = none

abbrev one_row : Select → Option (Rows ℕ)
one_row s = rows_for (limit_of s)

abbrev seven : List ℕ
seven = 7 ∷ []

abbrev an_hour : Bytes → Option ℤ
an_hour s = some (pos 3600000000000)

abbrev no_layout : Bytes → Bytes → Option ℕ
no_layout layout s = none

abbrev same : Bytes → Bytes
same s = s

abbrev readable : ReadsDurations an_hour
readable = (
  (3600000000000, refl),
  (
    (3600000000000, refl),
    (
      (3600000000000, refl),
      (
        (3600000000000, refl),
        (
          (3600000000000, refl),
          (
            (3600000000000, refl),
            (
              (3600000000000, refl),
              (
                (3600000000000, refl),
                ((3600000000000, refl), ((3600000000000, refl), ((3600000000000, refl), tt))),
              ),
            ),
          ),
        ),
      ),
    ),
  ),
)

handle_natural_query-PlanAnswer_example :
    PlanAnswer an_hour no_layout readable same 9000000000000 at_five one_row is_positive pos 0 refl
      (parse_natural_query same (str "CPU usage last hour") (str "n1"))
      (handle_natural_query same
        (parse_time_arg an_hour no_layout 9000000000000)
        at_five
        one_row
        is_positive
        pos
        0
        (str "CPU usage last hour")
        (str "n1")).1
handle_natural_query-PlanAnswer_example =
    handle_natural_query-PlanAnswer an_hour no_layout readable same 9000000000000 at_five one_row
      is_positive pos 0 refl (str "CPU usage last hour") (str "n1")
