-- ===== src/Mcp/Natural.antt =====
-- internal/mcp/nlquery.go: the tool for queries in plain English. The text of the rounded window is a
-- parameter; the texts are ASCII.
pub mod Windows
use Prim.Native.String.{String}
use netdata_postgres_mcp.Base.{ℕ, ℤ, Bool, ◌||◌, List, [], ◌∷◌, ◌++◌, Option, Result, if◌then◌else◌}
use netdata_postgres_mcp.Base.Text.{Bytes, str, contains, to_lower}
use netdata_postgres_mcp.Mcp.Select.{Select}
use netdata_postgres_mcp.Mcp.Queries.{ToolError, QueryArgs}
use netdata_postgres_mcp.Mcp.Queries.Answers.{Rows, handle_query_metrics}

pub record NlQueryPlan : Type 0 where
  pub original_query : Bytes
  pub interpretation : Bytes
  pub context : Bytes
  pub dimension : Bytes
  pub after : Bytes
  pub node_id : Bytes

-- The time extraction, on the lower-case text.
unfoldable pub window : Bytes → Bytes
window q =
    if contains q (str "last week") || contains q (str "past week") || contains q (str "7 day")
    then str "-168h"
    else if contains q (str "last month")
        || contains q (str "past month")
        || contains q (str "30 day")
    then str "-720h"
    else if contains q (str "last 3 day")
        || contains q (str "past 3 day")
        || contains q (str "3 days")
    then str "-72h"
    else if contains q (str "last 24") || contains q (str "past 24") || contains q (str "yesterday")
    then str "-24h"
    else if contains q (str "last 12") || contains q (str "past 12")
    then str "-12h"
    else if contains q (str "last 6") || contains q (str "past 6")
    then str "-6h"
    else if contains q (str "last 2 hour") || contains q (str "past 2 hour")
    then str "-2h"
    else if contains q (str "last 30") || contains q (str "past 30")
    then str "-30m"
    else if contains q (str "last 15") || contains q (str "past 15") || contains q (str "15 min")
    then str "-15m"
    else if contains q (str "last 5") || contains q (str "past 5") || contains q (str "5 min")
    then str "-5m"
    else str "-1h"

unfoldable pub cpu_dimension : Bytes → Bytes
cpu_dimension q =
    if contains q (str "user")
    then str "user"
    else if contains q (str "system") || contains q (str "kernel")
    then str "system"
    else if contains q (str "iowait") || contains q (str "io wait")
    then str "iowait"
    else []

unfoldable pub ram_dimension : Bytes → Bytes
ram_dimension q =
    if contains q (str "used")
    then str "used"
    else if contains q (str "free")
    then str "free"
    else []

unfoldable pub io_dimension : Bytes → Bytes
io_dimension q =
    if contains q (str "read")
    then str "reads"
    else if contains q (str "write")
    then str "writes"
    else []

-- The context, what it is, and the dimension.
pub record Topic : Type 0 where
  pub context : Bytes
  pub interpretation : Bytes
  pub dimension : Bytes

abbrev pub topic : String → String → Bytes → Topic
topic context interpretation dimension = record {
  context = str context;
  interpretation = str interpretation;
  dimension = dimension;
}

-- The context extraction, on the lower-case text.
unfoldable pub topic_of : Bytes → Topic
unfolding cpu_dimension ram_dimension io_dimension
topic_of q =
    if contains q (str "cpu")
    then topic "system.cpu" "CPU usage metrics" (cpu_dimension q)
    else if contains q (str "ram") || contains q (str "memory") || contains q (str "mem")
    then topic "system.ram" "RAM usage metrics" (ram_dimension q)
    else if contains q (str "swap")
    then topic "system.swap" "Swap usage metrics" []
    else if contains q (str "disk space")
        || contains q (str "storage")
        || contains q (str "disk.space")
    then topic "disk.space" "Disk space metrics" []
    else if contains q (str "disk io")
        || contains q (str "disk read")
        || contains q (str "disk write")
    then topic "disk.io" "Disk I/O throughput" (io_dimension q)
    else if contains q (str "disk util") || contains q (str "disk busy")
    then topic "disk.util" "Disk utilization percentage" []
    else if contains q (str "disk")
    then topic "disk.io" "Disk I/O metrics" []
    else if contains q (str "network") || contains q (str "net") || contains q (str "bandwidth")
    then topic "system.ip" "Network IP traffic" []
    else if contains q (str "io") || contains q (str "i/o")
    then topic "system.io" "System I/O metrics" []
    else topic "system.cpu" "Defaulting to CPU metrics (could not determine specific context)" []

-- `since` is the text of the time since a start, rounded to minutes.
module _ (since : Bytes → Bytes) where
  unfoldable pub parse_natural_query : Bytes → Bytes → NlQueryPlan
  unfolding window topic_of
  parse_natural_query query node_id =
      let q = to_lower query in
      let about = topic_of q in
      record {
        original_query = query;
        interpretation = about.interpretation ++ str " over the last " ++ since (window q);
        context = about.context;
        dimension = about.dimension;
        after = window q;
        node_id = node_id;
      }

  -- `parse`, `parse'` and `run` are what handleQueryMetrics uses, `zero` is its limit, which is missing.
  module _ {R F : Type 0} (parse parse' : Bytes → Option ℕ) (run : Select → Option (Rows R))
      (is_positive : F → Bool) (to_int : F → ℤ) (zero : F) where
    abbrev pub fake_req : NlQueryPlan → QueryArgs F
    fake_req plan = record {
      node_id = plan.node_id;
      context = plan.context;
      dimension = plan.dimension;
      instance_name = [];
      labels_str = [];
      after = plan.after;
      before = [];
      limit = zero;
    }

    -- The plan and the results.
    unfoldable pub handle_natural_query : Bytes → Bytes → NlQueryPlan × Result ToolError (List R)
    unfolding parse_natural_query handle_query_metrics
    handle_natural_query query node_id =
        let plan = parse_natural_query query node_id in
        (plan, handle_query_metrics parse parse' run is_positive to_int (fake_req plan))
