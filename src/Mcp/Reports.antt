-- ===== src/Mcp/Reports.antt =====
-- internal/mcp/server.go: `handleSummarize` and `handleBottlenecks`, which put the reports of Summary and
-- Bottlenecks behind the queries of their rows. PostgreSQL and sort.Slice are parameters; the second
-- query groups its rows by context, dimension and instance.
use netdata_postgres_mcp.Base.{ℕ, Bool, List, [], Option, none, some, Result, ok, err, ◌>>=◌}
use netdata_postgres_mcp.Base.Text.{Bytes, str}
use netdata_postgres_mcp.Base.Assoc.{Assoc}
use netdata_postgres_mcp.Base.Floats.{Float}
use netdata_postgres_mcp.Mcp.Select.{
  text, instant, equals, at_least, at_most, start, where_, Select, finish,
}
use netdata_postgres_mcp.Mcp.Queries.{
  ToolError, invalid_after, invalid_before, query_failed, required_time, time_or, or_default,
}
use netdata_postgres_mcp.Mcp.Queries.Answers.{Rows}
use netdata_postgres_mcp.Mcp.Queries.Answers.{readable}
use netdata_postgres_mcp.Mcp.Bottlenecks.{Candidate, BottleneckResult, detect_bottlenecks}
use netdata_postgres_mcp.Mcp.Readings.{DimAgg}
use netdata_postgres_mcp.Mcp.Summary.{DimStats, SampleRow, Stats, add_rows}
use netdata_postgres_mcp.Mcp.Summary.Build.{AbnormalCandidate, SummaryResult, build_summary}

unfoldable pub summarize_select : Bytes → ℕ → ℕ → Select
unfolding where_ finish
summarize_select node_id after before =
    finish (str "hardware_metric_samples") (str "context, dimension") (
      where_ (str "collected_at") at_most (instant before) (
        where_ (str "collected_at") at_least (instant after)
          (where_ (str "node_id") equals (text node_id) start)))

unfoldable pub bottlenecks_select : Bytes → ℕ → Select
unfolding where_ finish
bottlenecks_select node_id after =
    finish (str "hardware_metric_samples") (str "context, dimension") (
      where_ (str "collected_at") at_least (instant after)
        (where_ (str "node_id") equals (text node_id) start))

module _ {F : Type 0} (float : Float F) where
  module _ (sort : (Candidate F → Candidate F → Bool) → List (Candidate F) → List (Candidate F))
      (parse : Bytes → Option ℕ) (run : Select → Option (Rows (DimAgg F))) where
    abbrev pub bottlenecks_of :
        Bytes → Option (Rows (DimAgg F)) → Result ToolError (BottleneckResult F)
    bottlenecks_of node_id none = err query_failed
    bottlenecks_of node_id (some rows) =
        ok (detect_bottlenecks float sort node_id (readable rows.scans))

    -- handleBottlenecks; `parse` is parseTimeArg, `run` is s.pool.Query.
    unfoldable pub handle_bottlenecks : Bytes → Bytes → Result ToolError (BottleneckResult F)
    unfolding detect_bottlenecks readable bottlenecks_select required_time or_default
    handle_bottlenecks node_id after = do
      t ← required_time parse invalid_after (or_default (str "-15m") after)
      bottlenecks_of node_id (run (bottlenecks_select node_id t))

  module _ (order : ℕ → Assoc (DimStats F) → Assoc (DimStats F))
      (order_contexts : ℕ → Stats F → Stats F)
      (sort : (AbnormalCandidate F → AbnormalCandidate F → Bool)
        → List (AbnormalCandidate F)
        → List (AbnormalCandidate F))
      (parse parse' : Bytes → Option ℕ) (run : Select → Option (Rows (SampleRow F))) where
    abbrev pub summary_of :
        Bytes → ℕ → ℕ → Option (Rows (SampleRow F)) → Result ToolError (SummaryResult F)
    summary_of node_id from to none = err query_failed
    summary_of node_id from to (some rows) = ok (
        build_summary float order order_contexts sort node_id from to
          (add_rows float [] rows.scans))

    -- handleSummarize; `now` is time.Now.
    unfoldable pub handle_summarize : ℕ → Bytes → Bytes → Bytes → Result ToolError (SummaryResult F)
    unfolding build_summary add_rows summarize_select required_time time_or or_default
    handle_summarize now node_id after before = do
      from ← required_time parse invalid_after (or_default (str "-1h") after)
      to ← time_or parse' invalid_before now before
      summary_of node_id from to (run (summarize_select node_id from to))
