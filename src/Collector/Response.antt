-- ===== src/Collector/Response.antt =====
-- internal/collector/collector.go: `parsePrometheusResponse` and `Collect`. The set of the enabled
-- prefixes is a list; it is only asked whether one of them is a prefix.
pub mod Enabled
use netdata_postgres_mcp.Base.{
  ℕ, Bool, true, false, ◌||◌, List, [], ◌∷◌, ◌++◌, map, Option, none, some, length, Result, ok, err,
  ◌==◌, if◌then◌else◌,
}
use netdata_postgres_mcp.Base.Text.{Bytes, str, is_empty, has_prefix, split, trim_space}
use netdata_postgres_mcp.Store.Sample.{MetricSample}
use netdata_postgres_mcp.Collector.Prometheus.{parse_prometheus_line}

-- strings.ReplaceAll(ctx, ".", "_")
unfoldable pub dots_to_underscores : Bytes → Bytes
dots_to_underscores = map (λ c. if c == b'.' then b'_' else c)

-- The keys of enabledSet.
unfoldable pub enabled_set : List Bytes → List Bytes
enabled_set [] = []
enabled_set (ctx ∷ contexts) =
    (str "netdata_" ++ dots_to_underscores ctx) ∷ ctx ∷ enabled_set contexts

unfoldable pub is_matched : List Bytes → Bytes → Bool
is_matched [] context = false
is_matched (prefix ∷ prefixes) context = has_prefix context prefix || is_matched prefixes context

module _ (scan_float : Bytes → Option ℕ) (contexts : List Bytes) (node_id : Bytes)
    (collected_at : ℕ) where
  -- What a line adds to the samples.
  abbrev pub line_samples : Option MetricSample → List MetricSample
  line_samples none = []
  line_samples (some sample) =
      if is_matched (enabled_set contexts) sample.context then sample ∷ [] else []

  unfoldable pub parse_lines : List Bytes → List MetricSample
  parse_lines [] = []
  parse_lines (l ∷ lines) =
      let line = trim_space l in
      let rest = parse_lines lines in
      if is_empty line || has_prefix line (str "#")
      then rest
      else line_samples (parse_prometheus_line scan_float line node_id collected_at) ++ rest

  unfoldable pub parse_prometheus_response : Bytes → List MetricSample
  unfolding parse_lines
  parse_prometheus_response body = parse_lines (split b'\n' body)

-- Collect, over the results of `collectJSON` and `collectPrometheus`.
unfoldable pub collect :
    {E : Type 0}
    → Result E (List MetricSample)
    → Result E (List MetricSample)
    → Result E (List MetricSample)
collect (err e) prometheus = prometheus
collect (ok samples) prometheus = if length samples == 0 then prometheus else ok samples
