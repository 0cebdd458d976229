-- ===== src/Collector/Response/Enabled.antt =====
-- Which lines of a Prometheus response internal/collector/collector.go makes samples of.
use netdata_postgres_mcp.Base.{
  ℕ, ◌≡◌, refl, true, ◌||◌, List, [], ◌∷◌, All, All-append, Option, none, some, Bool-cases, inl,
  inr,
}
use netdata_postgres_mcp.Base.Text.{Bytes, str, is_empty, has_prefix, split, trim_space}
use netdata_postgres_mcp.Store.Sample.{MetricSample}
use netdata_postgres_mcp.Collector.Prometheus.{parse_prometheus_line}
use netdata_postgres_mcp.Collector.Response.{
  enabled_set, is_matched, line_samples, parse_lines, parse_prometheus_response,
}

module _ (scan_float : Bytes → Option ℕ) (contexts : List Bytes) (node_id : Bytes) (at : ℕ) where
  -- The sample has an enabled prefix, and is read from one of the lines.
  abbrev pub IsEnabled : MetricSample → Type 0
  IsEnabled s =
      (is_matched (enabled_set contexts) s.context ≡ true)
      × ((line : Bytes) × (parse_prometheus_line scan_float line node_id at ≡ some s))

  line_samples-IsEnabled :
      (line : Bytes) (o : Option MetricSample)
      → parse_prometheus_line scan_float line node_id at ≡ o
      → All IsEnabled (line_samples scan_float contexts node_id at o)
  line_samples-IsEnabled line none e = tt
  line_samples-IsEnabled line (some s) e =
      elim (Bool-cases (is_matched (enabled_set contexts) s.context)) [
        | inl m ↦ rw m ((m, (line, e)), tt)
        | inr m ↦ rw m tt
      ]

  parse_lines-IsEnabled :
      (lines : List Bytes) → All IsEnabled (parse_lines scan_float contexts node_id at lines)
  unfolding parse_lines
  parse_lines-IsEnabled [] = tt
  parse_lines-IsEnabled (l ∷ lines) =
      let rest = parse_lines-IsEnabled lines in
      elim (Bool-cases (is_empty (trim_space l) || has_prefix (trim_space l) (str "#"))) [
        | inl e ↦ rw e rest
        | inr e ↦
            rw e (All-append IsEnabled _ _ (line_samples-IsEnabled (trim_space l) _ refl) rest)
      ]

  -- Every sample of a response has a context with an enabled prefix, and is what
  -- `parsePrometheusLine` reads in some line.
  pub parse_prometheus_response-IsEnabled :
      (body : Bytes) → All IsEnabled (parse_prometheus_response scan_float contexts node_id at body)
  unfolding parse_prometheus_response
  parse_prometheus_response-IsEnabled body = parse_lines-IsEnabled (split b'\n' body)
