-- ===== src/Collector/Tests.antt =====
-- internal/collector/collector.go on lines of a Netdata agent. The floats that are scanned are the
-- numbers of one digit.
use netdata_postgres_mcp.Base.{
  ℕ, ◌-◌, ◌≡◌, if◌then◌else◌, List, [], ◌∷◌, All, Option, none, some, true, refl, arith,
}
use netdata_postgres_mcp.Base.Text.{
  Bytes, str, is_space, is_empty, index_byte, split_n, trim_left_space, trim_space,
}
use netdata_postgres_mcp.Store.Sample.{MetricSample}
use netdata_postgres_mcp.Collector.Json.{
  number, Entry, to_float64, if_named, grouped_entry, grouped_samples, parse_json_response,
}
use netdata_postgres_mcp.Collector.Json.Named.{IsNamed, parse_json_response-IsNamed}
use netdata_postgres_mcp.Collector.Labels.Quoted.{IsLabel, label_list}
use netdata_postgres_mcp.Collector.Runes.{IsUtf8, rune_text, rune_rest, followers, starts_within}
use netdata_postgres_mcp.Collector.Prometheus.{
  parse_prometheus_line, parse_float, prometheus_name_to_context, empty_sample,
}
use netdata_postgres_mcp.Collector.Prometheus.Lines.{IsPair, metric_line}
use netdata_postgres_mcp.Collector.Prometheus.Read.{last_value, parse_prometheus_line-metric_line}

abbrev scan_digit : Bytes → Option ℕ
scan_digit (c ∷ []) = some (c - 48)
scan_digit _ = none

-- chart="a,b" and dimension="user"
abbrev labels : List (Bytes × Bytes)
labels = (str "chart", str "a,b") ∷ (str "dimension", str "user") ∷ []

labels-IsUtf8 : IsUtf8 (label_list labels)
unfolding rune_text rune_rest followers starts_within str
labels-IsUtf8 = refl

-- A byte that is no UTF-8 is replaced.
rune_text_invalid : rune_text 0 (97 ∷ 255 ∷ 195 ∷ 169 ∷ []) ≡ 97 ∷ 239 ∷ 191 ∷ 189 ∷ 195 ∷ 169 ∷ []
unfolding rune_text rune_rest followers starts_within
rune_text_invalid = refl

labels-IsLabel : All IsLabel labels
unfolding str
labels-IsLabel = ground arith

labels-IsPair : All IsPair labels
unfolding str is_space
labels-IsPair = ground arith

parse_prometheus_line-metric_line_example :
    parse_prometheus_line scan_digit (metric_line (str "netdata_cpu") labels (str "7")) (str "n1") 9
    ≡ elim (parse_float scan_digit (trim_space (b' ' ∷ str "7"))) [
      | none ↦ none
      | some val ↦ some (record {
        node_id = str "n1";
        collected_at = 9;
        context = prometheus_name_to_context (str "netdata_cpu");
        chart = last_value (str "chart") [] labels;
        family = last_value (str "family") [] labels;
        instance_name = last_value (str "instance") [] labels;
        dimension =
            if is_empty (last_value (str "dimension") [] labels)
            then str "netdata_cpu"
            else last_value (str "dimension") [] labels;
        unit = last_value (str "units") [] labels;
        value = val;
        labels = some labels;
      })
    ]
unfolding str
parse_prometheus_line-metric_line_example =
    parse_prometheus_line-metric_line scan_digit (str "netdata_cpu") labels (str "7") (str "n1") 9
      (ground arith) (ground arith) labels-IsUtf8 labels-IsLabel labels-IsPair

-- A response of one entry with one value, as the grouped shape.
abbrev decode_entry : Bytes → Option (List Entry)
decode_entry body =
    some (record { key = str "system.load,load1,n7,"; labels = none; point = number 5 ∷ [] } ∷ [])

abbrev load_sample : MetricSample
load_sample = record (empty_sample (str "n1") 9) {
  context = str "system.load";
  dimension = str "load1";
  value = 5;
  labels = none;
}

parse_json_response-IsNamed_example : All (IsNamed (str "n1") 9) (load_sample ∷ [])
unfolding parse_json_response grouped_samples grouped_entry to_float64 if_named split_n index_byte
    trim_space trim_left_space is_space is_empty str empty_sample
parse_json_response-IsNamed_example =
    parse_json_response-IsNamed (str "n1") 9 (λ n. true) (λ n. n) decode_entry (λ body. none)
      (λ body. none) [] (load_sample ∷ []) refl
