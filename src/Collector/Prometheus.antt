-- ===== src/Collector/Prometheus.antt =====
-- internal/collector/collector.go: `parsePrometheusLine`, `prometheusNameToContext`, `parseFloat` and
-- `parsePrometheusResponse`. `scan_float` is fmt.Sscanf with "%f", `none` for its error; a float64 is
-- its bit pattern. The map of labels is the list of its assignments, in order.
pub mod Lines
pub mod Read
use mathlib.Core.List.{reverse}
use netdata_postgres_mcp.Base.{
  ℕ, suc, ◌+◌, ◌-◌, Bool, true, false, not, ◌&&◌, ◌||◌, List, [], ◌∷◌, ◌++◌, map, Option, none,
  some, take, drop, ltb, ◌==◌, if◌then◌else◌,
}
use netdata_postgres_mcp.Base.Text.{
  Bytes, str, eq_str, is_empty, is_space, has_prefix, has_suffix, trim_suffix, index_byte,
  trim_space,
}
use netdata_postgres_mcp.Store.Sample.{MetricSample, labels_or_empty}
use netdata_postgres_mcp.Collector.Labels.{split_labels}

-- strings.Trim(s, "\"")
unfoldable pub trim_left_quotes : Bytes → Bytes
trim_left_quotes [] = []
trim_left_quotes (c ∷ s) = let rest = trim_left_quotes s in if c == b'"' then rest else c ∷ s

unfoldable pub trim_quotes : Bytes → Bytes
unfolding trim_left_quotes
trim_quotes s = reverse (trim_left_quotes (reverse (trim_left_quotes s)))

-- strings.Fields: `word` is the field that the text is in.
unfoldable pub fields_from : Bytes → Bytes → List Bytes
fields_from word [] = if is_empty word then [] else word ∷ []
fields_from word (c ∷ s) =
    let ended = fields_from [] s in
    let continued = fields_from (word ++ (c ∷ [])) s in
    if is_space c then (if is_empty word then ended else word ∷ ended) else continued

-- The first of the suffixes that the name has is cut off.
unfoldable pub cut_first : List Bytes → Bytes → Bytes
cut_first [] name = name
cut_first (suffix ∷ rest) name =
    let later = cut_first rest name in
    if has_suffix name suffix then trim_suffix name suffix else later

unfoldable pub unit_suffixes : List Bytes
unit_suffixes =
    str "_percentage"
    ∷ str "_bytes"
    ∷ str "_kilobytes"
    ∷ str "_megabytes"
    ∷ str "_seconds"
    ∷ str "_operations"
    ∷ str "_requests"
    ∷ str "_count"
    ∷ []

unfoldable pub prometheus_name_to_context : Bytes → Bytes
prometheus_name_to_context name =
    let name' =
      trim_suffix (trim_suffix (trim_suffix name (str "_average")) (str "_total")) (str "_sum") in
    cut_first unit_suffixes name'

abbrev pub add_label : List (Bytes × Bytes) → Bytes → Bytes → List (Bytes × Bytes)
add_label labels key val = labels ++ ((key, val) ∷ [])

-- sample.Labels[key] = val, and the `switch key`.
unfoldable pub set_label : MetricSample → Bytes → Bytes → MetricSample
set_label sample key val =
    let s = record sample { labels = some (add_label (labels_or_empty sample.labels) key val) } in
    if eq_str key (str "chart")
    then record s { chart = val }
    else if eq_str key (str "family")
    then record s { family = val }
    else if eq_str key (str "dimension")
    then record s { dimension = val }
    else if eq_str key (str "instance")
    then record s { instance_name = val }
    else if eq_str key (str "units")
    then record s { unit = val }
    else s

-- The key and the value of a pair, if it has a `=`.
unfoldable pub parse_pair : Bytes → Option (Bytes × Bytes)
unfolding trim_quotes
parse_pair pair = elim (index_byte pair b'=') [
  | none ↦ none
  | some eq_idx ↦
      some (trim_space (take eq_idx pair), trim_quotes (trim_space (drop (eq_idx + 1) pair)))
]

unfoldable pub set_pair : MetricSample → Bytes → MetricSample
unfolding parse_pair set_label
set_pair sample pair = elim (parse_pair pair) [
  | none ↦ sample
  | some (key, val) ↦ set_label sample key val
]

unfoldable pub set_pairs : MetricSample → List Bytes → MetricSample
unfolding set_pair
set_pairs sample [] = sample
set_pairs sample (pair ∷ pairs) = set_pairs (set_pair sample pair) pairs

-- The metric name, the text of the value, and the sample with its labels.
pub record Scanned : Type 0 where
  pub metric_name : Bytes
  pub value_str : Bytes
  pub sample : MetricSample

-- No labels.
scan_fields : MetricSample → List Bytes → Option Scanned
scan_fields sample [] = none
scan_fields sample (name ∷ []) = none
scan_fields sample (name ∷ value ∷ rest) =
    some (record { metric_name = name; value_str = value; sample = sample })

scan_labelled : MetricSample → Bytes → ℕ → ℕ → Scanned
scan_labelled sample line label_start label_end = record {
  metric_name = take label_start line;
  value_str = trim_space (drop (label_end + 1) line);
  sample =
      set_pairs sample
        (split_labels (take (label_end - (label_start + 1)) (drop (label_start + 1) line)));
}

-- labelStart >= 0 && labelEnd > labelStart; `none` is -1.
scan_braces : MetricSample → Bytes → Option ℕ → Option ℕ → Option Scanned
unfolding scan_fields fields_from scan_labelled
scan_braces sample line (some label_start) (some label_end) =
    if ltb label_start label_end
    then some (scan_labelled sample line label_start label_end)
    else scan_fields sample (fields_from [] line)
scan_braces sample line (some label_start) none = scan_fields sample (fields_from [] line)
scan_braces sample line none label_end = scan_fields sample (fields_from [] line)

unfoldable pub empty_sample : Bytes → ℕ → MetricSample
empty_sample node_id collected_at = record {
  node_id = node_id;
  collected_at = collected_at;
  context = [];
  chart = [];
  family = [];
  instance_name = [];
  dimension = [];
  unit = [];
  value = 0;
  labels = some [];
}

module _ (scan_float : Bytes → Option ℕ) where
  unfoldable pub parse_float : Bytes → Option ℕ
  parse_float s =
      let t = trim_space s in
      if eq_str t (str "+Inf") || eq_str t (str "Inf")
      then none
      else if eq_str t (str "-Inf")
      then none
      else if eq_str t (str "NaN")
      then none
      else scan_float t

  pub finish : Option Scanned → Option MetricSample
  unfolding parse_float
  finish none = none
  finish (some r) = elim (parse_float r.value_str) [
    | none ↦ none
    | some val ↦ some (record r.sample {
      context = prometheus_name_to_context r.metric_name;
      dimension = if is_empty r.sample.dimension then r.metric_name else r.sample.dimension;
      value = val;
    })
  ]

  -- The sample, if the code returns `true` with it.
  unfoldable pub parse_prometheus_line : Bytes → Bytes → ℕ → Option MetricSample
  unfolding finish scan_braces empty_sample
  parse_prometheus_line line node_id collected_at = finish (
      scan_braces (empty_sample node_id collected_at) line (index_byte line b'{')
        (index_byte line b'}'))
