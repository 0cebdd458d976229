-- ===== src/Collector/Prometheus/Read.antt =====
-- The sample that `parsePrometheusLine` of internal/collector/collector.go makes of a line with labels.
use mathlib.Core.List.{append_assoc, append-nil}
use netdata_postgres_mcp.Base.{
  ℕ, ◌≡◌, refl, ◌∙◌, ap, Bool-cases, inl, inr, List, [], ◌∷◌, ◌++◌, All, Option, none, some,
  if◌then◌else◌,
}
use netdata_postgres_mcp.Base.Text.{Bytes, str, eq_str, eq_str→eq, is_empty, trim_space}
use netdata_postgres_mcp.Store.Sample.{MetricSample, labels_or_empty}
use netdata_postgres_mcp.Collector.Runes.{IsUtf8}
use netdata_postgres_mcp.Collector.Labels.Quoted.{IsLabel, label_list}
use netdata_postgres_mcp.Collector.Prometheus.{
  set_label, empty_sample, parse_float, finish, prometheus_name_to_context, parse_prometheus_line,
}
use netdata_postgres_mcp.Collector.Prometheus.Lines.{
  Without, IsPair, labelled, metric_line, parse_line-scanned,
}

-- The value of the last label with a key, or what is given if there is none.
pub last_value : Bytes → Bytes → List (Bytes × Bytes) → Bytes
last_value key given [] = given
last_value key given ((k, val) ∷ ls) = last_value key (if eq_str k key then val else given) ls

-- A sample with labels written over it.
abbrev written : MetricSample → List (Bytes × Bytes) → MetricSample
written s ls = record s {
  chart = last_value (str "chart") s.chart ls;
  family = last_value (str "family") s.family ls;
  dimension = last_value (str "dimension") s.dimension ls;
  instance_name = last_value (str "instance") s.instance_name ls;
  unit = last_value (str "units") s.unit ls;
  labels = some (labels_or_empty s.labels ++ ls);
}

set_label-written :
    (s : MetricSample) (key val : Bytes) → set_label s key val ≡ written s ((key, val) ∷ [])
unfolding set_label last_value eq_str str
set_label-written s key val = elim (Bool-cases (eq_str key (str "chart"))) [
  | inl e ↦ rw (eq_str→eq key (str "chart") e) refl
  | inr a ↦ elim (Bool-cases (eq_str key (str "family"))) [
    | inl e ↦ rw (eq_str→eq key (str "family") e) refl
    | inr b ↦ elim (Bool-cases (eq_str key (str "dimension"))) [
      | inl e ↦ rw (eq_str→eq key (str "dimension") e) refl
      | inr c ↦ elim (Bool-cases (eq_str key (str "instance"))) [
        | inl e ↦ rw (eq_str→eq key (str "instance") e) refl
        | inr d ↦ elim (Bool-cases (eq_str key (str "units"))) [
          | inl e ↦ rw (eq_str→eq key (str "units") e) refl
          | inr u ↦ rw (a, b, c, d, u) refl
        ]
      ]
    ]
  ]
]

labelled-written :
    (ls : List (Bytes × Bytes)) (s : MetricSample) (before : List (Bytes × Bytes))
    → s.labels ≡ some before
    → labelled s ls ≡ written s ls
unfolding last_value
labelled-written [] s before h = λ i. record s { labels = kept i }
  where
    kept : s.labels ≡ some (labels_or_empty s.labels ++ [])
    kept = rw (h, append-nil before) refl
labelled-written ((key, val) ∷ ls) s before h =
    ap (λ (t : MetricSample). labelled t ls) (set_label-written s key val)
    ∙ labelled-written ls (written s ((key, val) ∷ [])) (before ++ ((key, val) ∷ [])) (rw h refl)
    ∙ (λ i. record (written s ((key, val) ∷ ls)) {
      labels = some (append_assoc (labels_or_empty s.labels) ((key, val) ∷ []) ls i);
    })

-- A line `name{key="value",…} value` in valid UTF-8, with no braces in the name and the labels, no
-- spaces, quotes, commas, backslashes or `=` in the keys and no quotes or backslashes in the
-- values, is read if its number can be: the sample has the context of the name, all the labels in
-- order, and in each of five fields the value of the last label with that field's key, but the
-- name for a missing or empty dimension.
pub parse_prometheus_line-metric_line :
    (scan_float : Bytes → Option ℕ) (name : Bytes) (ls : List (Bytes × Bytes))
    (value node_id : Bytes) (at : ℕ)
    → Without b'{' name
    → Without b'}' (name ++ (b'{' ∷ label_list ls))
    → IsUtf8 (label_list ls)
    → All IsLabel ls
    → All IsPair ls
    → parse_prometheus_line scan_float (metric_line name ls value) node_id at
      ≡ elim (parse_float scan_float (trim_space (b' ' ∷ value))) [
        | none ↦ none
        | some val ↦ some (record {
          node_id = node_id;
          collected_at = at;
          context = prometheus_name_to_context name;
          chart = last_value (str "chart") [] ls;
          family = last_value (str "family") [] ls;
          instance_name = last_value (str "instance") [] ls;
          dimension =
              if is_empty (last_value (str "dimension") [] ls)
              then name
              else last_value (str "dimension") [] ls;
          unit = last_value (str "units") [] ls;
          value = val;
          labels = some ls;
        })
      ]
unfolding empty_sample finish
parse_prometheus_line-metric_line scan_float name ls value node_id at h k u l p =
    parse_line-scanned scan_float name ls value node_id at h k u l p
    ∙ rw (labelled-written ls (empty_sample node_id at) [] refl) refl
