-- ===== src/RemoteWrite/Ingest/Rows.antt =====
-- The rows that `ingest` of internal/remotewrite/handler.go makes of the time series, described by
-- selection and mapping.
use mathlib.Core.List.{flat_map}
use netdata_postgres_mcp.Base.{
  ◌≡◌, ap, refl, true, false, not, List, [], ◌∷◌, map, keep, last_or, if◌then◌else◌, Bool-cases,
  inl, inr,
}
use netdata_postgres_mcp.Base.Text.{Bytes, str, eq_str, eq_str→eq, is_empty}
use netdata_postgres_mcp.RemoteWrite.Parse.{PrLabel, PrSample, PrTimeSeries}
use netdata_postgres_mcp.RemoteWrite.Ingest.{
  Row, metric_to_context, is_nan_or_inf, scan_labels, nanoseconds, sample_rows, series_rows,
  rows_of,
}

-- The value of the last label of a name, empty if there is none.
abbrev pub label_value : Bytes → List PrLabel → Bytes → Bytes
label_value name ls default =
    last_or default (map (λ l. l.value) (keep (λ (l : PrLabel). eq_str l.name name) ls))

abbrev pub row_of : Bytes → Bytes → PrSample → Row
row_of name inst s = record {
  collected_at = nanoseconds s.timestamp_ms;
  context = metric_to_context name;
  dimension = name;
  instance_name = inst;
  value = s.value;
}

abbrev pub described : PrTimeSeries → List Row
described ts =
    let name = label_value (str "__name__") ts.labels [] in
    if is_empty name
    then []
    else map (row_of name (label_value (str "instance") ts.labels []))
        (keep (λ (s : PrSample). not (is_nan_or_inf s.value)) ts.samples)

not_both : (n : Bytes) → eq_str n (str "__name__") ≡ true → eq_str n (str "instance") ≡ false
unfolding eq_str str
not_both n h = rw (eq_str→eq n (str "__name__") h) refl

scan_labels-label_value :
    (ls : List PrLabel) (name inst : Bytes)
    → scan_labels ls name inst
      ≡ (label_value (str "__name__") ls name, label_value (str "instance") ls inst)
unfolding scan_labels
scan_labels-label_value [] name inst = refl
scan_labels-label_value (l ∷ ls) name inst = elim (Bool-cases (eq_str l.name (str "__name__"))) [
  | inl named ↦ rw (named, not_both l.name named) (scan_labels-label_value ls l.value inst)
  | inr unnamed ↦ elim (Bool-cases (eq_str l.name (str "instance"))) [
    | inl e ↦ rw (unnamed, e) (scan_labels-label_value ls name l.value)
    | inr e ↦ rw (unnamed, e) (scan_labels-label_value ls name inst)
  ]
]

sample_rows-keep :
    (name inst : Bytes) (ss : List PrSample)
    → sample_rows name inst ss
      ≡ map (row_of name inst) (keep (λ (s : PrSample). not (is_nan_or_inf s.value)) ss)
unfolding sample_rows
sample_rows-keep name inst [] = refl
sample_rows-keep name inst (s ∷ ss) = elim (Bool-cases (is_nan_or_inf s.value)) [
  | inl e ↦ rw e (sample_rows-keep name inst ss)
  | inr e ↦
      rw e (ap (λ (rest : List Row). row_of name inst s ∷ rest) (sample_rows-keep name inst ss))
]

series_rows-described : (ts : PrTimeSeries) → series_rows ts ≡ described ts
unfolding series_rows
series_rows-described ts = rw (scan_labels-label_value ts.labels [] [], sample_rows-keep) refl

-- The rows are, series by series and sample by sample in order, one for each sample whose value is
-- neither NaN nor infinite in a series that has a metric name: the values of the last labels
-- `__name__` and `instance`, the context of the name, and the sample's time and value.
pub rows_of-described : (series : List PrTimeSeries) → rows_of series ≡ flat_map described series
unfolding rows_of flat_map
rows_of-described [] = refl
rows_of-described (ts ∷ rest) = rw (series_rows-described ts, rows_of-described rest)
