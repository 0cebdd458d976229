-- ===== src/Collector/Prometheus/Lines.antt =====
-- What `parsePrometheusLine` of internal/collector/collector.go reads in a line with labels.
use mathlib.Core.List.{reverse, reverse-append, reverse-cons, reverse-reverse, foldl, append_assoc}
use native.Mathlib.Nat.{suc-add}
use netdata_postgres_mcp.Base.{
  ℕ, ◌+◌, ◌-◌, ◌≡◌, refl, ◌∙◌, ap, true, false, List, [], ◌∷◌, ◌++◌, map, length, length-append,
  All, All-append, Option, some, take, drop, ltb, lt→ltb, ◌==◌, arith,
}
use netdata_postgres_mcp.Base.Text.{Bytes, is_space, index_byte, trim_left_space, trim_space}
use netdata_postgres_mcp.Store.Sample.{MetricSample}
use netdata_postgres_mcp.Collector.Runes.{IsUtf8}
use netdata_postgres_mcp.Collector.Labels.Quoted.{
  IsLabel, label_text, label_list, split_labels-label_list,
}
use netdata_postgres_mcp.Collector.Prometheus.{
  trim_left_quotes, trim_quotes, parse_pair, set_label, set_pair, set_pairs, empty_sample,
  scan_labelled, scan_braces, finish, parse_prometheus_line,
}

-- A byte of a key: not a space and not `=`.
abbrev pub IsKey : ℕ → Type 0
IsKey c = (is_space c ≡ false) × ((c == b'=') ≡ false)

abbrev pub Without : ℕ → Bytes → Type 0
Without c = All (λ (x : ℕ). (x == c) ≡ false)

index_byte-append :
    (c : ℕ) (s rest : Bytes) → Without c s → index_byte (s ++ (c ∷ rest)) c ≡ some (length s)
unfolding index_byte
index_byte-append c [] rest h = ground arith
index_byte-append c (x ∷ s) rest h = rw (h.0, index_byte-append c s rest h.1) refl

take_append : (s rest : Bytes) → take (length s) (s ++ rest) ≡ s
take_append [] rest = refl
take_append (x ∷ s) rest = rw (take_append s rest)

drop_append : (s rest : Bytes) (c : ℕ) → drop (length s + 1) (s ++ (c ∷ rest)) ≡ rest
drop_append [] rest c = refl
drop_append (x ∷ s) rest c = rw suc-add (drop_append s rest c)

All-reverse : (P : ℕ → Type 0) (s : Bytes) → All P s → All P (reverse s)
All-reverse P [] h = tt
All-reverse P (x ∷ s) h =
    rw (reverse-cons x s) (All-append P (reverse s) (x ∷ []) (All-reverse P s h.1) (h.0, tt))

trim_left_space-All : (s : Bytes) → All (λ (c : ℕ). is_space c ≡ false) s → trim_left_space s ≡ s
unfolding trim_left_space
trim_left_space-All [] h = refl
trim_left_space-All (c ∷ s) h = rw h.0

trim_space-All : (s : Bytes) → All (λ (c : ℕ). is_space c ≡ false) s → trim_space s ≡ s
unfolding trim_space
trim_space-All s h =
    rw (trim_left_space-All s h, trim_left_space-All (reverse s) (All-reverse _ s h))
      (reverse-reverse s)

trim_left_quotes-All : (s : Bytes) → Without b'"' s → trim_left_quotes s ≡ s
unfolding trim_left_quotes
trim_left_quotes-All [] h = refl
trim_left_quotes-All (c ∷ s) h = rw h.0

reverse-quoted :
    (val : Bytes) → reverse (b'"' ∷ (val ++ (b'"' ∷ []))) ≡ b'"' ∷ (reverse val ++ (b'"' ∷ []))
reverse-quoted val =
    reverse-cons b'"' (val ++ (b'"' ∷ []))
    ∙ ap (λ (t : Bytes). t ++ (b'"' ∷ [])) (reverse-append val (b'"' ∷ []))

trim_space-quoted :
    (val : Bytes) → trim_space (b'"' ∷ (val ++ (b'"' ∷ []))) ≡ b'"' ∷ (val ++ (b'"' ∷ []))
unfolding trim_space trim_left_space is_space
trim_space-quoted val =
    rw (reverse-quoted val) (reverse-quoted (reverse val) ∙ rw (reverse-reverse val))

-- No byte of the value is a quote, so that the two quotes around it are all that is trimmed.
trim_quotes-quoted :
    (val : Bytes) → Without b'"' val → trim_quotes (b'"' ∷ (val ++ (b'"' ∷ []))) ≡ val
unfolding trim_quotes trim_left_quotes
trim_quotes-quoted [] h = refl
trim_quotes-quoted (c ∷ val) h = rw h.0 (
    ap (λ (t : Bytes). reverse (trim_left_quotes t)) (reverse-append (c ∷ val) (b'"' ∷ []))
    ∙ ap reverse (trim_left_quotes-All (reverse (c ∷ val)) (All-reverse _ (c ∷ val) h))
    ∙ reverse-reverse (c ∷ val))

abbrev pub IsPair : Bytes × Bytes → Type 0
IsPair (key, val) = All IsKey key × Without b'"' val

All-space : (key : Bytes) → All IsKey key → All (λ (c : ℕ). is_space c ≡ false) key
All-space [] h = tt
All-space (c ∷ key) h = (h.0.0, All-space key h.1)

All-equals : (key : Bytes) → All IsKey key → Without b'=' key
All-equals [] h = tt
All-equals (c ∷ key) h = (h.0.1, All-equals key h.1)

-- The key and the value of `key="value"`.
parse_pair-label_text : (l : Bytes × Bytes) → IsPair l → parse_pair (label_text l) ≡ some l
unfolding parse_pair
parse_pair-label_text (key, val) h =
    let quoted : Bytes = b'"' ∷ (val ++ (b'"' ∷ [])) in
    rw
      (
        parse_pair,
        index_byte-append b'=' key quoted (All-equals key h.0),
        take_append key (b'=' ∷ quoted),
        drop_append key quoted b'=',
        trim_space-All key (All-space key h.0),
        trim_space-quoted val,
        trim_quotes-quoted val h.1,
      )
      refl

-- The sample after its labels.
abbrev pub labelled : MetricSample → List (Bytes × Bytes) → MetricSample
labelled = foldl λ s (key, val). set_label s key val

set_pair-label_text :
    (s : MetricSample) (l : Bytes × Bytes)
    → IsPair l
    → set_pair s (label_text l) ≡ set_label s l.0 l.1
unfolding set_pair
set_pair-label_text s l h = rw (set_pair, parse_pair-label_text l h) refl

set_pairs-labelled :
    (ls : List (Bytes × Bytes)) (s : MetricSample)
    → All IsPair ls
    → set_pairs s (map label_text ls) ≡ labelled s ls
unfolding set_pairs
set_pairs-labelled [] s h = refl
set_pairs-labelled (l ∷ ls) s h =
    ap (λ (t : MetricSample). set_pairs t (map label_text ls)) (set_pair-label_text s l h.0)
    ∙ set_pairs-labelled ls (set_label s l.0 l.1) h.1

-- name{labels} value
abbrev pub metric_line : Bytes → List (Bytes × Bytes) → Bytes → Bytes
metric_line name ls value = name ++ (b'{' ∷ (label_list ls ++ (b'}' ∷ (b' ' ∷ value))))

-- The parts of a line before its closing brace and after it.
module _ (name : Bytes) (ls : List (Bytes × Bytes)) (value : Bytes) where
  abbrev before : Bytes
  before = name ++ (b'{' ∷ label_list ls)

  line-before : metric_line name ls value ≡ before ++ (b'}' ∷ (b' ' ∷ value))
  line-before = rw (append_assoc name (b'{' ∷ label_list ls) (b'}' ∷ (b' ' ∷ value)))

  closes : Without b'}' before → index_byte (metric_line name ls value) b'}' ≡ some (length before)
  closes h = rw line-before (index_byte-append b'}' before (b' ' ∷ value) h)

  after_close : drop (length before + 1) (metric_line name ls value) ≡ b' ' ∷ value
  after_close = rw line-before (drop_append before (b' ' ∷ value) b'}')

  inside :
      take (length before - (length name + 1)) (drop (length name + 1) (metric_line name ls value))
      ≡ label_list ls
  inside =
      let n : length before - (length name + 1) ≡ length (label_list ls) =
        omega (arith, length-append name (b'{' ∷ label_list ls)) in
      rw (drop_append name (label_list ls ++ (b'}' ∷ (b' ' ∷ value))) b'{', n)
        (take_append (label_list ls) (b'}' ∷ (b' ' ∷ value)))

  scan_labelled-metric_line :
      (s : MetricSample)
      → IsUtf8 (label_list ls)
      → All IsLabel ls
      → All IsPair ls
      → scan_labelled s (metric_line name ls value) (length name) (length before) ≡ record {
        metric_name = name;
        value_str = trim_space (b' ' ∷ value);
        sample = labelled s ls;
      }
  unfolding scan_labelled
  scan_labelled-metric_line s u l p =
      rw
        (
          take_append name (b'{' ∷ (label_list ls ++ (b'}' ∷ (b' ' ∷ value)))),
          after_close,
          inside,
          split_labels-label_list ls u l,
          set_pairs-labelled ls s p,
        )
        refl

-- The line is read as its name, its labels' effect on an empty sample, and the value's text.
pub parse_line-scanned :
    (scan_float : Bytes → Option ℕ) (name : Bytes) (ls : List (Bytes × Bytes))
    (value node_id : Bytes) (at : ℕ)
    → Without b'{' name
    → Without b'}' (name ++ (b'{' ∷ label_list ls))
    → IsUtf8 (label_list ls)
    → All IsLabel ls
    → All IsPair ls
    → parse_prometheus_line scan_float (metric_line name ls value) node_id at
      ≡ finish scan_float (
          some (record {
            metric_name = name;
            value_str = trim_space (b' ' ∷ value);
            sample = labelled (empty_sample node_id at) ls;
          }))
unfolding parse_prometheus_line scan_braces
parse_line-scanned scan_float name ls value node_id at h k u l p =
    let opens = index_byte-append b'{' name (label_list ls ++ (b'}' ∷ (b' ' ∷ value))) h in
    let ordered : ltb (length name) (length (before name ls value)) ≡ true =
      lt→ltb _ _ (omega (arith, length-append name (b'{' ∷ label_list ls))) in
    rw
      (
        opens,
        closes name ls value k,
        scan_braces,
        ordered,
        scan_labelled-metric_line name ls value (empty_sample node_id at) u l p,
      )
      refl
