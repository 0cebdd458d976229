-- ===== src/Mcp/Queries.antt =====
-- internal/mcp/server.go, rollup.go and cardinality.go: the statements of the tools that query samples,
-- and what the tools answer. An argument that is missing is empty. The readings of the clock and the
-- conversions of a number argument are parameters.
pub mod Filters
pub mod Answers
use mathlib.Core.List.{flat_map}
use netdata_postgres_mcp.Base.{
  ℕ, ℤ, pos, negsuc, ◌+◌, ◌-◌, ◌*◌, Bool, true, false, List, [], ◌∷◌, ◌++◌, map, take, drop, Option,
  none, some, Result, ok, err, ◌>>=◌, ltb, if◌then◌else◌,
}
use netdata_postgres_mcp.Base.Text.{Bytes, str, is_empty, index_byte, split, trim_space}
use netdata_postgres_mcp.Mcp.Select.{
  Value, text, texts, instant, number, labels, Operator, equals, any_of, at_least, at_most,
  contains_labels, Builder, start, where_, where_text, Select, finish, finish_limit,
}

-- The texts that the tools answer with in place of rows.
pub data ToolError : Type 0 where
  invalid_after invalid_before query_failed scan_failed iteration_failed no_data : ToolError

-- strings.SplitN(pair, "=", 2), if it has two parts.
abbrev pub cut_pair : Bytes → Option ℕ → List (Bytes × Bytes)
cut_pair pair none = []
cut_pair pair (some i) = (trim_space (take i pair), trim_space (drop (i + 1) pair)) ∷ []

unfoldable pub label_pair : Bytes → List (Bytes × Bytes)
label_pair pair = cut_pair pair (index_byte pair b'=')

-- The assignments to `labelMap`, the last of a key counts; `[]` for no clause.
unfoldable pub label_filter : Bytes → List (Bytes × Bytes)
unfolding label_pair
label_filter s =
    let trimmed = trim_space s in
    if is_empty trimmed then [] else flat_map label_pair (split b',' trimmed)

abbrev pub where_pairs : List (Bytes × Bytes) → Builder → Builder
where_pairs [] b = b
where_pairs (p ∷ ps) b = where_ (str "labels") contains_labels (labels (p ∷ ps)) b

-- if labelsStr != "" { … }
unfoldable pub where_labels : Bytes → Builder → Builder
unfolding label_filter
where_labels s b = if is_empty s then b else where_pairs (label_filter s) b

abbrev pub where_instant :
    ToolError → Bytes → Operator → Option ℕ → Builder → Result ToolError Builder
where_instant e column op none b = err e
where_instant e column op (some t) b = ok (where_ column op (instant t) b)

-- if s != "" { t, err := parseTimeArg(s) … }
unfoldable pub where_time :
    (Bytes → Option ℕ) → ToolError → Bytes → Operator → Bytes → Builder → Result ToolError Builder
where_time parse e column op s b =
    if is_empty s then ok b else where_instant e column op (parse s) b

-- A time that must be one, and one that has a default.
unfoldable pub required_time : (Bytes → Option ℕ) → ToolError → Bytes → Result ToolError ℕ
required_time parse e s = elim (parse s) [ none ↦ err e | some t ↦ ok t ]

unfoldable pub time_or : (Bytes → Option ℕ) → ToolError → ℕ → Bytes → Result ToolError ℕ
unfolding required_time
time_or parse e default s = if is_empty s then ok default else required_time parse e s

unfoldable pub or_default : Bytes → Bytes → Bytes
or_default default s = if is_empty s then default else s

pub record QueryArgs (F : Type 0) : Type 0 where
  pub node_id : Bytes
  pub context : Bytes
  pub dimension : Bytes
  pub instance_name : Bytes
  pub labels_str : Bytes
  pub after : Bytes
  pub before : Bytes
  pub limit : F

-- if limit > 5000 { limit = 5000 }
unfoldable pub at_most_5000 : ℤ → ℤ
at_most_5000 (pos n) = if ltb 5000 n then pos 5000 else pos n
at_most_5000 (negsuc n) = negsuc n

-- handleLatestMetrics
unfoldable pub latest_select : Bytes → Bytes → Select
unfolding where_text where_
latest_select node_id contexts =
    let b = where_text (str "node_id") node_id start in
    let b' =
      if is_empty contexts
      then b
      else where_ (str "context") any_of (texts (map trim_space (split b',' contexts))) b in
    finish (str "hardware_latest_metrics") (str "node_id, context, instance, dimension") b'

-- selectRollupTable, for the range from `after` to `before`.
abbrev pub hour : ℕ
hour = 3600000000000

unfoldable pub select_rollup_table : ℕ → ℕ → Bytes × Bytes
select_rollup_table after before =
    if ltb (after + 7 * 24 * hour) before
    then (str "hardware_metric_rollups_1d", str "daily")
    else if ltb (after + 6 * hour) before
    then (str "hardware_metric_rollups_1h", str "hourly")
    else (str "hardware_metric_rollups_1h", str "hourly")

-- `parse` is parseTimeArg at the time of the call, for `after` and for `before`.
module _ (parse parse' : Bytes → Option ℕ) where
  -- handleCardinality; `now` is time.Now.
  unfoldable pub cardinality_select : ℕ → Bytes → Bytes → Result ToolError Select
  unfolding time_or
  cardinality_select now node_id after = do
    t ← time_or parse invalid_after (now - 24 * hour) after
    ok (
        finish (str "hardware_metric_samples") (str "node_id") (
          where_text (str "node_id") node_id
            (where_ (str "collected_at") at_least (instant t) start)))

  -- limitF > 0, and int(limitF).
  module _ {F : Type 0} (is_positive : F → Bool) (to_int : F → ℤ) where
    unfoldable pub limit_or : ℤ → F → ℤ
    limit_or default f = if is_positive f then to_int f else default

    -- handleQueryMetrics
    unfoldable pub query_select : QueryArgs F → Result ToolError Select
    unfolding where_labels where_time limit_or
    query_select a = do
      b ← where_time parse invalid_after (str "collected_at") at_least a.after (
          where_labels a.labels_str (
            where_text (str "instance") a.instance_name (
              where_text (str "dimension") a.dimension (
                where_text (str "context") a.context
                  (where_text (str "node_id") a.node_id start)))))
      b' ← where_time parse' invalid_before (str "collected_at") at_most a.before b
      ok (
          finish_limit (str "hardware_metric_samples") (str "collected_at DESC")
            (at_most_5000 (limit_or (pos 500) a.limit)) b')

    -- handleQueryRollup, over the times that it takes; `now` is time.Now.
    unfoldable pub rollup_between : QueryArgs F → ℕ → ℕ → Select
    unfolding select_rollup_table limit_or
    rollup_between a after before =
        finish_limit (select_rollup_table after before).0 (str "bucket DESC")
          (at_most_5000 (limit_or (pos 500) a.limit))
          (where_text (str "instance") a.instance_name (
            where_text (str "dimension") a.dimension (
              where_text (str "context") a.context (
                where_ (str "bucket") at_most (instant before) (
                  where_ (str "bucket") at_least (instant after)
                    (where_ (str "node_id") equals (text a.node_id) start))))))

    unfoldable pub rollup_select : ℕ → QueryArgs F → Result ToolError Select
    unfolding rollup_between time_or required_time
    rollup_select now a = do
      after ← required_time parse invalid_after a.after
      before ← time_or parse' invalid_before now a.before
      ok (rollup_between a after before)
