-- ===== src/Mcp/Queries/Filters.antt =====
-- What the statements of the query tools of internal/mcp ask for, whatever placeholders they number.
use mathlib.Core.List.{append-nil}
use netdata_postgres_mcp.Base.{
  ℕ, ℤ, pos, ◌-◌, ◌*◌, ◌≡◌, refl, Bool, List, [], ◌∷◌, ◌++◌, map, Option, none, some, Result, ok,
  err, ◌>>=◌, if◌then◌else◌, Bool-cases, Option-cases, inl, inr,
}
use netdata_postgres_mcp.Base.Text.{Bytes, str, is_empty, split, trim_space}
use netdata_postgres_mcp.Mcp.Select.{
  Value, text, texts, instant, number, labels, Operator, equals, any_of, at_least, at_most,
  contains_labels, Builder, start, where_, where_text, Select, finish, finish_limit,
}
use netdata_postgres_mcp.Mcp.Select.Meaning.{
  Filter, Means, start-Means, where_-Means, if_given, where_text-Means, Asks, finish-Asks,
  finish_limit-Asks,
}
use netdata_postgres_mcp.Mcp.Queries.{
  ToolError, invalid_after, invalid_before, label_filter, where_pairs, where_labels, where_time,
  time_or, QueryArgs, at_most_5000, latest_select, select_rollup_table, hour, cardinality_select,
  limit_or, query_select, rollup_between,
}

-- The statement asks for what it should, or the tool ends with the error that it should.
abbrev pub Agrees :
    Bytes → Option Value → Result ToolError Select → Result ToolError (List Filter) → Type 0
Agrees table limit (ok s) (ok fs) = Asks s table fs limit
Agrees table limit (err e) (err e') = e ≡ e'
Agrees table limit (ok s) (err e) = ⊥
Agrees table limit (err e) (ok fs) = ⊥

abbrev pub labels_given : List (Bytes × Bytes) → List Filter
labels_given [] = []
labels_given (p ∷ ps) = (str "labels", contains_labels, labels (p ∷ ps)) ∷ []

abbrev pub labels_asked : Bytes → List Filter
labels_asked s = if is_empty s then [] else labels_given (label_filter s)

abbrev pub time_asked : Bytes → Operator → ToolError → Option ℕ → Result ToolError (List Filter)
time_asked column op e none = err e
time_asked column op e (some t) = ok ((column, op, instant t) ∷ [])

abbrev pub time_filters :
    (Bytes → Option ℕ) → ToolError → Bytes → Operator → Bytes → Result ToolError (List Filter)
time_filters parse e column op s = if is_empty s then ok [] else time_asked column op e (parse s)

where_labels-Means :
    (s : Bytes) (b : Builder) (fs : List Filter)
    → Means b fs
    → Means (where_labels s b) (fs ++ labels_asked s)
unfolding where_labels
where_labels-Means s b fs m = elim (Bool-cases (is_empty s)) [
  | inl e ↦ rw (e, append-nil fs) m
  | inr e ↦ rw e (pairs (label_filter s))
]
  where
    pairs : (ps : List (Bytes × Bytes)) → Means (where_pairs ps b) (fs ++ labels_given ps)
    pairs [] = rw (append-nil fs) m
    pairs (p ∷ ps) = where_-Means (str "labels") contains_labels (labels (p ∷ ps)) b fs m

-- A time that may be left out, and what follows it.
where_time-Agrees :
    (parse : Bytes → Option ℕ) (e : ToolError) (column : Bytes) (op : Operator) (s : Bytes)
    (table : Bytes) (limit : Option Value) (b : Builder) (fs : List Filter)
    (next : Builder → Result ToolError Select)
    (asked : List Filter → Result ToolError (List Filter))
    → Means b fs
    → ((b' : Builder) (fs' : List Filter) → Means b' fs' → Agrees table limit (next b') (asked fs'))
    → Agrees table limit
        (where_time parse e column op s b >>= next)
        (time_filters parse e column op s >>= λ more. asked (fs ++ more))
unfolding where_time
where_time-Agrees parse e column op s table limit b fs next asked m k =
    elim (Bool-cases (is_empty s)) [
      | inl z ↦ rw (z, append-nil fs) (k b fs m)
      | inr p ↦ elim (Option-cases (parse s)) [
        | inl n ↦ rw (p, n) refl
        | inr (t, q) ↦ rw (p, q) (k _ _ (where_-Means column op (instant t) b fs m))
      ]
    ]

-- The tool for the latest values asks the view of them, by the node if one is given, and by the
-- trimmed contexts if any are.
pub latest_select-Asks :
    (node_id contexts : Bytes)
    → Asks
        (latest_select node_id contexts)
        (str "hardware_latest_metrics")
        (if_given (str "node_id") node_id
          ++ (if is_empty contexts
              then []
              else (str "context", any_of, texts (map trim_space (split b',' contexts))) ∷ []))
        none
unfolding latest_select
latest_select-Asks node_id contexts =
    let m = where_text-Means (str "node_id") node_id start [] start-Means in
    elim (Bool-cases (is_empty contexts)) [
      | inl z ↦ rw (z, append-nil) (finish-Asks _ _ _ _ m)
      | inr p ↦ rw p (finish-Asks _ _ _ _ (where_-Means (str "context") any_of _ _ _ m))
    ]

module _ (parse parse' : Bytes → Option ℕ) where
  -- The tool for cardinalities counts the samples since the time that is given, by default a day ago, of
  -- the node if one is given; a time that cannot be read is an error.
  pub cardinality_select-Agrees :
      (now : ℕ) (node_id after : Bytes)
      → Agrees
          (str "hardware_metric_samples")
          none
          (cardinality_select parse parse' now node_id after)
          (time_or parse invalid_after (now - 24 * hour) after >>= λ t.
            ok (
              ((str "collected_at", at_least, instant t) ∷ []) ++ if_given (str "node_id") node_id))
  unfolding cardinality_select
  cardinality_select-Agrees now node_id after =
      bound (time_or parse invalid_after (now - 24 * hour) after)
    where
      bound :
          (r : Result ToolError ℕ)
          → Agrees
              (str "hardware_metric_samples")
              none
              (r >>= λ t. ok (
                finish (str "hardware_metric_samples") (str "node_id") (
                  where_text
                    (str "node_id")
                    node_id
                    (where_ (str "collected_at") at_least (instant t) start))))
              (r >>= λ t. ok (
                ((str "collected_at", at_least, instant t) ∷ [])
                ++ if_given (str "node_id") node_id))
      bound (err e) = refl
      bound (ok t) = finish-Asks _ _ _ _ (
          where_text-Means (str "node_id") node_id _ _
            (where_-Means (str "collected_at") at_least (instant t) start [] start-Means))

  module _ {F : Type 0} (is_positive : F → Bool) (to_int : F → ℤ) where
    abbrev pub limit_asked : QueryArgs F → Option Value
    limit_asked a =
        some (number (at_most_5000 (limit_or parse parse' is_positive to_int (pos 500) a.limit)))

    -- What the tool for samples is asked.
    abbrev pub query_asked : QueryArgs F → Result ToolError (List Filter)
    query_asked a =
        time_filters parse invalid_after (str "collected_at") at_least a.after >>= λ since.
        time_filters parse' invalid_before (str "collected_at") at_most a.before >>= λ until. ok (
          ((((((if_given (str "node_id") a.node_id ++ if_given (str "context") a.context)
                    ++ if_given (str "dimension") a.dimension)
                  ++ if_given (str "instance") a.instance_name)
                ++ labels_asked a.labels_str)
              ++ since)
            ++ until))

    -- The tool for samples asks for those of the given node, context, dimension, instance and labels,
    -- between the given times, each filter left out whose argument is empty, every
    -- placeholder standing for its own argument, and for at most 5000 rows; a time
    -- that cannot be read is an error, that of `after` first.
    pub query_select-Agrees :
        (a : QueryArgs F)
        → Agrees
            (str "hardware_metric_samples")
            (limit_asked a)
            (query_select parse parse' is_positive to_int a)
            (query_asked a)
    unfolding query_select
    query_select-Agrees a =
        where_time-Agrees parse invalid_after (str "collected_at") at_least a.after samples
          (limit_asked a) _ _
          (λ b.
            where_time parse' invalid_before (str "collected_at") at_most a.before b >>= finished)
          asked_until
          (where_labels-Means a.labels_str _ _ (
            where_text-Means (str "instance") a.instance_name _ _ (
              where_text-Means (str "dimension") a.dimension _ _ (
                where_text-Means (str "context") a.context _ _
                  (where_text-Means (str "node_id") a.node_id start [] start-Means)))))
          (λ b fs m.
            where_time-Agrees parse' invalid_before (str "collected_at") at_most a.before samples
              (limit_asked a) b fs finished (λ fs'. ok fs') m
              (λ b' fs' m'. finish_limit-Asks samples (str "collected_at DESC") most b' fs' m'))
      where
        samples : Bytes
        samples = str "hardware_metric_samples"

        most : ℤ
        most = at_most_5000 (limit_or parse parse' is_positive to_int (pos 500) a.limit)

        finished : Builder → Result ToolError Select
        finished b = ok (finish_limit samples (str "collected_at DESC") most b)

        asked_until : List Filter → Result ToolError (List Filter)
        asked_until fs =
            time_filters parse' invalid_before (str "collected_at") at_most a.before >>= λ until.
            ok (fs ++ until)

    -- What the tool for rollups is asked, over a range of times.
    abbrev pub rollup_filters : QueryArgs F → ℕ → ℕ → List Filter
    rollup_filters a after before =
        (str "node_id", equals, text a.node_id)
        ∷ (str "bucket", at_least, instant after)
        ∷ (str "bucket", at_most, instant before)
        ∷ []

    -- The tool for rollups asks the table that fits the range for the rows of the node in the range, of the
    -- context, dimension and instance that are given, and for at most 5000 rows.
    pub rollup_between-Asks :
        (a : QueryArgs F) (after before : ℕ)
        → Asks
            (rollup_between parse parse' is_positive to_int a after before)
            (select_rollup_table after before).0
            (((rollup_filters a after before ++ if_given (str "context") a.context)
                ++ if_given (str "dimension") a.dimension)
              ++ if_given (str "instance") a.instance_name)
            (limit_asked a)
    unfolding rollup_between
    rollup_between-Asks a after before =
        finish_limit-Asks (select_rollup_table after before).0 (str "bucket DESC")
          (at_most_5000 (limit_or parse parse' is_positive to_int (pos 500) a.limit)) _ _
          (where_text-Means (str "instance") a.instance_name _ _ (
            where_text-Means (str "dimension") a.dimension _ _ (
              where_text-Means (str "context") a.context _ _ (
                where_-Means (str "bucket") at_most (instant before) _ _ (
                  where_-Means (str "bucket") at_least (instant after) _ _
                    (where_-Means (str "node_id") equals (text a.node_id) start [] start-Means))))))
