-- ===== src/Mcp/Natural/Windows.antt =====
-- Every text of internal/mcp/nlquery.go makes a statement, whose start is a duration that can be read.
use mathlib.Core.List.{append-nil}
use netdata_postgres_mcp.Base.{
  ℕ, ℤ, pos, ◌-◌, ◌≡◌, refl, ap, Bool, true, false, List, [], ◌∷◌, ◌++◌, Option, some, Result, ok,
  err, ◌>>=◌, All, if◌then◌else◌,
}
use netdata_postgres_mcp.Base.Text.{Bytes, str, is_empty, to_lower, trim_space}
use netdata_postgres_mcp.Mcp.Times.{parse_time_arg}
use netdata_postgres_mcp.Mcp.Times.Relative.{parse_time_arg_duration}
use netdata_postgres_mcp.Mcp.Select.{Value, instant, number, at_least, Select}
use netdata_postgres_mcp.Mcp.Select.Meaning.{Filter, if_given, Asks}
use netdata_postgres_mcp.Mcp.Queries.{ToolError, query_select, limit_or, at_most_5000}
use netdata_postgres_mcp.Mcp.Queries.Filters.{Agrees, query_select-Agrees, query_asked}
use netdata_postgres_mcp.Mcp.Queries.Answers.{Rows, answer_rows, handle_query_metrics}
use netdata_postgres_mcp.Mcp.Natural.{
  NlQueryPlan, window, parse_natural_query, fake_req, handle_natural_query,
}

-- The durations of the windows, without their minus.
abbrev pub durations : List Bytes
durations =
    str "168h"
    ∷ str "720h"
    ∷ str "72h"
    ∷ str "24h"
    ∷ str "12h"
    ∷ str "6h"
    ∷ str "2h"
    ∷ str "30m"
    ∷ str "15m"
    ∷ str "5m"
    ∷ str "1h"
    ∷ []

if-either : {A : Type 0} (P : A → Type 0) (c : Bool) {a b : A} → P a → P b → P (if c then a else b)
if-either P true h k = h
if-either P false h k = k

-- What holds of every duration holds of the window of any text.
pub window-one : (P : Bytes → Type 0) (q : Bytes) → All (λ d. P (b'-' ∷ d)) durations → P (window q)
unfolding window str
window-one P q h = if-either P _ h.0 (
    if-either P _ h.1.0 (
      if-either P _ h.1.1.0 (
        if-either P _ h.1.1.1.0 (
          if-either P _ h.1.1.1.1.0 (
            if-either P _ h.1.1.1.1.1.0 (
              if-either P _ h.1.1.1.1.1.1.0 (
                if-either P _ h.1.1.1.1.1.1.1.0 (
                  if-either P _ h.1.1.1.1.1.1.1.1.0
                    (if-either P _ h.1.1.1.1.1.1.1.1.1.0 h.1.1.1.1.1.1.1.1.1.1.0)))))))))

All-map2 :
    {A : Type 0} (P Q S : A → Type 0)
    → ((a : A) → P a → Q a → S a)
    → (xs : List A) → All P xs
    → All Q xs
    → All S xs
All-map2 P Q S f [] p q = q
All-map2 P Q S f (x ∷ xs) p q = (f x p.0 q.0, All-map2 P Q S f xs p.1 q.1)

-- The start of a window is not empty and has no space around it.
durations-trimmed : All (λ (d : Bytes). trim_space (b'-' ∷ d) ≡ b'-' ∷ d) durations
unfolding trim_space str
durations-trimmed =
    (refl, (refl, (refl, (refl, (refl, (refl, (refl, (refl, (refl, (refl, (refl, tt)))))))))))

-- time.ParseDuration reads the durations.
abbrev pub ReadsDurations : (Bytes → Option ℤ) → Type 0
ReadsDurations parse_duration =
    All (λ (d : Bytes). (t : ℕ) × (parse_duration d ≡ some (pos t))) durations

module _ (parse_duration : Bytes → Option ℤ) (parse_layout : Bytes → Bytes → Option ℕ)
    (reads : ReadsDurations parse_duration) where
  abbrev Starts : ℕ → Bytes → Type 0
  Starts now w =
      (t : ℕ) × ((parse_time_arg parse_duration parse_layout now w ≡ some t) × (is_empty w ≡ false))

  window-Starts : (now : ℕ) (q : Bytes) → Starts now (window q)
  unfolding is_empty
  window-Starts now q =
      window-one (Starts now) q
        (All-map2 _ _ (λ d. Starts now (b'-' ∷ d)) start durations durations-trimmed reads)
    where
      start :
          (d : Bytes)
          → trim_space (b'-' ∷ d) ≡ b'-' ∷ d
          → (t : ℕ) × (parse_duration d ≡ some (pos t))
          → Starts now (b'-' ∷ d)
      start d trimmed (t, e) =
          (now - t, (parse_time_arg_duration parse_duration parse_layout now t d trimmed e, refl))

  module _ {R F : Type 0} (since : Bytes → Bytes) (now : ℕ) (parse' : Bytes → Option ℕ)
      (run : Select → Option (Rows R)) (is_positive : F → Bool) (to_int : F → ℤ) (zero : F)
      (zero_is_none : is_positive zero ≡ false) where
    abbrev parse : Bytes → Option ℕ
    parse = parse_time_arg parse_duration parse_layout now

    plan-Starts :
        (query node_id : Bytes) → Starts now (parse_natural_query since query node_id).after
    unfolding parse_natural_query
    plan-Starts query node_id = window-Starts now (to_lower query)

    -- What a plan asks for, from a time.
    abbrev pub plan_filters : NlQueryPlan → ℕ → List Filter
    plan_filters plan t =
        ((if_given (str "node_id") plan.node_id ++ if_given (str "context") plan.context)
          ++ if_given (str "dimension") plan.dimension)
        ++ ((str "collected_at", at_least, instant t) ∷ [])

    -- The statement of a plan.
    abbrev pub PlanAnswer : NlQueryPlan → Result ToolError (List R) → Type 0
    PlanAnswer plan answer =
        (t : ℕ) × ((s : Select) × ((parse plan.after ≡ some t)
            × (Asks s (str "hardware_metric_samples") (plan_filters plan t)
                (some (number (pos 500))))
            × (answer ≡ answer_rows (run s))))

    agreed :
        (plan : NlQueryPlan) (t : ℕ) (r : Result ToolError Select)
        → Agrees
            (str "hardware_metric_samples")
            (some (number (pos 500)))
            r
            (ok (plan_filters plan t))
        → parse plan.after ≡ some t
        → PlanAnswer plan (r >>= λ s. answer_rows (run s))
    agreed plan t (ok s) a p = (t, (s, (p, a, refl)))
    agreed plan t (err e) a p = absurd a

    asked :
        (plan : NlQueryPlan) (t : ℕ)
        → parse plan.after ≡ some t
        → is_empty plan.after ≡ false
        → query_asked parse parse' is_positive to_int
            (fake_req since parse parse' run is_positive to_int zero plan)
          ≡ ok (plan_filters plan t)
    unfolding is_empty
    asked plan t p e = rw (e, p, append-nil, append-nil, append-nil) refl

    default_limit : at_most_5000 (limit_or parse parse' is_positive to_int (pos 500) zero) ≡ pos 500
    unfolding limit_or at_most_5000
    default_limit = rw zero_is_none refl

    Agrees-as :
        {l l' : Option Value} (r : Result ToolError Select) {a a' : Result ToolError (List Filter)}
        → l ≡ l'
        → a ≡ a'
        → Agrees (str "hardware_metric_samples") l r a
        → Agrees (str "hardware_metric_samples") l' r a'
    Agrees-as r p q h = rw (← p, ← q) h

    plan-Agrees :
        (plan : NlQueryPlan) (t : ℕ)
        → parse plan.after ≡ some t
        → is_empty plan.after ≡ false
        → Agrees
            (str "hardware_metric_samples")
            (some (number (pos 500)))
            (query_select parse parse' is_positive to_int
              (fake_req since parse parse' run is_positive to_int zero plan))
            (ok (plan_filters plan t))
    plan-Agrees plan t p e =
        Agrees-as _ (ap (λ l. some (number l)) default_limit) (asked plan t p e) (
          query_select-Agrees parse parse' is_positive to_int
            (fake_req since parse parse' run is_positive to_int zero plan))

    -- Whatever the text, the tool answers with the rows of a statement for at most 500 samples of the
    -- node, the context and the dimension of the plan, since the start of its window: no text is
    -- refused.
    pub handle_natural_query-PlanAnswer :
        (query node_id : Bytes)
        → PlanAnswer
            (parse_natural_query since query node_id)
            (handle_natural_query since parse parse' run is_positive to_int zero query node_id).1
    unfolding handle_natural_query handle_query_metrics
    handle_natural_query-PlanAnswer query node_id =
        let plan = parse_natural_query since query node_id in
        let (t, (p, e)) = plan-Starts query node_id in agreed plan t _ (plan-Agrees plan t p e) p
