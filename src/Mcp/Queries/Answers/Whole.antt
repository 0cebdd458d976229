-- ===== src/Mcp/Queries/Answers/Whole.antt =====
-- Which answers of the tools are whole: the tool for nodes of internal/mcp/server.go, and the others.
use netdata_postgres_mcp.Base.{
  ℕ, ℤ, ◌≡◌, refl, ap, Bool, true, false, List, [], ◌∷◌, map, Option, none, some, Result, ok, err,
  ◌>>=◌, Result-cases, inl, inr,
}
use netdata_postgres_mcp.Base.Text.{Bytes}
use netdata_postgres_mcp.Base.Floats.{Float}
use netdata_postgres_mcp.Mcp.Select.{Select}
use netdata_postgres_mcp.Mcp.Queries.{
  ToolError, QueryArgs, iteration_failed, invalid_after, invalid_before, latest_select,
  cardinality_select, query_select, required_time, time_or, rollup_between,
}
use netdata_postgres_mcp.Mcp.Queries.Answers.{
  Rows, RollupRow, scan_all, if_any, answer_rows, handle_list_nodes, handle_latest_metrics,
  handle_query_metrics, handle_cardinality, handle_query_rollup, rollup_answer,
}

module _ {R : Type 0} where
  pub scan_all-ok : (rs : List R) → scan_all (map some rs) ≡ ok rs
  unfolding scan_all
  scan_all-ok [] = refl
  scan_all-ok (r ∷ rs) = rw (scan_all-ok rs) refl

  -- Only rows that can all be read are answered.
  pub scan_all-whole :
      (scans : List (Option R)) (rs : List R) → scan_all scans ≡ ok rs → scans ≡ map some rs
  unfolding scan_all
  scan_all-whole [] [] e = refl
  scan_all-whole [] (r ∷ rs) e = absurd cc
  scan_all-whole (none ∷ scans) rs e = absurd cc
  scan_all-whole (some r ∷ scans) rs e = elim (Result-cases (scan_all scans)) [
    | inr (er, b) ↦ absurd (err-ne-ok er rs (rw b at e))
    | inl (rs', b) ↦
        let e' : Path (Result ToolError (List R)) (ok (r ∷ rs')) (ok rs) = rw b at e in
        rw (← ok-inj _ _ e')
          (ap (λ (xs : List (Option R)). some r ∷ xs) (scan_all-whole scans rs' b))
  ]
    where
      err-ne-ok :
          (er : ToolError) (xs : List R) → Path (Result ToolError (List R)) (err er) (ok xs) → ⊥
      err-ne-ok er xs p = cc

      ok-inj : (xs ys : List R) → Path (Result ToolError (List R)) (ok xs) (ok ys) → xs ≡ ys
      ok-inj xs ys p = cc

  -- The rows of a query, which end with an error of the iteration or without one.
  abbrev pub ended : Bool → Option (Rows R) → Option (Rows R)
  ended broken none = none
  ended broken (some rows) = some (record rows { broken = broken })

  answer_rows-ended :
      (o : Option (Rows R)) → answer_rows (ended true o) ≡ answer_rows (ended false o)
  unfolding answer_rows
  answer_rows-ended none = refl
  answer_rows-ended (some rows) = refl

module _ {F : Type 0} (parse parse' : Bytes → Option ℕ) (run : Select → Option (Rows (RollupRow F)))
    (is_positive : F → Bool) (to_int : F → ℤ) (float : Float F) (a : QueryArgs F) where
  rollup_answer-ended :
      (after before : ℕ)
      → rollup_answer parse parse' (λ s. ended true (run s)) is_positive to_int float a after before
        ≡ rollup_answer parse parse'
            (λ s. ended false (run s))
            is_positive
            to_int
            float
            a
            after
            before
  unfolding rollup_answer
  rollup_answer-ended after before =
      let s = rollup_between parse parse' is_positive to_int a after before in
      rw (answer_rows-ended (run s)) refl

  handle_query_rollup-ended :
      (now : ℕ)
      → handle_query_rollup parse parse' (λ s. ended true (run s)) is_positive to_int float now a
        ≡ handle_query_rollup parse parse' (λ s. ended false (run s)) is_positive to_int float now a
  unfolding handle_query_rollup
  handle_query_rollup-ended now i = required_time parse invalid_after a.after >>= λ after.
      time_or parse' invalid_before now a.before >>= λ before. rollup_answer-ended after before i

-- The tools for the latest values, for samples, for cardinality and for rollups answer the same
-- whether the rows of their query end with an error of the iteration or without one: the rows that
-- came before the error are answered as if they were all. The tool for nodes answers that
-- error instead.
pub answer_rows_partial :
    {R F : Type 0} (parse parse' : Bytes → Option ℕ) (run : Select → Option (Rows R))
    (run' : Select → Option (Rows (RollupRow F))) (is_positive : F → Bool) (to_int : F → ℤ)
    (float : Float F) (now : ℕ) (a : QueryArgs F) (node_id text : Bytes) (rs : List R)
    → (handle_latest_metrics (λ s. ended true (run s)) node_id text
        ≡ handle_latest_metrics (λ s. ended false (run s)) node_id text)
      × ((handle_query_metrics parse parse' (λ s. ended true (run s)) is_positive to_int a
            ≡ handle_query_metrics parse parse' (λ s. ended false (run s)) is_positive to_int a)
          × ((handle_cardinality parse parse' (λ s. ended true (run s)) now node_id text
                ≡ handle_cardinality parse parse' (λ s. ended false (run s)) now node_id text)
              × ((handle_query_rollup parse parse'
                      (λ s. ended true (run' s))
                      is_positive
                      to_int
                      float
                      now
                      a
                    ≡ handle_query_rollup parse parse'
                        (λ s. ended false (run' s))
                        is_positive
                        to_int
                        float
                        now
                        a)
                  × (handle_list_nodes (some (record { scans = map some rs; broken = true }))
                      ≡ err iteration_failed))))
unfolding handle_latest_metrics handle_query_metrics handle_cardinality handle_list_nodes
answer_rows_partial parse parse' run run' is_positive to_int float now a node_id text rs = (
  answer_rows-ended (run (latest_select node_id text)),
  (
    λ i. query_select parse parse' is_positive to_int a >>= λ s. answer_rows-ended (run s) i,
    (
      λ i. cardinality_select parse parse' now node_id text >>= λ s.
          answer_rows-ended (run s) i >>= if_any,
      (
        handle_query_rollup-ended parse parse' run' is_positive to_int float a now,
        rw (scan_all-ok rs) refl,
      ),
    ),
  ),
)
