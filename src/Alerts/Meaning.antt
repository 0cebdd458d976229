-- ===== src/Alerts/Meaning.antt =====
-- What a rule of internal/mcp/alerts.go asks for: its query, and the values that are beyond its threshold.
use netdata_postgres_mcp.Base.{
  ℕ, ◌≡◌, ◌≢◌, refl, sym, ◌⊎◌, Bool, true, false, [], ◌∷◌, ◌++◌, if◌then◌else◌, Option, none, some,
  Bool-cases, inl, inr,
}
use netdata_postgres_mcp.Base.Text.{Bytes, str, eq_str, eq_str→eq, eq_str_refl, is_empty}
use netdata_postgres_mcp.Alerts.{AlertRule, AlertQuery, agg_func}

-- The aggregate function of an aggregator's name.
abbrev pub Aggregates : Bytes → Bytes → Type 0
Aggregates aggregator f =
    ((aggregator ≡ str "max") × (f ≡ str "MAX"))
    ⊎ (((aggregator ≡ str "min") × (f ≡ str "MIN"))
        ⊎ ((aggregator ≢ str "max") × (aggregator ≢ str "min") × (f ≡ str "AVG")))

-- An empty dimension asks for all of them.
abbrev pub Asks : Bytes → Option Bytes → Type 0
Asks dimension o = ((dimension ≡ []) × (o ≡ none)) ⊎ ((dimension ≢ []) × (o ≡ some dimension))

-- The query of a rule: the contexts that match the rule's with `%` after it, from the start of
-- its window.
pub record IsQuery {F : Type 0} (node_id : Bytes) (rule : AlertRule F) (after_time : ℕ)
    (q : AlertQuery) : Type 0 where
  pub aggregates : Aggregates rule.aggregator q.agg_func
  pub of_node : q.node_id ≡ node_id
  pub after : q.after_time ≡ after_time
  pub pattern : q.context_pattern ≡ rule.context ++ str "%"
  pub asks : Asks rule.dimension q.dimension

module _ {F : Type 0} (less at_most : F → F → Bool) where
  -- The value is beyond the threshold, as the operator says; no value is for an unknown operator.
  abbrev pub Beyond : Bytes → F → F → Type 0
  Beyond operator value threshold =
      ((operator ≡ str ">") × (less threshold value ≡ true))
      ⊎ (((operator ≡ str ">=") × (at_most threshold value ≡ true))
          ⊎ (((operator ≡ str "<") × (less value threshold ≡ true))
              ⊎ ((operator ≡ str "<=") × (at_most value threshold ≡ true))))

pub eq_str-cases :
    (s t : Bytes) → ((s ≡ t) × (eq_str s t ≡ true)) ⊎ ((s ≢ t) × (eq_str s t ≡ false))
eq_str-cases s t = elim (Bool-cases (eq_str s t)) [
  | inl e ↦ inl (eq_str→eq s t e, e)
  | inr e ↦ inr (λ p. true-ne-false (rw (p, eq_str_refl t) at e), e)
]
  where
    true-ne-false : Path Bool true false → ⊥
    true-ne-false p = cc

pub not_eq : (s t : Bytes) → s ≢ t → eq_str s t ≡ false
not_eq s t n = elim (eq_str-cases s t) [ inl (p, e) ↦ absurd (n p) | inr (m, e) ↦ e ]

pub agg_func-Aggregates : (aggregator : Bytes) → Aggregates aggregator (agg_func aggregator)
unfolding agg_func
agg_func-Aggregates aggregator = elim (eq_str-cases aggregator (str "max")) [
  | inl (p, e) ↦ rw e (inl (p, refl))
  | inr (n, e) ↦ elim (eq_str-cases aggregator (str "min")) [
    | inl (p, e') ↦ rw (e, e') (inr (inl (p, refl)))
    | inr (n', e') ↦ rw (e, e') (inr (inr (n, n', refl)))
  ]
]

pub agg_func-eq : (aggregator f : Bytes) → Aggregates aggregator f → agg_func aggregator ≡ f
unfolding agg_func eq_str str
agg_func-eq aggregator f (inl (p, e)) = rw (p, e) refl
agg_func-eq aggregator f (inr (inl (p, e))) = rw (p, e) refl
agg_func-eq aggregator f (inr (inr (a, b, e))) =
    rw (not_eq aggregator _ a, not_eq aggregator _ b, e) refl

pub Asks-empty :
    (dimension : Bytes) → Asks dimension (if is_empty dimension then none else some dimension)
unfolding is_empty
Asks-empty [] = inl (refl, refl)
Asks-empty (c ∷ s) = inr (λ p. cc, refl)

pub Asks-eq :
    (dimension : Bytes) (o : Option Bytes)
    → Asks dimension o
    → (if is_empty dimension then none else some dimension) ≡ o
unfolding is_empty
Asks-eq [] o (inl (p, e)) = sym e
Asks-eq [] o (inr (n, e)) = absurd (n refl)
Asks-eq (c ∷ s) o (inl (p, e)) = absurd cc
Asks-eq (c ∷ s) o (inr (n, e)) = sym e
