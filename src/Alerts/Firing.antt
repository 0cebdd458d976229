-- ===== src/Alerts/Firing.antt =====
-- Which alerts of internal/mcp/alerts.go fire.
use netdata_postgres_mcp.Base.{
  ℕ, ◌≡◌, ◌≢◌, refl, sym, ◌↔◌, Bool, true, false, Option, none, some, Option-cases, Bool-cases, inl,
  inr, arith,
}
use netdata_postgres_mcp.Base.Text.{Bytes, str, eq_str}
use netdata_postgres_mcp.Alerts.{
  AlertRule, AlertQuery, firing, is_firing, query_of, evaluated, windowed, evaluate_alert,
}
use netdata_postgres_mcp.Alerts.Meaning.{
  IsQuery, Beyond, eq_str-cases, agg_func-Aggregates, agg_func-eq, Asks-empty, Asks-eq,
}

module _ {F : Type 0} (zero : F) (is_minus_one : F → Bool) (less : F → F → Bool)
    (at_most : F → F → Bool) (round2 : F → F) (parse_time_arg : Bytes → Option ℕ)
    (query : AlertQuery → Option F) where
  -- The rule's query has a value that its operator puts beyond its threshold.
  abbrev pub Fires : Bytes → AlertRule F → Type 0
  Fires node_id rule =
      (after_time : ℕ) × (q : AlertQuery) × (value : F) × ((parse_time_arg rule.window
          ≡ some after_time)
        × (IsQuery node_id rule after_time q
            × ((query q ≡ some value)
                × ((is_minus_one value ≡ false)
                    × Beyond less at_most rule.operator value rule.threshold))))

  operator_false :
      (operator : Bytes) (value threshold : F)
      → operator ≢ str ">"
      → operator ≢ str ">="
      → operator ≢ str "<"
      → operator ≢ str "<="
      → Beyond less at_most operator value threshold
      → ⊥
  operator_false operator value threshold a b c d (inl h) = a h.0
  operator_false operator value threshold a b c d (inr (inl h)) = b h.0
  operator_false operator value threshold a b c d (inr (inr (inl h))) = c h.0
  operator_false operator value threshold a b c d (inr (inr (inr h))) = d h.0

  is_firing-Beyond :
      (operator : Bytes) (value threshold : F)
      → is_firing zero is_minus_one less at_most round2 parse_time_arg query operator value
          threshold
        ≡ true
      → Beyond less at_most operator value threshold
  unfolding is_firing
  is_firing-Beyond operator value threshold h = elim (eq_str-cases operator (str ">")) [
    | inl (p, e) ↦ inl (p, rw e at h)
    | inr (n, e) ↦ elim (eq_str-cases operator (str ">=")) [
      | inl (p, e') ↦ inr (inl (p, rw (e, e') at h))
      | inr (n', e') ↦ elim (eq_str-cases operator (str "<")) [
        | inl (p, e'') ↦ inr (inr (inl (p, rw (e, e', e'') at h)))
        | inr (n'', e'') ↦ elim (eq_str-cases operator (str "<=")) [
          | inl (p, e3) ↦ inr (inr (inr (p, rw (e, e', e'', e3) at h)))
          | inr (n3, e3) ↦ absurd (false-ne-true (rw (e, e', e'', e3) at h))
        ]
      ]
    ]
  ]
    where
      false-ne-true : Path Bool false true → ⊥
      false-ne-true p = cc

  Beyond-is_firing :
      (operator : Bytes) (value threshold : F)
      → Beyond less at_most operator value threshold
      → is_firing zero is_minus_one less at_most round2 parse_time_arg query operator value
          threshold
        ≡ true
  unfolding is_firing eq_str str
  Beyond-is_firing operator value threshold (inl (p, h)) = rw p h
  Beyond-is_firing operator value threshold (inr (inl (p, h))) = rw p h
  Beyond-is_firing operator value threshold (inr (inr (inl (p, h)))) = rw p h
  Beyond-is_firing operator value threshold (inr (inr (inr (p, h)))) = rw p h

  query_of-IsQuery :
      (node_id : Bytes) (rule : AlertRule F) (t : ℕ)
      → IsQuery node_id rule t
          (query_of zero is_minus_one less at_most round2 parse_time_arg query node_id rule t)
  unfolding query_of
  query_of-IsQuery node_id rule t = record {
    aggregates = agg_func-Aggregates rule.aggregator;
    of_node = refl;
    after = refl;
    pattern = refl;
    asks = Asks-empty rule.dimension;
  }

  IsQuery-eq :
      (node_id : Bytes) (rule : AlertRule F) (t : ℕ) (q : AlertQuery)
      → IsQuery node_id rule t q
      → query_of zero is_minus_one less at_most round2 parse_time_arg query node_id rule t ≡ q
  unfolding query_of
  IsQuery-eq node_id rule t q h i = record {
    agg_func = agg_func-eq rule.aggregator q.agg_func h.aggregates i;
    node_id = sym h.of_node i;
    after_time = sym h.after i;
    context_pattern = sym h.pattern i;
    dimension = Asks-eq rule.dimension q.dimension h.asks i;
  }

  windowed-none :
      (node_id : Bytes) (rule : AlertRule F)
      → (windowed zero is_minus_one less at_most round2 parse_time_arg query node_id rule
          none).status
        ≡ firing
      → ⊥
  unfolding windowed
  windowed-none node_id rule e = cc

  not_firing :
      (rule : AlertRule F) (value : F)
      → is_minus_one value ≡ true
      → (evaluated zero is_minus_one less at_most round2 parse_time_arg query rule
          (some value)).status
        ≡ firing
      → ⊥
  unfolding evaluated
  not_firing rule value m e = ground (arith, m, e)

  fired :
      (rule : AlertRule F) (value : F)
      → is_minus_one value ≡ false
      → (evaluated zero is_minus_one less at_most round2 parse_time_arg query rule
          (some value)).status
        ≡ firing
      → is_firing zero is_minus_one less at_most round2 parse_time_arg query rule.operator value
          rule.threshold
        ≡ true
  unfolding evaluated
  fired rule value m e = ground (arith, m, e)

  evaluated-Fires :
      (rule : AlertRule F) (o : Option F)
      → (evaluated zero is_minus_one less at_most round2 parse_time_arg query rule o).status
        ≡ firing
      → (value : F) × ((o ≡ some value)
          × ((is_minus_one value ≡ false)
              × (is_firing zero is_minus_one less at_most round2 parse_time_arg query rule.operator
                    value rule.threshold
                  ≡ true)))
  unfolding evaluated
  evaluated-Fires rule none e = absurd cc
  evaluated-Fires rule (some value) e = elim (Bool-cases (is_minus_one value)) [
    | inl m ↦ absurd (not_firing rule value m e)
    | inr m ↦ (value, (refl, (m, fired rule value m e)))
  ]

  windowed-Fires :
      (node_id : Bytes) (rule : AlertRule F) (t : ℕ)
      → (windowed zero is_minus_one less at_most round2 parse_time_arg query node_id rule
          (some t)).status
        ≡ firing
      → (value : F) × ((query
              (query_of zero is_minus_one less at_most round2 parse_time_arg query node_id rule t)
            ≡ some value)
          × ((is_minus_one value ≡ false)
              × (is_firing zero is_minus_one less at_most round2 parse_time_arg query rule.operator
                    value rule.threshold
                  ≡ true)))
  unfolding windowed
  windowed-Fires node_id rule t e = evaluated-Fires rule _ e

  windowed-some :
      (node_id : Bytes) (rule : AlertRule F) (t : ℕ) (value : F)
      → query (query_of zero is_minus_one less at_most round2 parse_time_arg query node_id rule t)
        ≡ some value
      → is_minus_one value ≡ false
      → is_firing zero is_minus_one less at_most round2 parse_time_arg query rule.operator value
          rule.threshold
        ≡ true
      → (windowed zero is_minus_one less at_most round2 parse_time_arg query node_id rule
          (some t)).status
        ≡ firing
  unfolding windowed evaluated
  windowed-some node_id rule t value q m f = rw (windowed, q, evaluated, m, f) refl

  -- A rule is reported as firing if and only if its window is a time; a query for the node, from that
  -- time, of the contexts that match the rule's with `%` after it and of the rule's dimension if it
  -- has one, with the maximum, the minimum or else the average, gives a value that is not the -1
  -- that stands for no data; and the value is beyond the threshold as the rule's operator says,
  -- one of four comparisons.
  pub evaluate_alert-Fires :
      (node_id : Bytes) (rule : AlertRule F)
      → ((evaluate_alert zero is_minus_one less at_most round2 parse_time_arg query node_id
            rule).status
          ≡ firing)
        ↔ Fires node_id rule
  unfolding evaluate_alert
  evaluate_alert-Fires node_id rule = (
    λ e. elim (Option-cases (parse_time_arg rule.window)) [
      | inl n ↦ absurd (windowed-none node_id rule (rw n at e))
      | inr (t, p) ↦
          let (v, (q, (m, f))) = windowed-Fires node_id rule t (rw p at e) in
          (t, _, v, (p, (query_of-IsQuery node_id rule t, (q, (m, is_firing-Beyond _ _ _ f)))))
    ],
    λ (t, s, v, (p, (k, (q, (m, f))))). rw p (
        windowed-some node_id rule t v (rw (IsQuery-eq node_id rule t s k) q) m
          (Beyond-is_firing _ _ _ f)),
  )
