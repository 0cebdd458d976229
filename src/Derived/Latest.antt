-- ===== src/Derived/Latest.antt =====
-- Which samples the derived ones of internal/derived/derived.go are computed from.
use mathlib.Core.Option.{some-injective}
use netdata_postgres_mcp.Base.{
  ◌≤◌, ◌≡◌, refl, sym, ◌∙◌, List, [], ◌∷◌, Option, none, some, Bool-cases, inl, inr, All, ltb,
  if◌then◌else◌, arith,
}
use netdata_postgres_mcp.Base.Text.{Bytes, eq_str}
use netdata_postgres_mcp.Base.Assoc.{Assoc, lookup, update, lookup-update}
use netdata_postgres_mcp.Store.Sample.{MetricSample}
use netdata_postgres_mcp.Derived.{sample_key, newer, index_latest}

-- The samples of a context and a dimension.
unfoldable pub samples_of : Bytes → List MetricSample → List MetricSample
samples_of key [] = []
samples_of key (s ∷ samples) =
    let rest = samples_of key samples in if eq_str (sample_key s) key then s ∷ rest else rest

-- The sample that is left of some, one after the other.
unfoldable pub newest : Option MetricSample → List MetricSample → Option MetricSample
newest o [] = o
newest o (s ∷ samples) = newest (some (newer s o)) samples

index_latest-newest :
    (latest : Assoc MetricSample) (samples : List MetricSample) (key : Bytes)
    → lookup key (index_latest latest samples) ≡ newest (lookup key latest) (samples_of key samples)
unfolding index_latest samples_of newest
index_latest-newest latest [] key = refl
index_latest-newest latest (s ∷ samples) key =
    rw
      (
        index_latest-newest (update (sample_key s) (newer s) latest) samples key,
        lookup-update (sample_key s) key (newer s) latest,
      )
      (elim (Bool-cases (eq_str (sample_key s) key)) [ inl b ↦ rw b refl | inr b ↦ rw b refl ])

newest_keeps :
    (o s : MetricSample) (samples : List MetricSample)
    → newest (some o) samples ≡ some s
    → (o.collected_at ≤ s.collected_at)
      × All (λ (t : MetricSample). t.collected_at ≤ s.collected_at) samples
unfolding newest newer
newest_keeps o s [] e = (rw (some-injective _ _ e) (omega arith), tt)
newest_keeps o s (t ∷ samples) e = elim (Bool-cases (ltb o.collected_at t.collected_at)) [
  | inl b ↦
      let later = newest_keeps t s samples (rw b at e) in
      let before : o.collected_at ≤ s.collected_at = ground (arith, b, later.0) in
      (before, (later.0, later.1))
  | inr b ↦
      let later = newest_keeps o s samples (rw b at e) in
      let before : t.collected_at ≤ s.collected_at = ground (arith, b, later.0) in
      (later.0, (before, later.1))
]

-- The sample that stands for a context and a dimension is as late as every collected sample of
-- them; and if none stands for them, none was collected.
pub index_latest_last :
    (samples : List MetricSample) (key : Bytes)
    → ((s : MetricSample)
        → lookup key (index_latest [] samples) ≡ some s
        → All (λ (t : MetricSample). t.collected_at ≤ s.collected_at) (samples_of key samples))
      × (lookup key (index_latest [] samples) ≡ none → samples_of key samples ≡ [])
unfolding lookup newest newer
index_latest_last samples key = (
  λ s e. last (samples_of key samples) s (sym (index_latest-newest [] samples key) ∙ e),
  λ e. nothing (samples_of key samples) (sym (index_latest-newest [] samples key) ∙ e),
)
  where
    last :
        (ts : List MetricSample) (s : MetricSample)
        → newest none ts ≡ some s
        → All (λ (t : MetricSample). t.collected_at ≤ s.collected_at) ts
    last [] s e = tt
    last (t ∷ ts) s e = newest_keeps t s ts e

    nothing : (ts : List MetricSample) → newest none ts ≡ none → ts ≡ []
    nothing [] e = refl
    nothing (t ∷ ts) e = absurd (some_stays t ts e)
      where
        some_stays : (o : MetricSample) (us : List MetricSample) → newest (some o) us ≡ none → ⊥
        some_stays o [] h = cc
        some_stays o (u ∷ us) h = some_stays (newer u (some o)) us h
