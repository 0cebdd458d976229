-- ===== src/Collector/Json/Named.antt =====
-- The samples of a JSON response of internal/collector/collector.go have a node and a context.
use netdata_postgres_mcp.Base.{
  ℕ, ◌≡◌, refl, Bool, false, List, [], ◌∷◌, Option, none, some, Bool-cases, inl, inr, All,
  All-append,
}
use netdata_postgres_mcp.Base.Text.{Bytes, str, is_empty}
use netdata_postgres_mcp.Base.Assoc.{Assoc}
use netdata_postgres_mcp.Store.Sample.{MetricSample}
use netdata_postgres_mcp.Collector.Json.{
  JsonValue, Entry, Flat, to_float64, if_named, grouped_value, grouped_entry, grouped_samples,
  flat_value, flat_columns, flat_row, flat_samples, object_samples, objects_samples, try_grouped,
  try_flat, try_objects, parse_json_response,
}

module _ (node_id : Bytes) (collected_at : ℕ) where
  -- The node is the collector's, and the context is not empty.
  abbrev pub IsNamed : MetricSample → Type 0
  IsNamed s = (s.node_id ≡ node_id) × (is_empty s.context ≡ false)

  if_named-IsNamed : (s : MetricSample) → s.node_id ≡ node_id → All IsNamed (if_named s)
  unfolding if_named
  if_named-IsNamed s n = elim (Bool-cases (is_empty s.context)) [
    | inl e ↦ rw e tt
    | inr e ↦ elim (Bool-cases (is_empty s.dimension)) [
      | inl d ↦ rw (e, d) tt
      | inr d ↦ rw (e, d) ((n, e), tt)
    ]
  ]

  grouped-IsNamed :
      (entries : List Entry) → All IsNamed (grouped_samples node_id collected_at entries)
  unfolding grouped_samples grouped_entry
  grouped-IsNamed [] = tt
  grouped-IsNamed (e ∷ entries) =
      All-append IsNamed (grouped_entry node_id collected_at e e.point) _ (entry e.point)
        (grouped-IsNamed entries)
    where
      value : (o : Option ℕ) → All IsNamed (grouped_value node_id collected_at e o)
      value none = tt
      value (some val) = if_named-IsNamed _ refl

      entry : (point : List JsonValue) → All IsNamed (grouped_entry node_id collected_at e point)
      entry [] = tt
      entry (v ∷ point) = value (to_float64 v)

  objects-IsNamed :
      (objects : List (Assoc JsonValue))
      → All IsNamed (objects_samples node_id collected_at objects)
  unfolding objects_samples object_samples
  objects-IsNamed [] = tt
  objects-IsNamed (obj ∷ objects) =
      All-append IsNamed (object_samples node_id collected_at obj) _ (if_named-IsNamed _ refl)
        (objects-IsNamed objects)

  columns-IsNamed :
      (ts : ℕ) (labels : List Bytes) (row : List JsonValue)
      → All IsNamed (flat_columns node_id collected_at ts labels row)
  unfolding flat_columns is_empty str
  columns-IsNamed ts [] row = tt
  columns-IsNamed ts (l ∷ labels) [] = tt
  columns-IsNamed ts (l ∷ labels) (v ∷ row) =
      All-append IsNamed (flat_value node_id collected_at l ts (to_float64 v)) _
        (value (to_float64 v)) (columns-IsNamed ts labels row)
    where
      value : (o : Option ℕ) → All IsNamed (flat_value node_id collected_at l ts o)
      value none = tt
      value (some val) = ((refl, refl), tt)

  module _ (is_positive : ℕ → Bool) (unix : ℕ → ℕ) where
    flat-IsNamed :
        (labels : List Bytes) (rows : List (List JsonValue))
        → All IsNamed (flat_samples node_id collected_at is_positive unix labels rows)
    unfolding flat_samples flat_row
    flat-IsNamed labels [] = tt
    flat-IsNamed labels (row ∷ rows) =
        All-append IsNamed (flat_row node_id collected_at is_positive unix labels row) _
          (one labels row) (flat-IsNamed labels rows)
      where
        one :
            (ls : List Bytes) (r : List JsonValue)
            → All IsNamed (flat_row node_id collected_at is_positive unix ls r)
        one [] r = tt
        one (l ∷ ls) [] = tt
        one (l ∷ ls) (v ∷ r) = columns-IsNamed _ ls r

    abbrev Answer : Option (List MetricSample) → Type 0
    Answer none = Unit
    Answer (some samples) = All IsNamed samples

    objects-Answer :
        (o : Option (List (Assoc JsonValue)))
        → Answer (try_objects node_id collected_at is_positive unix o)
    objects-Answer none = tt
    objects-Answer (some []) = tt
    objects-Answer (some (obj ∷ objects)) = objects-IsNamed (obj ∷ objects)

    flat-Answer :
        (f : Option Flat) (o : Option (List (Assoc JsonValue)))
        → Answer (try_flat node_id collected_at is_positive unix f o)
    flat-Answer none o = objects-Answer o
    flat-Answer (some f) o = rows f.labels f.rows refl refl
      where
        rows :
            (ls : List Bytes) (rs : List (List JsonValue))
            → f.labels ≡ ls
            → f.rows ≡ rs
            → Answer (try_flat node_id collected_at is_positive unix (some f) o)
        rows ls [] p q = rw (p, q) (objects-Answer o)
        rows [] (r ∷ rs) p q = rw (p, q) (objects-Answer o)
        rows (l ∷ ls) (r ∷ rs) p q = rw (p, q) (flat-IsNamed (l ∷ ls) (r ∷ rs))

    grouped-Answer :
        (g : Option (List Entry)) (f : Option Flat) (o : Option (List (Assoc JsonValue)))
        → Answer (try_grouped node_id collected_at is_positive unix g f o)
    grouped-Answer none f o = flat-Answer f o
    grouped-Answer (some []) f o = flat-Answer f o
    grouped-Answer (some (e ∷ entries)) f o = grouped-IsNamed (e ∷ entries)

    -- Whatever the shape of the response, the samples read from it have the node of the collector and a
    -- context.
    pub parse_json_response-IsNamed :
        (grouped : Bytes → Option (List Entry)) (flat : Bytes → Option Flat)
        (objects : Bytes → Option (List (Assoc JsonValue))) (body : Bytes)
        (samples : List MetricSample)
        → parse_json_response node_id collected_at is_positive unix grouped flat objects body
          ≡ some samples
        → All IsNamed samples
    unfolding parse_json_response
    parse_json_response-IsNamed grouped flat objects body samples e =
        rw e at (grouped-Answer (grouped body) (flat body) (objects body))
