-- ===== src/Mcp/Summary/Totals.antt =====
-- The statistics that `handleSummarize` of internal/mcp/server.go gathers are those of the values of
-- each context and key.
use netdata_postgres_mcp.Base.{
  ◌≡◌, refl, Bool, true, false, ◌&&◌, List, [], ◌∷◌, Option, none, some, Bool-cases, inl, inr,
  if◌then◌else◌,
}
use netdata_postgres_mcp.Base.Text.{Bytes, eq_str, eq_str_refl, eq_str→eq}
use netdata_postgres_mcp.Base.Assoc.{Assoc, lookup, lookup-update_same, lookup-update_other}
use netdata_postgres_mcp.Base.Floats.{Float}
use netdata_postgres_mcp.Mcp.Summary.{
  DimStats, SampleRow, Stats, sample_key, add_to, add_to_dims, add_row, add_rows,
}

module _ {F : Type 0} where
  abbrev pub find_in : Bytes → Option (Assoc (DimStats F)) → Option (DimStats F)
  find_in key none = none
  find_in key (some dims) = lookup key dims

  -- The statistics of a context and a key, if there are any.
  abbrev pub find_stats : Stats F → Bytes → Bytes → Option (DimStats F)
  find_stats stats context key = find_in key (lookup context stats)

  abbrev pub is_of : Bytes → Bytes → SampleRow F → Bool
  is_of context key row =
      eq_str row.context context && eq_str (sample_key row.instance_name row.dimension) key

  -- The values of a context and a key, in the order of the rows, among those that can be read.
  unfoldable pub values_of : Bytes → Bytes → List (Option (SampleRow F)) → List F
  values_of context key [] = []
  values_of context key (none ∷ rows) = values_of context key rows
  values_of context key (some row ∷ rows) =
      let rest = values_of context key rows in
      if is_of context key row then row.value ∷ rest else rest

module _ {F : Type 0} (float : Float F) where
  -- The statistics of values that come after others.
  unfoldable pub gathered : Option (DimStats F) → List F → Option (DimStats F)
  gathered o [] = o
  gathered o (v ∷ vs) = gathered (some (add_to float v o)) vs

  find-add_to_dims :
      (key k : Bytes) (v : F) (o : Option (Assoc (DimStats F)))
      → lookup k (add_to_dims float key v o)
        ≡ (if eq_str key k then some (add_to float v (find_in k o)) else find_in k o)
  unfolding add_to_dims lookup
  find-add_to_dims key k v o = elim (Bool-cases (eq_str key k)) [
    | inl b ↦ rw b (same b o)
    | inr b ↦ rw b (other b o)
  ]
    where
      same :
          eq_str key k ≡ true
          → (o : Option (Assoc (DimStats F)))
          → lookup k (add_to_dims float key v o) ≡ some (add_to float v (find_in k o))
      same b none = rw (← eq_str→eq key k b) (lookup-update_same key (add_to float v) [])
      same b (some dims) = rw (← eq_str→eq key k b) (lookup-update_same key (add_to float v) dims)

      other :
          eq_str key k ≡ false
          → (o : Option (Assoc (DimStats F))) → lookup k (add_to_dims float key v o) ≡ find_in k o
      other b none = lookup-update_other key k (add_to float v) [] b
      other b (some dims) = lookup-update_other key k (add_to float v) dims b

  find-add_row :
      (stats : Stats F) (row : SampleRow F) (context key : Bytes)
      → find_stats (add_row float stats row) context key ≡ (
          if is_of context key row
          then some (add_to float row.value (find_stats stats context key))
          else find_stats stats context key)
  unfolding add_row
  find-add_row stats row context key =
      let own = sample_key row.instance_name row.dimension in
      let add = add_to_dims float own row.value in
      elim (Bool-cases (eq_str row.context context)) [
        | inl b ↦
            rw
              (
                ← eq_str→eq row.context context b,
                lookup-update_same row.context add stats,
                eq_str_refl row.context,
              )
              (find-add_to_dims own key row.value (lookup row.context stats))
        | inr b ↦ rw (lookup-update_other row.context context add stats b, b) refl
      ]

  -- After the loop, the statistics of a context and a key are those of all the values of the
  -- context and the key, added one by one in the order of the rows, and of no others.
  pub add_rows-gathered :
      (stats : Stats F) (rows : List (Option (SampleRow F))) (context key : Bytes)
      → find_stats (add_rows float stats rows) context key
        ≡ gathered (find_stats stats context key) (values_of context key rows)
  unfolding add_rows values_of gathered
  add_rows-gathered stats [] context key = refl
  add_rows-gathered stats (none ∷ rows) context key = add_rows-gathered stats rows context key
  add_rows-gathered stats (some row ∷ rows) context key =
      rw
        (
          add_rows-gathered (add_row float stats row) rows context key,
          find-add_row stats row context key,
        )
        (elim (Bool-cases (is_of context key row)) [ inl b ↦ rw b refl | inr b ↦ rw b refl ])
