-- ===== src/Mcp/Summary/Extremes.antt =====
-- The count, the greatest and the least value that `handleSummarize` of internal/mcp/server.go keeps.
use mathlib.Core.Option.{some-injective}
use netdata_postgres_mcp.Base.{
  ◌+◌, ◌≡◌, refl, sym, ap, ◌∙◌, Bool, true, false, List, [], ◌∷◌, Option, none, some, Bool-cases,
  inl, inr, length, All, arith,
}
use netdata_postgres_mcp.Base.Text.{Bytes}
use netdata_postgres_mcp.Base.Assoc.{lookup}
use netdata_postgres_mcp.Base.Floats.{Float, IsOrdered, raise}
use netdata_postgres_mcp.Mcp.Summary.{
  DimStats, SampleRow, new_stats, lower, add_value, add_to, add_rows,
}
use netdata_postgres_mcp.Mcp.Summary.Totals.{find_stats, values_of, gathered, add_rows-gathered}

module _ {F : Type 0} (float : Float F) where
  -- The value is not above the maximum and not below the minimum.
  abbrev pub Within : DimStats F → F → Type 0
  Within ds v = (float.less ds.max v ≡ false) × (float.less v ds.min ≡ false)

  gathered_count :
      (ds ds' : DimStats F) (vs : List F)
      → gathered float (some ds) vs ≡ some ds'
      → ds'.count ≡ ds.count + length vs
  unfolding gathered add_to add_value
  gathered_count ds ds' [] e =
      omega (arith, ap (λ (d : DimStats F). d.count) (some-injective _ _ e))
  gathered_count ds ds' (v ∷ vs) e = omega (arith, gathered_count (add_value float ds v) ds' vs e)

  gathered_zero :
      (ds ds' : DimStats F) (vs : List F)
      → All (λ (v : F). float.less ds.max v ≡ false) vs
      → gathered float (some ds) vs ≡ some ds'
      → ds'.max ≡ ds.max
  unfolding gathered add_to add_value raise
  gathered_zero ds ds' [] n e = sym (ap (λ (d : DimStats F). d.max) (some-injective _ _ e))
  gathered_zero ds ds' (v ∷ vs) n e =
      let kept : (add_value float ds v).max ≡ ds.max = rw n.0 refl in
      gathered_zero (add_value float ds v) ds' vs (rw kept n.1) e ∙ kept

  from_nothing :
      (vs : List F) (ds : DimStats F)
      → gathered float none vs ≡ some ds
      → gathered float (some (new_stats float)) vs ≡ some ds
  unfolding gathered add_to
  from_nothing [] ds e = absurd cc
  from_nothing (v ∷ vs) ds e = e

  module _ (ordered : IsOrdered float) where
    pub raise-within : (m v w : F) → float.less m w ≡ false → float.less (raise float m v) w ≡ false
    unfolding raise
    raise-within m v w h = elim (Bool-cases (float.less m v)) [
      | inr b ↦ rw (b, h) refl
      | inl b ↦ elim (Bool-cases (float.less v w)) [
        | inr c ↦ rw (b, c) refl
        | inl c ↦ absurd (ground (arith, h, ordered.less_trans m v w b c))
      ]
    ]

    lower-within : (m v w : F) → float.less w m ≡ false → float.less w (lower float m v) ≡ false
    unfolding lower
    lower-within m v w h = elim (Bool-cases (float.less v m)) [
      | inr b ↦ rw (b, h) refl
      | inl b ↦ elim (Bool-cases (float.less w v)) [
        | inr c ↦ rw (b, c) refl
        | inl c ↦ absurd (ground (arith, h, ordered.less_trans w v m c b))
      ]
    ]

    Within-own : (ds : DimStats F) (v : F) → Within (add_value float ds v) v
    unfolding add_value raise lower
    Within-own ds v = (own_max (float.less ds.max v) refl, own_min (float.less v ds.min) refl)
      where
        own_max : (b : Bool) → float.less ds.max v ≡ b → float.less (raise float ds.max v) v ≡ false
        own_max true e = rw e (ordered.less_irrefl v)
        own_max false e = rw e e

        own_min : (b : Bool) → float.less v ds.min ≡ b → float.less v (lower float ds.min v) ≡ false
        own_min true e = rw e (ordered.less_irrefl v)
        own_min false e = rw e e

    gathered_keeps :
        (ds ds' : DimStats F) (vs : List F) (w : F)
        → Within ds w
        → gathered float (some ds) vs ≡ some ds'
        → Within ds' w
    unfolding gathered add_to add_value
    gathered_keeps ds ds' [] w h e = rw (← some-injective _ _ e) h
    gathered_keeps ds ds' (v ∷ vs) w h e =
        gathered_keeps (add_value float ds v) ds' vs w
          (raise-within ds.max v w h.0, lower-within ds.min v w h.1) e

    gathered-Within :
        (ds ds' : DimStats F) (vs : List F)
        → gathered float (some ds) vs ≡ some ds'
        → All (Within ds') vs
    unfolding gathered add_to
    gathered-Within ds ds' [] e = tt
    gathered-Within ds ds' (v ∷ vs) e = (
      gathered_keeps (add_value float ds v) ds' vs v (Within-own ds v) e,
      gathered-Within (add_value float ds v) ds' vs e,
    )

    -- The count of a context and a key is the number of their values, none of which is above the maximum or below
    -- the minimum that is kept.
    pub add_rows_extremes :
        (rows : List (Option (SampleRow F))) (context key : Bytes) (ds : DimStats F)
        → find_stats (add_rows float [] rows) context key ≡ some ds
        → (ds.count ≡ length (values_of context key rows))
          × All (Within ds) (values_of context key rows)
    unfolding new_stats lookup
    add_rows_extremes rows context key ds e =
        let g =
          from_nothing (values_of context key rows) ds
            (sym (add_rows-gathered float [] rows context key) ∙ e) in
        (
          omega (arith, gathered_count (new_stats float) ds (values_of context key rows) g),
          gathered-Within (new_stats float) ds (values_of context key rows) g,
        )

  -- A series without a positive value has the maximum 0, whatever its greatest value is.
  pub add_rows_negative :
      (rows : List (Option (SampleRow F))) (context key : Bytes) (ds : DimStats F)
      → find_stats (add_rows float [] rows) context key ≡ some ds
      → All (λ (v : F). float.less (float.decimal 0 0) v ≡ false) (values_of context key rows)
      → ds.max ≡ float.decimal 0 0
  unfolding new_stats lookup
  add_rows_negative rows context key ds e n =
      gathered_zero (new_stats float) ds (values_of context key rows) n (
        from_nothing (values_of context key rows) ds
          (sym (add_rows-gathered float [] rows context key) ∙ e))
