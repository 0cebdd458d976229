-- ===== src/Mcp/Bottlenecks/Seen.antt =====
-- What `DetectBottlenecks` of internal/mcp/server.go does not overlook.
use mathlib.Core.Bool.{or-true}
use netdata_postgres_mcp.Base.{
  ℕ, ◌≡◌, refl, true, false, List, [], ◌∷◌, ◌++◌, Bool-cases, inl, inr, arith,
}
use netdata_postgres_mcp.Base.Text.{str, eq_str, has_prefix}
use netdata_postgres_mcp.Base.Floats.{Float, IsOrdered, raise}
use netdata_postgres_mcp.Mcp.Bottlenecks.{is_cpu_bound, is_disk_bound}
use netdata_postgres_mcp.Mcp.Readings.{
  DimAgg, Readings, no_readings, read_cpu, read_ram, read_swap, read_disk, read_agg, read_aggs,
  whole,
}

module _ {F : Type 0} (float : Float F) (ordered : IsOrdered float) where
  -- A value above a bound stays below what is raised to it, and a raised value keeps what it was above.
  pub raise_above :
      (b m v : F)
      → float.equal m m ≡ true
      → float.less b v ≡ true
      → float.less b (raise float m v) ≡ true
  unfolding raise
  raise_above b m v n h = elim (ordered.less_cotrans b m v n h) [
    | inr e ↦ rw (e, h) refl
    | inl e ↦ elim (Bool-cases (float.less m v)) [ inl t ↦ rw (t, h) refl | inr f ↦ rw (f, e) refl ]
  ]

  pub raise_keeps : (b m v : F) → float.less b m ≡ true → float.less b (raise float m v) ≡ true
  unfolding raise
  raise_keeps b m v h = elim (Bool-cases (float.less m v)) [
    | inl t ↦ rw (t, ordered.less_trans b m v h t) refl
    | inr f ↦ rw (f, h) refl
  ]

  pub raise-number :
      (m v : F) → float.equal m m ≡ true → float.equal (raise float m v) (raise float m v) ≡ true
  unfolding raise
  raise-number m v n = elim (Bool-cases (float.less m v)) [
    | inl t ↦ rw (t, (ordered.less-number m v t).1) refl
    | inr f ↦ rw (f, n) refl
  ]

  -- The greatest values so far are numbers, never NaN.
  abbrev pub Counted : Readings F → Type 0
  Counted r =
      (float.equal r.disk_util_max r.disk_util_max ≡ true)
      × (float.equal r.cpu_usage_max r.cpu_usage_max ≡ true)

  read_agg-Counted : (r : Readings F) (a : DimAgg F) → Counted r → Counted (read_agg float r a)
  unfolding read_agg read_cpu read_ram read_swap read_disk
  read_agg-Counted r a c =
      ground
        (arith, c, raise-number r.disk_util_max a.max c.0, raise-number r.cpu_usage_max a.max c.1)

  -- A disk above the bound, seen before.
  abbrev pub DiskAbove : F → Readings F → Type 0
  DiskAbove b r = (r.has_disk ≡ true) × (float.less b r.disk_util_max ≡ true)

  read_agg_disk :
      (b : F) (r : Readings F) (a : DimAgg F) → DiskAbove b r → DiskAbove b (read_agg float r a)
  unfolding read_agg read_cpu read_ram read_swap read_disk
  read_agg_disk b r a h = ground (arith, h, raise_keeps b r.disk_util_max a.max h.1)

  abbrev pub CpuAbove : F → Readings F → Type 0
  CpuAbove b r = (r.has_cpu ≡ true) × (float.less b r.cpu_usage_max ≡ true)

  read_agg_cpu :
      (b : F) (r : Readings F) (a : DimAgg F) → CpuAbove b r → CpuAbove b (read_agg float r a)
  unfolding read_agg read_cpu read_ram read_swap read_disk
  read_agg_cpu b r a h = ground (arith, h, raise_keeps b r.cpu_usage_max a.max h.1)

  module _ (P : Readings F → Type 0)
      (step : (r : Readings F) (a : DimAgg F) → P r → P (read_agg float r a)) where
    -- What every round keeps.
    read_aggs-keeps : (r : Readings F) (aggs : List (DimAgg F)) → P r → P (read_aggs float r aggs)
    unfolding read_aggs
    read_aggs-keeps r [] p = p
    read_aggs-keeps r (a ∷ aggs) p = read_aggs-keeps (read_agg float r a) aggs (step r a p)

  read_aggs-append :
      (r : Readings F) (before after : List (DimAgg F))
      → read_aggs float r (before ++ after) ≡ read_aggs float (read_aggs float r before) after
  unfolding read_aggs
  read_aggs-append r [] after = refl
  read_aggs-append r (a ∷ before) after = read_aggs-append (read_agg float r a) before after

  -- What one aggregate brings about stays to the end.
  module _ (P : Readings F → Type 0)
      (step : (r : Readings F) (a : DimAgg F) → P r → P (read_agg float r a))
      (before after : List (DimAgg F)) (a : DimAgg F) where
    pub read_aggs-seen :
        (r : Readings F)
        → P (read_agg float (read_aggs float r before) a)
        → P (read_aggs float r (before ++ (a ∷ after)))
    unfolding read_aggs
    read_aggs-seen r p = rw read_aggs-append (read_aggs-keeps P step _ after p)

  no_readings-Counted : Counted (no_readings float)
  unfolding no_readings
  no_readings-Counted = (ordered.decimal-number 0 0, ordered.decimal-number 0 0)

  -- A context of a disk is none of the others.
  pub disk_context :
      (s : List ℕ)
      → has_prefix s (str "disk.util") ≡ true
      → (eq_str s (str "system.cpu") ≡ false)
        × (eq_str s (str "system.ram") ≡ false)
        × (eq_str s (str "system.swap") ≡ false)
  unfolding has_prefix eq_str str
  disk_context [] h = absurd cc
  disk_context (c ∷ s) h = ground (arith, h)

  disk_seen :
      (b : F) (r : Readings F) (a : DimAgg F)
      → Counted r
      → has_prefix a.context (str "disk.util") ≡ true
      → float.less b a.max ≡ true
      → DiskAbove b (read_agg float r a)
  unfolding read_agg read_disk
  disk_seen b r a c p h =
      let other = disk_context a.context p in
      rw (other.0, other.1, other.2, p, raise_above b r.disk_util_max a.max c.0 h) (refl, refl)

  cpu_seen :
      (b : F) (r : Readings F) (a : DimAgg F)
      → Counted r
      → a.context ≡ str "system.cpu"
      → eq_str a.dimension (str "idle") ≡ false
      → float.less b a.max ≡ true
      → CpuAbove b (read_agg float r a)
  unfolding read_agg read_cpu str eq_str
  cpu_seen b r a c p d h = rw (p, d, raise_above b r.cpu_usage_max a.max c.1 h) (refl, refl)

  module _ (before after : List (DimAgg F)) (a : DimAgg F) where
    abbrev all_read : Readings F
    all_read = read_aggs float (no_readings float) (before ++ (a ∷ after))

    counted : Counted (read_aggs float (no_readings float) before)
    counted = read_aggs-keeps Counted read_agg-Counted _ before no_readings-Counted

    -- A disk that was busy for more than 80 percent of a time is a reason.
    pub busy_disk :
        has_prefix a.context (str "disk.util") ≡ true
        → float.less (whole float 80) a.max ≡ true
        → is_disk_bound float all_read ≡ true
    unfolding is_disk_bound
    busy_disk p h =
        let seen : DiskAbove (whole float 80) all_read =
          read_aggs-seen (DiskAbove (whole float 80)) (read_agg_disk (whole float 80)) before after
            a _ (disk_seen (whole float 80) _ a counted p h) in
        rw (seen.0, seen.1) refl

    -- A dimension of the processor that was above 95 percent, but for the idle one, is a reason.
    pub busy_cpu :
        a.context ≡ str "system.cpu"
        → eq_str a.dimension (str "idle") ≡ false
        → float.less (whole float 95) a.max ≡ true
        → is_cpu_bound float all_read ≡ true
    unfolding is_cpu_bound
    busy_cpu p d h =
        let seen : CpuAbove (whole float 95) all_read =
          read_aggs-seen (CpuAbove (whole float 95)) (read_agg_cpu (whole float 95)) before after a
            _ (cpu_seen (whole float 95) _ a counted p d h) in
        rw (seen.0, seen.1, or-true) refl
