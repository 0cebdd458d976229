-- ===== src/Mcp/Bottlenecks/Traced.antt =====
-- Where the readings of the loop over the aggregates come from, in `DetectBottlenecks` of
-- internal/mcp/server.go.
use mathlib.Core.List.{Mem, mem-cons_self, mem-cons_of_mem}
use netdata_postgres_mcp.Base.{
  ◌≡◌, ◌⊎◌, refl, ◌∙◌, ap, Bool, true, false, not, ◌&&◌, List, [], ◌∷◌, inl, inr, if◌then◌else◌,
  arith,
}
use netdata_postgres_mcp.Base.Text.{Bytes, str, eq_str, has_prefix}
use netdata_postgres_mcp.Base.Floats.{Float, raise}
use netdata_postgres_mcp.Mcp.Readings.{
  DimAgg, Readings, whole, read_cpu, read_ram, read_swap, read_disk, read_agg, read_aggs,
}

module _ {F : Type 0} (float : Float F) where
  -- A dimension of a context.
  abbrev pub IsOf : Bytes → Bytes → DimAgg F → Type 0
  IsOf context dimension a =
      (eq_str a.context context ≡ true) × (eq_str a.dimension dimension ≡ true)

  -- A dimension of the processor that is not its idle time.
  abbrev pub is_busy : DimAgg F → Bool
  is_busy a = eq_str a.context (str "system.cpu") && not (eq_str a.dimension (str "idle"))

  abbrev pub busy_total : F → List (DimAgg F) → F
  busy_total t [] = t
  busy_total t (a ∷ aggs) = busy_total (if is_busy a then float.add t a.avg else t) aggs

  -- One of the aggregates with a property.
  abbrev pub Some : List (DimAgg F) → (DimAgg F → Type 0) → Type 0
  Some aggs P = (a : DimAgg F) × (Mem a aggs × P a)

  -- Where the readings of one round come from.
  cpu_avg_step :
      (r : Readings F) (a : DimAgg F)
      → (read_agg float r a).cpu_usage_avg
        ≡ (if is_busy a then float.add r.cpu_usage_avg a.avg else r.cpu_usage_avg)
  unfolding read_agg read_cpu read_ram read_swap read_disk
  cpu_avg_step r a = ground arith

  cpu_max_step :
      (b : F) (r : Readings F) (a : DimAgg F)
      → float.less b (read_agg float r a).cpu_usage_max ≡ true
      → (float.less b r.cpu_usage_max ≡ true) ⊎ ((is_busy a ≡ true) × (float.less b a.max ≡ true))
  unfolding read_agg read_cpu read_ram read_swap read_disk raise
  cpu_max_step b r a h = ground (arith, h)

  disk_max_step :
      (b : F) (r : Readings F) (a : DimAgg F)
      → float.less b (read_agg float r a).disk_util_max ≡ true
      → (float.less b r.disk_util_max ≡ true)
        ⊎ ((has_prefix a.context (str "disk.util") ≡ true) × (float.less b a.max ≡ true))
  unfolding read_agg read_cpu read_ram read_swap read_disk raise
  disk_max_step b r a h = ground (arith, h)

  ram_step :
      (r : Readings F) (a : DimAgg F)
      → (((read_agg float r a).ram_used_max ≡ r.ram_used_max)
          × ((read_agg float r a).ram_used_avg ≡ r.ram_used_avg))
        ⊎ (IsOf (str "system.ram") (str "used") a
            × (((read_agg float r a).ram_used_max ≡ a.max)
                × ((read_agg float r a).ram_used_avg ≡ a.avg)))
  unfolding read_agg read_cpu read_ram read_swap read_disk
  ram_step r a = ground arith

  swap_step :
      (r : Readings F) (a : DimAgg F)
      → ((read_agg float r a).swap_used_avg ≡ r.swap_used_avg)
        ⊎ (IsOf (str "system.swap") (str "used") a × ((read_agg float r a).swap_used_avg ≡ a.avg))
  unfolding read_agg read_cpu read_ram read_swap read_disk
  swap_step r a = ground arith

  iowait_step :
      (r : Readings F) (a : DimAgg F)
      → ((read_agg float r a).iowait_avg ≡ r.iowait_avg)
        ⊎ (IsOf (str "system.cpu") (str "iowait") a × ((read_agg float r a).iowait_avg ≡ a.avg))
  unfolding read_agg read_cpu read_ram read_swap read_disk
  iowait_step r a = ground arith

  module _ (all : List (DimAgg F)) where
    -- What each reading comes from, among the aggregates.
    pub record Traced (r : Readings F) : Type 0 where
      pub cpu_max :
          (b : F)
          → float.less b (whole float 0) ≡ false
          → float.less b r.cpu_usage_max ≡ true
          → Some all λ a. (is_busy a ≡ true) × (float.less b a.max ≡ true)
      pub disk_max :
          (b : F)
          → float.less b (whole float 0) ≡ false
          → float.less b r.disk_util_max ≡ true
          → Some all
              λ a. (has_prefix a.context (str "disk.util") ≡ true) × (float.less b a.max ≡ true)
      pub ram :
          (r.ram_used_max ≡ whole float 0)
          ⊎ Some all λ u.
            IsOf (str "system.ram") (str "used") u
            × ((r.ram_used_max ≡ u.max) × (r.ram_used_avg ≡ u.avg))
      pub swap :
          (r.swap_used_avg ≡ whole float 0)
          ⊎ Some all λ s. IsOf (str "system.swap") (str "used") s × (r.swap_used_avg ≡ s.avg)
      pub iowait :
          (r.iowait_avg ≡ whole float 0)
          ⊎ Some all λ a. IsOf (str "system.cpu") (str "iowait") a × (r.iowait_avg ≡ a.avg)

    ram_Traced :
        (r : Readings F) (a : DimAgg F)
        → Mem a all
        → Traced r
        → ((read_agg float r a).ram_used_max ≡ whole float 0)
          ⊎ Some all λ u.
            IsOf (str "system.ram") (str "used") u
            × (((read_agg float r a).ram_used_max ≡ u.max)
                × ((read_agg float r a).ram_used_avg ≡ u.avg))
    ram_Traced r a m t = elim (ram_step r a) [
      | inr (o, e) ↦ inr (a, (m, (o, e)))
      | inl (p, q) ↦ elim t.ram [
        | inl z ↦ inl (p ∙ z)
        | inr (u, (n, (o, (e, e')))) ↦ inr (u, (n, (o, (p ∙ e, q ∙ e'))))
      ]
    ]

    read_agg-Traced :
        (r : Readings F) (a : DimAgg F) → Mem a all → Traced r → Traced (read_agg float r a)
    read_agg-Traced r a m t = record {
      cpu_max =
          λ b n h. elim (cpu_max_step b r a h) [ inl k ↦ t.cpu_max b n k | inr k ↦ (a, (m, k)) ];
      disk_max =
          λ b n h. elim (disk_max_step b r a h) [ inl k ↦ t.disk_max b n k | inr k ↦ (a, (m, k)) ];
      ram = ram_Traced r a m t;
      swap = elim (swap_step r a) [
        | inr k ↦ inr (a, (m, k))
        | inl p ↦ elim t.swap [
          | inl z ↦ inl (p ∙ z)
          | inr (s, (n, (o, e))) ↦ inr (s, (n, (o, p ∙ e)))
        ]
      ];
      iowait = elim (iowait_step r a) [
        | inr k ↦ inr (a, (m, k))
        | inl p ↦ elim t.iowait [
          | inl z ↦ inl (p ∙ z)
          | inr (s, (n, (o, e))) ↦ inr (s, (n, (o, p ∙ e)))
        ]
      ];
    }

    pub read_aggs-Traced :
        (r : Readings F) (aggs : List (DimAgg F))
        → ((a : DimAgg F) → Mem a aggs → Mem a all)
        → Traced r
        → Traced (read_aggs float r aggs)
    unfolding read_aggs
    read_aggs-Traced r [] m t = t
    read_aggs-Traced r (a ∷ aggs) m t =
        read_aggs-Traced (read_agg float r a) aggs (λ b n. m b (mem-cons_of_mem a n))
          (read_agg-Traced r a (m a mem-cons_self) t)

  pub cpu_avg_busy :
      (r : Readings F) (aggs : List (DimAgg F))
      → (read_aggs float r aggs).cpu_usage_avg ≡ busy_total r.cpu_usage_avg aggs
  unfolding read_aggs
  cpu_avg_busy r [] = refl
  cpu_avg_busy r (a ∷ aggs) =
      cpu_avg_busy (read_agg float r a) aggs ∙ ap (λ (x : F). busy_total x aggs) (cpu_avg_step r a)
