-- ===== src/Mcp/Bottlenecks/Reasons.antt =====
-- The reasons in the aggregates for what `DetectBottlenecks` of internal/mcp/server.go reports.
use netdata_postgres_mcp.Base.{
  ◌≡◌, ◌⊎◌, refl, Bool, true, false, List, ◌∷◌, ◌++◌, inl, inr, Bool-cases, arith,
}
use netdata_postgres_mcp.Base.Text.{Bytes, str, eq_str, eq_str→eq, has_prefix}
use netdata_postgres_mcp.Base.Floats.{Float, IsOrdered}
use netdata_postgres_mcp.Mcp.Readings.{DimAgg, Readings, whole, no_readings, read_aggs}
use netdata_postgres_mcp.Mcp.Bottlenecks.{
  BottleneckType, nothing, cpu, ram, disk, Candidate, is_cpu_bound, is_ram_bound, is_disk_bound,
  detect_bottlenecks,
}
use netdata_postgres_mcp.Mcp.Sorting.{Sorts}
use netdata_postgres_mcp.Mcp.Bottlenecks.Seen.{busy_disk, busy_cpu}
use netdata_postgres_mcp.Mcp.Bottlenecks.Traced.{
  IsOf, is_busy, busy_total, Some, Traced, read_aggs-Traced, cpu_avg_busy,
}
use netdata_postgres_mcp.Mcp.Bottlenecks.Best.{is_supported, detect_bottlenecks-supported}

module _ {F : Type 0} (float : Float F) where
  -- What the aggregates must have for a bottleneck to be reported, and what they must not have for none.
  abbrev pub Reason : BottleneckType → List (DimAgg F) → Type 0
  Reason nothing aggs =
      (before after : List (DimAgg F)) (a : DimAgg F)
      → aggs ≡ before ++ (a ∷ after)
      → (has_prefix a.context (str "disk.util") ≡ true → float.less (whole float 80) a.max ≡ false)
        × (is_busy float a ≡ true → float.less (whole float 95) a.max ≡ false)
  Reason cpu aggs =
      (float.less (whole float 80) (busy_total float (whole float 0) aggs) ≡ true)
      ⊎ Some float aggs λ a. (is_busy float a ≡ true) × (float.less (whole float 95) a.max ≡ true)
  Reason ram aggs = Some float aggs λ u.
      IsOf float (str "system.ram") (str "used") u
      × ((float.less (whole float 0) u.max ≡ true)
          × ((float.less (float.mul u.max (float.decimal 9 1)) u.avg ≡ true)
              ⊎ Some float aggs λ s.
                IsOf float (str "system.swap") (str "used") s
                × (float.less (whole float 100) s.avg ≡ true)))
  Reason disk aggs =
      (Some float aggs λ a.
        (has_prefix a.context (str "disk.util") ≡ true)
        × (float.less (whole float 80) a.max ≡ true))
      ⊎ Some float aggs λ a.
        IsOf float (str "system.cpu") (str "iowait") a × (float.less (whole float 10) a.avg ≡ true)

  is_busy-cases :
      (a : DimAgg F)
      → is_busy float a ≡ true
      → (eq_str a.context (str "system.cpu") ≡ true) × (eq_str a.dimension (str "idle") ≡ false)
  is_busy-cases a h = ground (arith, h)

  true-ne-false : {b : Bool} → b ≡ true → b ≡ false → ⊥
  true-ne-false p q = cc

  clash : {x : F} {y z : F} → float.less x y ≡ true → y ≡ z → float.less x z ≡ false → ⊥
  clash {x} {y} {z} h e n = true-ne-false h (rw e n)

  module _ (ordered : IsOrdered float) (aggs : List (DimAgg F)) where
    no_readings-Traced : Traced float aggs (no_readings float)
    unfolding no_readings
    no_readings-Traced = record {
      cpu_max = λ b n h. absurd (clash h refl n);
      disk_max = λ b n h. absurd (clash h refl n);
      ram = inl refl;
      swap = inl refl;
      iowait = inl refl;
    }

    traced : Traced float aggs (read_aggs float (no_readings float) aggs)
    traced = read_aggs-Traced float aggs (no_readings float) aggs (λ a m. m) no_readings-Traced

    swap_reason :
        (r : Readings F)
        → Traced float aggs r
        → float.less (whole float 100) r.swap_used_avg ≡ true
        → Some float aggs λ s.
          IsOf float (str "system.swap") (str "used") s
          × (float.less (whole float 100) s.avg ≡ true)
    swap_reason r t h = elim t.swap [
      | inl z ↦ absurd (clash h z (ordered.decimal-nonneg 100 0))
      | inr (s, (m, (o, e))) ↦ (s, (m, (o, rw (← e) h)))
    ]

    cpu_bound-cases :
        (r : Readings F)
        → is_cpu_bound float r ≡ true
        → (float.less (whole float 80) r.cpu_usage_avg ≡ true)
          ⊎ (float.less (whole float 95) r.cpu_usage_max ≡ true)
    unfolding is_cpu_bound
    cpu_bound-cases r h = ground (arith, h)

    ram_bound-cases :
        (r : Readings F)
        → is_ram_bound float r ≡ true
        → (float.less (whole float 0) r.ram_used_max ≡ true)
          × ((float.less (whole float 100) r.swap_used_avg ≡ true)
              ⊎ (float.less (float.mul r.ram_used_max (float.decimal 9 1)) r.ram_used_avg ≡ true))
    unfolding is_ram_bound
    ram_bound-cases r h = ground (arith, h)

    disk_bound-cases :
        (r : Readings F)
        → is_disk_bound float r ≡ true
        → (float.less (whole float 80) r.disk_util_max ≡ true)
          ⊎ (float.less (whole float 10) r.iowait_avg ≡ true)
    unfolding is_disk_bound
    disk_bound-cases r h = ground (arith, h)

    ram-Reason :
        (r : Readings F) → Traced float aggs r → is_ram_bound float r ≡ true → Reason ram aggs
    ram-Reason r t h =
        let (p, q) = ram_bound-cases r h in
        elim t.ram [
          | inl z ↦ absurd (clash p z (ordered.less_irrefl (whole float 0)))
          | inr (u, (m, (o, (e, e')))) ↦ (
            u,
            (
              m,
              (
                o,
                (
                  rw (← e) p,
                  elim q [ inl s ↦ inr (swap_reason r t s) | inr g ↦ inl (rw (← e, ← e') g) ],
                ),
              ),
            ),
          )
        ]

    disk-Reason :
        (r : Readings F) → Traced float aggs r → is_disk_bound float r ≡ true → Reason disk aggs
    disk-Reason r t h = elim (disk_bound-cases r h) [
      | inl k ↦ inl (t.disk_max (whole float 80) (ordered.decimal-nonneg 80 0) k)
      | inr k ↦ elim t.iowait [
        | inl z ↦ absurd (clash k z (ordered.decimal-nonneg 10 0))
        | inr (a, (m, (o, e))) ↦ inr (a, (m, (o, rw (← e) k)))
      ]
    ]

    cpu-Reason :
        (r : Readings F)
        → Traced float aggs r
        → r.cpu_usage_avg ≡ busy_total float (whole float 0) aggs
        → is_cpu_bound float r ≡ true
        → Reason cpu aggs
    cpu-Reason r t e h = elim (cpu_bound-cases r h) [
      | inl k ↦ inl (rw (← e) k)
      | inr k ↦ inr (t.cpu_max (whole float 95) (ordered.decimal-nonneg 95 0) k)
    ]

    not_bound :
        (r : Readings F)
        → is_supported float nothing r ≡ true
        → (is_cpu_bound float r ≡ false) × (is_disk_bound float r ≡ false)
    unfolding is_supported
    not_bound r h = ground (arith, h)

    abbrev read_all : List (DimAgg F) → Readings F
    read_all = read_aggs float (no_readings float)

    no_disk :
        (before after : List (DimAgg F)) (a : DimAgg F)
        → is_disk_bound float (read_all (before ++ (a ∷ after))) ≡ false
        → has_prefix a.context (str "disk.util") ≡ true
        → float.less (whole float 80) a.max ≡ false
    no_disk before after a n p = elim (Bool-cases (float.less (whole float 80) a.max)) [
      | inr e ↦ e
      | inl e ↦ absurd (true-ne-false (busy_disk float ordered before after a p e) n)
    ]

    no_cpu :
        (before after : List (DimAgg F)) (a : DimAgg F)
        → is_cpu_bound float (read_all (before ++ (a ∷ after))) ≡ false
        → is_busy float a ≡ true
        → float.less (whole float 95) a.max ≡ false
    no_cpu before after a n b = elim (Bool-cases (float.less (whole float 95) a.max)) [
      | inr e ↦ e
      | inl e ↦
          let (c, d) = is_busy-cases a b in
          absurd (
            true-ne-false
              (busy_cpu float ordered before after a (eq_str→eq a.context (str "system.cpu") c) d e)
              n)
    ]

    supported-Reason :
        (t : BottleneckType) → is_supported float t (read_all aggs) ≡ true → Reason t aggs
    unfolding is_supported no_readings
    supported-Reason nothing h =
        let (c, d) = not_bound (read_all aggs) h in
        λ before after a e.
          (no_disk before after a (rw (← e) d), no_cpu before after a (rw (← e) c))
    supported-Reason cpu h =
        cpu-Reason (read_all aggs) traced (cpu_avg_busy float (no_readings float) aggs) h
    supported-Reason ram h = ram-Reason (read_all aggs) traced h
    supported-Reason disk h = disk-Reason (read_all aggs) traced h

    -- A reported bottleneck has its reason in the aggregates. Of the processor: the averages of its
    -- dimensions but the idle one add up to more than 80, or one of them was above 95. Of the memory:
    -- there is used memory, and its average is above nine tenths of its maximum or that of the used
    -- swap space above 100. Of the disks: one was above 80, or an average wait for input and
    -- output is above 10. If none is reported, no disk was above 80, and no dimension of the processor
    -- but the idle one above 95.
    pub detect_bottlenecks-Reason :
        (sort : (Candidate F → Candidate F → Bool) → List (Candidate F) → List (Candidate F))
        (sorts : Sorts sort) (node_id : Bytes)
        → Reason (detect_bottlenecks float sort node_id aggs).bottleneck_type aggs
    detect_bottlenecks-Reason sort sorts node_id =
        supported-Reason _ (detect_bottlenecks-supported float sort sorts node_id aggs)
