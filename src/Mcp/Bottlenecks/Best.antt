-- ===== src/Mcp/Bottlenecks/Best.antt =====
-- What `DetectBottlenecks` of internal/mcp/server.go reports, if sort.Slice sorts.
pub mod Greatest
use mathlib.Core.Logic.Or
use mathlib.Core.List.{Mem, Perm, mem-append, eq-or-mem_of_mem-cons, not-mem-nil, mem-cons_self}
use mathlib.Core.List.Perm
use netdata_postgres_mcp.Base.{
  ℕ, ◌≡◌, ◌≢◌, ◌⊎◌, refl, sym, ap, Bool, true, false, not, ◌&&◌, ◌||◌, List, [], ◌∷◌, ◌++◌,
  Bool-cases, inl, inr, arith, if◌then◌else◌,
}
use netdata_postgres_mcp.Base.Text.{Bytes, str, eq_str}
use netdata_postgres_mcp.Base.Floats.{Float, IsOrdered}
use netdata_postgres_mcp.Mcp.Bottlenecks.{
  BottleneckType, nothing, cpu, ram, disk, BottleneckResult, Candidate, when, is_cpu_bound,
  is_ram_bound, is_disk_bound, cpu_candidate, ram_candidate, disk_candidate, candidates, result_of,
  detect_bottlenecks,
}
use netdata_postgres_mcp.Mcp.Readings.{DimAgg, Readings, no_readings, read_aggs, whole}
use netdata_postgres_mcp.Mcp.Bottlenecks.Seen.{busy_cpu}
use netdata_postgres_mcp.Mcp.Sorting.{Sorts}

module _ {F : Type 0} (float : Float F) where
  -- The readings give a reason for a type of bottleneck; for none, if they give no reason for another.
  unfoldable pub is_supported : BottleneckType → Readings F → Bool
  unfolding is_cpu_bound is_ram_bound is_disk_bound
  is_supported nothing r =
      not (is_cpu_bound float r || is_ram_bound float r || is_disk_bound float r)
  is_supported cpu r = is_cpu_bound float r
  is_supported ram r = is_ram_bound float r
  is_supported disk r = is_disk_bound float r

  Supported : Readings F → Candidate F → Type 0
  Supported r c = is_supported c.btype r ≡ true

  Supported-prop : (r : Readings F) (c : Candidate F) → IsProp (Supported r c)
  unfolding Supported
  Supported-prop r c = hlevel

  -- A candidate that is put forward under a condition.
  Supported-when :
      (r : Readings F) (b : Bool) (c d : Candidate F)
      → (b ≡ true → Supported r d)
      → Mem c (when float b d)
      → Supported r c
  Supported-when r false c d h m = absurd (not-mem-nil m)
  Supported-when r true c d h m =
      Or.elim (Supported-prop r c) (eq-or-mem_of_mem-cons m) (λ e. rw e (h refl))
        (λ n. absurd (not-mem-nil n))

  candidates-Supported :
      (r : Readings F) (c : Candidate F) → Mem c (candidates float r) → Supported r c
  unfolding Supported candidates is_supported cpu_candidate ram_candidate disk_candidate
  candidates-Supported r c m =
      Or.elim (Supported-prop r c) (mem-append.0 m)
        (λ rest.
          Or.elim (Supported-prop r c) (mem-append.0 rest)
            (Supported-when r (is_cpu_bound float r) c (cpu_candidate float r) (λ h. h))
            (Supported-when r (is_ram_bound float r) c (ram_candidate float r) (λ h. h)))
        (Supported-when r (is_disk_bound float r) c (disk_candidate float r) (λ h. h))

  no_candidates : (r : Readings F) → candidates float r ≡ [] → is_supported nothing r ≡ true
  unfolding candidates is_supported
  no_candidates r e = ground (arith, e)

  module _ (sort : (Candidate F → Candidate F → Bool) → List (Candidate F) → List (Candidate F))
      (sorts : Sorts sort) where
    sorted-supported :
        (node_id : Bytes) (r : Readings F) (cs : List (Candidate F))
        → Perm cs (candidates float r)
        → is_supported (result_of float node_id cs).bottleneck_type r ≡ true
    unfolding result_of Supported
    sorted-supported node_id r [] p = no_candidates r (Perm.eq-nil (Perm.symm p))
    sorted-supported node_id r (c ∷ cs) p =
        candidates-Supported r c ((Perm.mem_iff p).0 mem-cons_self)

    -- The type of bottleneck that is reported is one for which the aggregates give a reason, and none
    -- is reported only if they give no reason for any.
    pub detect_bottlenecks-supported :
        (node_id : Bytes) (aggs : List (DimAgg F))
        → is_supported
            (detect_bottlenecks float sort node_id aggs).bottleneck_type
            (read_aggs float (no_readings float) aggs)
          ≡ true
    unfolding detect_bottlenecks
    detect_bottlenecks-supported node_id aggs = sorted-supported node_id _ _ (sorts.perm _ _)

    not_overlooked :
        (r : Readings F) (t : BottleneckType)
        → (is_cpu_bound float r || is_disk_bound float r) ≡ true
        → is_supported t r ≡ true
        → t ≢ nothing
    unfolding is_supported
    not_overlooked r nothing b s e = ground (arith, b, s)
    not_overlooked r cpu b s e = cc
    not_overlooked r ram b s e = cc
    not_overlooked r disk b s e = cc

    module _ (ordered : IsOrdered float) (node_id : Bytes) (before after : List (DimAgg F))
        (a : DimAgg F) where
      -- A dimension of the processor other than the idle one that was above 95 percent at some time is
      -- not overlooked either.
      pub detect_bottlenecks_cpu :
          a.context ≡ str "system.cpu"
          → eq_str a.dimension (str "idle") ≡ false
          → float.less (whole float 95) a.max ≡ true
          → (detect_bottlenecks float sort node_id (before ++ (a ∷ after))).bottleneck_type
            ≢ nothing
      detect_bottlenecks_cpu p d h =
          not_overlooked _ _ (rw (busy_cpu float ordered before after a p d h) refl)
            (detect_bottlenecks-supported node_id (before ++ (a ∷ after)))
