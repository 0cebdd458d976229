-- ===== src/Mcp/Bottlenecks/Best/Greatest.antt =====
-- The confidence that `DetectBottlenecks` of internal/mcp/server.go reports.
use mathlib.Core.Logic.Or
use mathlib.Core.List.{Mem, Pairwise, eq-or-mem_of_mem-cons, not-mem-nil, rel_of_Pairwise-cons}
use mathlib.Core.List.Perm
use netdata_postgres_mcp.Base.{◌≡◌, Bool, true, false, List, [], ◌∷◌}
use netdata_postgres_mcp.Base.Text.{Bytes}
use netdata_postgres_mcp.Base.Floats.{Float, IsOrdered}
use netdata_postgres_mcp.Mcp.Bottlenecks.{Candidate, candidates, result_of, detect_bottlenecks}
use netdata_postgres_mcp.Mcp.Readings.{DimAgg, no_readings, read_aggs}
use netdata_postgres_mcp.Mcp.Sorting.{Sorts, greater-IsWeakOrder}

module _ {F : Type 0} (float : Float F) (ordered : IsOrdered float) where
  abbrev more_confident : Candidate F → Candidate F → Bool
  more_confident c d = float.less d.confidence c.confidence

  AtMost : F → Candidate F → Type 0
  AtMost m c = float.less m c.confidence ≡ false

  AtMost-prop : (m : F) (c : Candidate F) → IsProp (AtMost m c)
  unfolding AtMost
  AtMost-prop m c = hlevel

  first_greatest :
      (node_id : Bytes) (cs : List (Candidate F))
      → Pairwise (λ (c d : Candidate F). more_confident d c ≡ false) cs
      → (c : Candidate F) → Mem c cs
      → AtMost (result_of float node_id cs).confidence c
  unfolding AtMost result_of
  first_greatest node_id [] p c m = absurd (not-mem-nil m)
  first_greatest node_id (d ∷ cs) p c m =
      Or.elim (AtMost-prop d.confidence c) (eq-or-mem_of_mem-cons m)
        (λ e. rw e (ordered.less_irrefl d.confidence)) (λ n. rel_of_Pairwise-cons p n)

  module _ (sort : (Candidate F → Candidate F → Bool) → List (Candidate F) → List (Candidate F))
      (sorts : Sorts sort) where
    -- No bottleneck that was found is more confident than the one reported, if no confidence is NaN.
    pub detect_bottlenecks_greatest :
        (node_id : Bytes) (aggs : List (DimAgg F))
        → ((c : Candidate F)
            → Mem c (candidates float (read_aggs float (no_readings float) aggs))
            → float.equal c.confidence c.confidence ≡ true)
        → (c : Candidate F) → Mem c (candidates float (read_aggs float (no_readings float) aggs))
        → float.less (detect_bottlenecks float sort node_id aggs).confidence c.confidence ≡ false
    unfolding detect_bottlenecks AtMost
    detect_bottlenecks_greatest node_id aggs numbers c m =
        first_greatest node_id _
          (sorts.sorted more_confident _
            (greater-IsWeakOrder float ordered (λ (c : Candidate F). c.confidence) _ numbers))
          c ((Perm.mem_iff (sorts.perm more_confident _)).1 m)
