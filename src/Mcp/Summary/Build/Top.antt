-- ===== src/Mcp/Summary/Build/Top.antt =====
-- The most abnormal dimensions of `buildSummary` of internal/mcp/server.go.
use mathlib.Core.List.{Mem}
use netdata_postgres_mcp.Base.{ℕ, ◌≡◌, refl, Bool, true, List, map, take}
use netdata_postgres_mcp.Base.Floats.{Float, IsOrdered}
use netdata_postgres_mcp.Mcp.Sorting.{Sorts, IsFirst, take-IsFirst, greater-IsWeakOrder}
use netdata_postgres_mcp.Base.Assoc.{Assoc}
use netdata_postgres_mcp.Mcp.Summary.{DimStats, Stats}
use netdata_postgres_mcp.Mcp.Summary.Build.{
  AbnormalCandidate, abnormal_candidates, abnormal_dimension, top_abnormal,
}

module _ {F : Type 0} (float : Float F) (ordered : IsOrdered float)
    (order : ℕ → Assoc (DimStats F) → Assoc (DimStats F)) (order_contexts : ℕ → Stats F → Stats F)
    (sort : (AbnormalCandidate F → AbnormalCandidate F → Bool)
      → List (AbnormalCandidate F)
      → List (AbnormalCandidate F))
    (sorts : Sorts sort) where
  abbrev peak : AbnormalCandidate F → F
  peak c = c.max

  -- The summary lists at most five of the dimensions that are not ignored, and none that it leaves out has
  -- a greater maximum than one that it lists, if no maximum is NaN.
  pub top_abnormal-IsFirst :
      (stats : Stats F)
      → ((c : AbnormalCandidate F)
          → Mem c (abnormal_candidates float order order_contexts (order_contexts 6 stats))
          → float.equal c.max c.max ≡ true)
      → (kept : List (AbnormalCandidate F)) × ((top_abnormal float order order_contexts sort stats
            ≡ map (abnormal_dimension float) kept)
          × IsFirst
              (λ (c : AbnormalCandidate F) (d : AbnormalCandidate F). float.less d.max c.max)
              5
              (abnormal_candidates float order order_contexts (order_contexts 6 stats))
              kept)
  unfolding top_abnormal
  top_abnormal-IsFirst stats numbers = (
    take 5 _,
    (refl, take-IsFirst sort sorts _ 5 _ (greater-IsWeakOrder float ordered peak _ numbers)),
  )
