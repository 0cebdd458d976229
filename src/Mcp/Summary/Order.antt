-- ===== src/Mcp/Summary/Order.antt =====
-- The order in which Go goes through a map in `buildSummary` of internal/mcp/server.go.
use mathlib.Core.Logic.Or
use mathlib.Core.List.{
  Mem, Perm, mem-cons_self, mem-cons_of_mem, eq-or-mem_of_mem-cons, not-mem-nil,
}
use mathlib.Core.List.Perm
use netdata_postgres_mcp.Base.{◌≡◌, refl, false, [], ◌∷◌, Bool-cases, inl, inr}
use netdata_postgres_mcp.Base.Text.{Bytes}
use netdata_postgres_mcp.Base.Assoc.{Assoc}
use netdata_postgres_mcp.Base.Floats.{Float, IsOrdered, raise}
use netdata_postgres_mcp.Mcp.Summary.{DimStats}
use netdata_postgres_mcp.Mcp.Summary.Extremes.{raise-within}
use netdata_postgres_mcp.Mcp.Summary.Sections.{greatest_util}

module _ {F : Type 0} (float : Float F) where
  raise-one : (P : F → Type 0) (m v : F) → P m → P v → P (raise float m v)
  unfolding raise
  raise-one P m v p q = elim (Bool-cases (float.less m v)) [ inl b ↦ rw b q | inr b ↦ rw b p ]

  -- What holds of the start and of every maximum holds of the greatest.
  greatest_util-one :
      (P : F → Type 0) (m : F) (dims : Assoc (DimStats F))
      → P m
      → ((e : Bytes × DimStats F) → Mem e dims → P e.1.max)
      → P (greatest_util float m dims)
  unfolding greatest_util
  greatest_util-one P m [] p q = p
  greatest_util-one P m (e ∷ dims) p q =
      greatest_util-one P (raise float m e.1.max) dims (raise-one P m e.1.max p (q e mem-cons_self))
        (λ d n. q d (mem-cons_of_mem e n))

  module _ (ordered : IsOrdered float) where
    NotBelow : F → Bytes × DimStats F → Type 0
    NotBelow g e = float.less g e.1.max ≡ false

    NotBelow-prop : (g : F) (e : Bytes × DimStats F) → IsProp (NotBelow g e)
    unfolding NotBelow
    NotBelow-prop g e = hlevel

    raise_own : (m v : F) → float.less (raise float m v) v ≡ false
    unfolding raise
    raise_own m v = elim (Bool-cases (float.less m v)) [
      | inl b ↦ rw b (ordered.less_irrefl v)
      | inr b ↦ rw (b, b) refl
    ]

    start_within :
        (m w : F) (dims : Assoc (DimStats F))
        → float.less m w ≡ false
        → float.less (greatest_util float m dims) w ≡ false
    unfolding greatest_util
    start_within m w [] h = h
    start_within m w (e ∷ dims) h =
        start_within (raise float m e.1.max) w dims (raise-within float ordered m e.1.max w h)

    all_within :
        (m : F) (dims : Assoc (DimStats F)) (e : Bytes × DimStats F)
        → Mem e dims
        → NotBelow (greatest_util float m dims) e
    unfolding greatest_util NotBelow
    all_within m [] e n = absurd (not-mem-nil n)
    all_within m (d ∷ dims) e n =
        Or.elim (NotBelow-prop (greatest_util float (raise float m d.1.max) dims) e)
          (eq-or-mem_of_mem-cons n)
          (λ p. rw p (start_within (raise float m d.1.max) d.1.max dims (raise_own m d.1.max)))
          (λ k. all_within (raise float m d.1.max) dims e k)

    -- The peak of the disks does not depend on the order in which the map of the dimensions is gone
    -- through: neither of two orders gives a lower peak than the other.
    pub greatest_util-Perm :
        (m : F) (dims dims' : Assoc (DimStats F))
        → Perm dims dims'
        → (float.less (greatest_util float m dims) (greatest_util float m dims') ≡ false)
          × (float.less (greatest_util float m dims') (greatest_util float m dims) ≡ false)
    unfolding NotBelow
    greatest_util-Perm m dims dims' p = (one dims dims' p, one dims' dims (Perm.symm p))
      where
        one :
            (a b : Assoc (DimStats F))
            → Perm a b
            → float.less (greatest_util float m a) (greatest_util float m b) ≡ false
        one a b q =
            greatest_util-one (λ x. float.less (greatest_util float m a) x ≡ false) m b
              (start_within m m a (ordered.less_irrefl m))
              (λ e n. all_within m a e ((Perm.mem_iff q).1 n))
