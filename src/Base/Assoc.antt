-- ===== src/Base/Assoc.antt =====
-- A Go map with string keys, as the list of its entries.
use netdata_postgres_mcp.Base.Text.{Bytes, eq_str, eq_str_refl, eq_str→eq}
use netdata_postgres_mcp.Base.Tests.{if◌then◌else◌, Bool-cases}
use mathlib.Core.Path.{◌≡◌, refl}
use mathlib.Core.Logic.{inl, inr}
use mathlib.Core.Bool.{false}
use mathlib.Core.List.{List, [], ◌∷◌}
use mathlib.Core.Option.{Option, none, some}

abbrev pub Assoc : Type 0 → Type 0
Assoc V = List (Bytes × V)

module _ {V : Type 0} where
  -- m[k], `none` if the key is missing
  unfoldable pub lookup : Bytes → Assoc V → Option V
  lookup k [] = none
  lookup k (e ∷ m) = if eq_str e.0 k then some e.1 else lookup k m

  -- m[k] = f(m[k])
  unfoldable pub update : Bytes → (Option V → V) → Assoc V → Assoc V
  update k f [] = (k, f none) ∷ []
  update k f (e ∷ m) =
      let rest = update k f m in if eq_str e.0 k then (e.0, f (some e.1)) ∷ m else e ∷ rest

  pub lookup-update_same :
      (k : Bytes) (f : Option V → V) (m : Assoc V) → lookup k (update k f m) ≡ some (f (lookup k m))
  unfolding lookup update
  lookup-update_same k f [] = rw (eq_str_refl k) refl
  lookup-update_same k f (e ∷ m) = elim (Bool-cases (eq_str e.0 k)) [
    | inl b ↦ rw (b, b) refl
    | inr b ↦ rw (b, b) (lookup-update_same k f m)
  ]

  pub lookup-update_other :
      (k k' : Bytes) (f : Option V → V) (m : Assoc V)
      → eq_str k k' ≡ false
      → lookup k' (update k f m) ≡ lookup k' m
  unfolding lookup update
  lookup-update_other k k' f [] n = rw n refl
  lookup-update_other k k' f (e ∷ m) n = elim (Bool-cases (eq_str e.0 k)) [
    | inl b ↦ rw (b, eq_str→eq e.0 k b, n) refl
    | inr b ↦ elim (Bool-cases (eq_str e.0 k')) [
      | inl c ↦ rw (b, c) refl
      | inr c ↦ rw (b, c) (lookup-update_other k k' f m n)
    ]
  ]

  pub lookup-update :
      (k k' : Bytes) (f : Option V → V) (m : Assoc V)
      → lookup k' (update k f m) ≡ (if eq_str k k' then some (f (lookup k' m)) else lookup k' m)
  lookup-update k k' f m = elim (Bool-cases (eq_str k k')) [
    | inl b ↦ rw (b, ← eq_str→eq k k' b) (lookup-update_same k f m)
    | inr b ↦ rw b (lookup-update_other k k' f m b)
  ]
