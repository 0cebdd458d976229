-- ===== src/Postgres/Batches.antt =====
-- items[i:end] of the batch loops of internal/store/store.go and internal/remotewrite/handler.go,
-- where `end` is `i + size` and at most `len(items)`.
use mathlib.Core.List.{append-nil}
use netdata_postgres_mcp.Base.{
  ℕ, ◌+◌, ◌-◌, ◌≡◌, List, ◌++◌, length, take, drop, ltb, if◌then◌else◌, arith, Bool-cases, ltb→lt,
  inl, inr, length-drop, take-all, drop-all, take-drop-append,
}

module _ {A : Type 0} (size : ℕ) where
  abbrev pub batch_at : List A → ℕ → List A
  batch_at items i =
      let stop = if ltb (length items) (i + size) then length items else i + size in
      take (stop - i) (drop i items)

  -- The batch that starts at `i`, and the items from its end on, are the items from `i` on.
  pub batch_at-append :
      (items : List A) (i : ℕ) → batch_at items i ++ drop (i + size) items ≡ drop i items
  batch_at-append items i = elim (Bool-cases (ltb (length items) (i + size))) [
    | inl short ↦
        let over = ltb→lt _ _ short in
        rw
          (
            short,
            take-all (length items - i) (drop i items) (omega (arith, length-drop i items)),
            drop-all (i + size) items (omega arith),
          )
          (append-nil _)
    | inr full ↦
        let e : i + size - i ≡ size = omega arith in rw (full, e) (take-drop-append i size items)
  ]
