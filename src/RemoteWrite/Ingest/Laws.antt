-- ===== src/RemoteWrite/Ingest/Laws.antt =====
-- What `ingest` of internal/remotewrite/handler.go leaves in the table, over any database that keeps
-- what `Pool` says of PostgreSQL.
use mathlib.Core.List.{map-append}
use netdata_postgres_mcp.Base.{
  ℕ, zero, suc, ◌+◌, ◌≤◌, ◌<◌, ◌≡◌, refl, ◌∙◌, ap, sym, true, false, List, [], ◌∷◌, ◌++◌, Option,
  none, some, map, length, length-append, drop, ltb, ◌==◌, arith, Bool-cases, Option-cases, ltb→ge,
  inl, inr, drop-all,
}
use netdata_postgres_mcp.Base.Text.{Bytes}
use netdata_postgres_mcp.Postgres.{
  bound, bound-numbered, insert_all, insert_all-append, insert_all-nil, Pool, batch_at,
  batch_at-append,
}
use netdata_postgres_mcp.RemoteWrite.Parse.{PrTimeSeries}
use netdata_postgres_mcp.RemoteWrite.Ingest.{
  Row, row_args, batch_size, batch_statement, ingest_loop, ingest, ingest_rows, after_loop, rows_of,
  batch_failed, LoopEnd, done, failed, stuck, Ingested,
}

length-row_args : (node_id : Bytes) (r : Row) → length (row_args node_id r) ≡ 6
unfolding row_args
length-row_args node_id r = refl

bound-batch_statement :
    (node_id : Bytes) (batch : List Row)
    → bound (batch_statement node_id batch) ≡ some (map (row_args node_id) batch)
unfolding batch_statement
bound-batch_statement node_id batch =
    bound-numbered 6 (row_args node_id) (length-row_args node_id) _ batch

module _ (pool : Pool) (node_id : Bytes) where
  open pool use {
    Db, Tx, begin, exec, commit, stored, pending, conflict, begin_stored, exec_pending,
    commit_pending,
  }

  -- What the loop does to the transaction and to the count, over the rows left.
  abbrev LoopGrown : Tx → List Row → ℕ → LoopEnd Tx → Type 0
  LoopGrown t rows count (done count' t') =
      (pending t' ≡ insert_all conflict (pending t) (map (row_args node_id) rows))
      × (count' ≡ count + length rows)
  LoopGrown t rows count (failed n e) = Unit
  LoopGrown t rows count stuck = ⊥

  batch-LoopGrown :
      (t t' : Tx) (batch rest rows : List Row) (count : ℕ) (r : LoopEnd Tx)
      → batch ++ rest ≡ rows
      → pending t' ≡ insert_all conflict (pending t) (map (row_args node_id) batch)
      → LoopGrown t' rest (count + length batch) r
      → LoopGrown t rows count r
  batch-LoopGrown t t' batch rest rows count (done count' t'') e g l = (
    l.0
        ∙ rw (g, ← e, map-append (row_args node_id) batch rest)
            (sym (insert_all-append conflict (pending t) (map (row_args node_id) batch) _)),
    omega (arith, l.1, length-append batch rest, ap length e),
  )
  batch-LoopGrown t t' batch rest rows count (failed k x) e g l = tt
  batch-LoopGrown t t' batch rest rows count stuck e g l = l

  -- One round of the loop.
  module _ (fuel : ℕ) (rows : List Row) (i count : ℕ) (t : Tx) where
    loop_over :
        ltb i (length rows) ≡ false
        → ingest_loop pool node_id (suc fuel) rows i count t ≡ done count t
    unfolding ingest_loop
    loop_over h = rw (ingest_loop, h)

    loop_none :
        ltb i (length rows) ≡ false → ingest_loop pool node_id 0 rows i count t ≡ done count t
    unfolding ingest_loop
    loop_none h = rw (ingest_loop, h)

    loop_failed :
        ltb i (length rows) ≡ true
        → exec t (batch_statement node_id (batch_at batch_size rows i)) ≡ none
        → ingest_loop pool node_id (suc fuel) rows i count t ≡ failed count (batch_failed i)
    unfolding ingest_loop
    loop_failed h e = rw (ingest_loop, h, e)

    loop_on :
        (t' : Tx) (n : ℕ)
        → ltb i (length rows) ≡ true
        → exec t (batch_statement node_id (batch_at batch_size rows i)) ≡ some (t', n)
        → ingest_loop pool node_id (suc fuel) rows i count t
          ≡ ingest_loop pool node_id fuel rows
              (i + batch_size)
              (count + length (batch_at batch_size rows i))
              t'
    unfolding ingest_loop
    loop_on t' n h e = rw (ingest_loop, h, e)

  over-LoopGrown :
      (rows : List Row) (i count : ℕ) (t : Tx)
      → length rows ≤ i
      → LoopGrown t (drop i rows) count (done count t)
  over-LoopGrown rows i count t h =
      rw (drop-all i rows h) (insert_all-nil conflict (pending t), omega arith)

  ingest_loop-LoopGrown :
      (fuel : ℕ) (rows : List Row) (i count : ℕ) (t : Tx)
      → length rows < fuel + i
      → LoopGrown t (drop i rows) count (ingest_loop pool node_id fuel rows i count t)
  ingest_loop-LoopGrown zero rows i count t h =
      rw (loop_none 0 rows i count t (ground arith)) (over-LoopGrown rows i count t (omega arith))
  ingest_loop-LoopGrown (suc fuel) rows i count t h = elim (Bool-cases (ltb i (length rows))) [
    | inr over ↦
        rw (loop_over fuel rows i count t over)
          (over-LoopGrown rows i count t (ltb→ge i (length rows) over))
    | inl more ↦
        let batch = batch_at batch_size rows i in
        elim (Option-cases (exec t (batch_statement node_id batch))) [
          | inl e ↦ rw (loop_failed fuel rows i count t more e) tt
          | inr ((t', n), e) ↦ rw (loop_on fuel rows i count t t' n more e) (
              batch-LoopGrown t t' batch (drop (i + batch_size) rows) (drop i rows) count _
                (batch_at-append batch_size rows i)
                (exec_pending t t' _ _ n (bound-batch_statement node_id batch) e).0
                (ingest_loop-LoopGrown fuel rows (i + batch_size) (count + length batch) t'
                  (omega arith)))
        ]
  ]

  -- What a call may leave: on success all the rows, on an error the database it found.
  unfoldable pub AllOrNothing : Db → List Row → Option (Ingested Db) → Type 0
  AllOrNothing db rows none = ⊥
  AllOrNothing db rows (some r) = elim r.error [
    | some e ↦ r.db ≡ db
    | none ↦
        (stored r.db ≡ insert_all conflict (stored db) (map (row_args node_id) rows))
        × (r.count ≡ length rows)
  ]

  after_loop-AllOrNothing :
      (db : Db) (t : Tx) (rows : List Row) (end : LoopEnd Tx)
      → pending t ≡ stored db
      → LoopGrown t rows 0 end
      → AllOrNothing db rows (after_loop pool node_id db end)
  unfolding after_loop AllOrNothing
  after_loop-AllOrNothing db t rows (done count t') p g = elim (Option-cases (commit t')) [
    | inl e ↦ rw (after_loop, e) refl
    | inr (db', e) ↦ rw (after_loop, e, commit_pending t' db' e) (rw (← p) g.0, omega (arith, g.1))
  ]
  after_loop-AllOrNothing db t rows (failed count e) p g = refl
  after_loop-AllOrNothing db t rows stuck p g = g

  ingest_rows-AllOrNothing :
      (db : Db) (rows : List Row) → AllOrNothing db rows (ingest_rows pool node_id db rows)
  unfolding ingest_rows AllOrNothing insert_all
  ingest_rows-AllOrNothing db [] = (refl, refl)
  ingest_rows-AllOrNothing db (r ∷ rest) =
      let rows = r ∷ rest in
      let not_empty : (length rows == 0) ≡ false = ground arith in
      elim (Option-cases (begin db)) [
        | inl e ↦ rw (not_empty, e) refl
        | inr (t, e) ↦
            rw (not_empty, e)
              (after_loop-AllOrNothing db t rows _ (begin_stored db t e)
                (ingest_loop-LoopGrown (suc (length rows)) rows 0 0 t (omega arith)))
      ]

  -- `ingest` always returns. If it returns no error, the table holds what it held with the rows of the
  -- series added in order, those in conflict left out, and the count is the number of rows, those in
  -- conflict included; if it returns an error, the database is as it was.
  pub ingest-AllOrNothing :
      (db : Db) (series : List PrTimeSeries)
      → AllOrNothing db (rows_of series) (ingest pool node_id db series)
  unfolding ingest
  ingest-AllOrNothing db series = ingest_rows-AllOrNothing db (rows_of series)
