-- ===== src/Store/Insert/Laws.antt =====
-- What `InsertSamples` of internal/store/store.go leaves in the table, over any database that keeps
-- what `Pool` says of PostgreSQL.
use mathlib.Core.List.{map-append}
use netdata_postgres_mcp.Base.{
  ℕ, zero, suc, ◌+◌, ◌≤◌, ◌<◌, ◌≡◌, refl, ◌∙◌, ap, sym, true, false, List, [], ◌∷◌, ◌++◌, Option,
  none, some, map, length, drop, ltb, ◌==◌, arith, Bool-cases, Option-cases, ltb→ge, inl, inr,
  drop-all,
}
use netdata_postgres_mcp.Postgres.{
  Arg, bound, bound-numbered, insert_all, insert_all-append, insert_all-nil, Pool, batch_at,
  batch_at-append,
}
use netdata_postgres_mcp.Store.Sample.{MetricSample, sample_row}
use netdata_postgres_mcp.Store.Insert.{
  batch_size, insert_statement, insert_batch, insert_loop, insert_samples, after_loop, batch_failed,
  LoopEnd, done, failed, stuck, Inserted,
}

length-sample_row : (s : MetricSample) → length (sample_row s) ≡ 10
unfolding sample_row
length-sample_row s = refl

abbrev rows : List MetricSample → List (List Arg)
rows = map sample_row

bound-insert_statement :
    (samples : List MetricSample) → bound (insert_statement samples) ≡ some (rows samples)
unfolding insert_statement
bound-insert_statement samples = bound-numbered 10 sample_row length-sample_row _ samples

module _ (pool : Pool) where
  open pool use {
    Db, Tx, begin, exec, commit, stored, pending, conflict, begin_stored, exec_pending,
    commit_pending,
  }

  -- What a batch does, if its statement succeeds.
  abbrev Grown : Tx → List MetricSample → Tx → ℕ → Type 0
  Grown t samples t' n =
      (pending t' ≡ insert_all conflict (pending t) (rows samples))
      × (length (pending t) + n ≡ length (pending t'))

  insert_batch-Grown :
      (t t' : Tx) (samples : List MetricSample) (n : ℕ)
      → insert_batch pool t samples ≡ some (t', n)
      → Grown t samples t' n
  unfolding insert_batch insert_all
  insert_batch-Grown t t' [] n e = ground arith
  insert_batch-Grown t t' (s ∷ samples) n e =
      let not_empty : (length (s ∷ samples) == 0) ≡ false = ground arith in
      let e' : exec t (insert_statement (s ∷ samples)) ≡ some (t', n) = rw not_empty at e in
      exec_pending t t' (insert_statement (s ∷ samples)) _ n (bound-insert_statement (s ∷ samples))
        e'

  -- The loop over what is left from `i`.
  abbrev LoopGrown : Tx → List MetricSample → ℕ → LoopEnd Tx → Type 0
  LoopGrown t samples total (done total' t') =
      (pending t' ≡ insert_all conflict (pending t) (rows samples))
      × (length (pending t) + total' ≡ length (pending t') + total)
  LoopGrown t samples total (failed n e) = Unit
  LoopGrown t samples total stuck = ⊥

  -- A batch, and then the rest of the loop.
  batch-LoopGrown :
      (t t' : Tx) (batch rest : List MetricSample) (n total : ℕ) (r : LoopEnd Tx)
      → Grown t batch t' n
      → LoopGrown t' rest (total + n) r
      → LoopGrown t (batch ++ rest) total r
  batch-LoopGrown t t' batch rest n total (done total' t'') g l = (
    l.0
        ∙ rw (g.0, map-append sample_row batch rest)
            (sym (insert_all-append conflict (pending t) (rows batch) (rows rest))),
    omega (arith, g.1, l.1),
  )
  batch-LoopGrown t t' batch rest n total (failed k e) g l = tt
  batch-LoopGrown t t' batch rest n total stuck g l = l

  -- One round of the loop.
  module _ (fuel : ℕ) (samples : List MetricSample) (i total : ℕ) (t : Tx) where
    loop_over :
        ltb i (length samples) ≡ false
        → insert_loop pool (suc fuel) samples i total t ≡ done total t
    unfolding insert_loop
    loop_over h = rw (insert_loop, h)

    loop_failed :
        ltb i (length samples) ≡ true
        → insert_batch pool t (batch_at batch_size samples i) ≡ none
        → insert_loop pool (suc fuel) samples i total t ≡ failed total (batch_failed i)
    unfolding insert_loop
    loop_failed h e = rw (insert_loop, h, e)

    loop_on :
        (t' : Tx) (n : ℕ)
        → ltb i (length samples) ≡ true
        → insert_batch pool t (batch_at batch_size samples i) ≡ some (t', n)
        → insert_loop pool (suc fuel) samples i total t
          ≡ insert_loop pool fuel samples (i + batch_size) (total + n) t'
    unfolding insert_loop
    loop_on t' n h e = rw (insert_loop, h, e)

    loop_none : ltb i (length samples) ≡ false → insert_loop pool 0 samples i total t ≡ done total t
    unfolding insert_loop
    loop_none h = rw (insert_loop, h)

  over-LoopGrown :
      (samples : List MetricSample) (i total : ℕ) (t : Tx)
      → length samples ≤ i
      → LoopGrown t (drop i samples) total (done total t)
  over-LoopGrown samples i total t h =
      rw (drop-all i samples h) (insert_all-nil conflict (pending t), refl)

  insert_loop-LoopGrown :
      (fuel : ℕ) (samples : List MetricSample) (i total : ℕ) (t : Tx)
      → length samples < fuel + i
      → LoopGrown t (drop i samples) total (insert_loop pool fuel samples i total t)
  insert_loop-LoopGrown zero samples i total t h =
      rw (loop_none 0 samples i total t (ground arith))
        (over-LoopGrown samples i total t (omega arith))
  insert_loop-LoopGrown (suc fuel) samples i total t h =
      elim (Bool-cases (ltb i (length samples))) [
        | inr over ↦
            rw (loop_over fuel samples i total t over)
              (over-LoopGrown samples i total t (ltb→ge i (length samples) over))
        | inl more ↦ elim (Option-cases (insert_batch pool t (batch_at batch_size samples i))) [
          | inl e ↦ rw (loop_failed fuel samples i total t more e) tt
          | inr ((t', n), e) ↦
              rw
                (loop_on fuel samples i total t t' n more e, ← batch_at-append batch_size samples i)
                (batch-LoopGrown t t' (batch_at batch_size samples i)
                  (drop (i + batch_size) samples) n total _
                  (insert_batch-Grown t t' (batch_at batch_size samples i) n e)
                  (insert_loop-LoopGrown fuel samples (i + batch_size) (total + n) t'
                    (omega arith)))
        ]
      ]

  -- What a call may leave: on success all the rows, counted, and on an error the database it found.
  unfoldable pub AllOrNothing : Db → List MetricSample → Option (Inserted Db) → Type 0
  AllOrNothing db samples none = ⊥
  AllOrNothing db samples (some r) = elim r.error [
    | some e ↦ r.db ≡ db
    | none ↦
        (stored r.db ≡ insert_all conflict (stored db) (rows samples))
        × (length (stored db) + r.count ≡ length (stored r.db))
  ]

  after_loop-AllOrNothing :
      (db : Db) (t : Tx) (samples : List MetricSample) (end : LoopEnd Tx)
      → pending t ≡ stored db
      → LoopGrown t samples 0 end
      → AllOrNothing db samples (after_loop pool db end)
  unfolding after_loop AllOrNothing
  after_loop-AllOrNothing db t samples (done total t') p g = elim (Option-cases (commit t')) [
    | inl e ↦ rw (after_loop, e) refl
    | inr (db', e) ↦
        rw (after_loop, e, commit_pending t' db' e) (rw (← p) g.0, omega (arith, g.1, ap length p))
  ]
  after_loop-AllOrNothing db t samples (failed total e) p g = refl
  after_loop-AllOrNothing db t samples stuck p g = g

  -- `InsertSamples` always returns. If it returns no error, the table holds what it held with the
  -- samples' rows added in order, those in conflict left out, and the count is the number of rows added; if
  -- it returns an error, in whichever batch or call, the database is as it was.
  pub insert_samples-AllOrNothing :
      (db : Db) (samples : List MetricSample)
      → AllOrNothing db samples (insert_samples pool db samples)
  unfolding insert_samples AllOrNothing insert_all
  insert_samples-AllOrNothing db [] = (refl, omega arith)
  insert_samples-AllOrNothing db (s ∷ rest) =
      let samples = s ∷ rest in
      let not_empty : (length samples == 0) ≡ false = ground arith in
      elim (Option-cases (begin db)) [
        | inl e ↦ rw (not_empty, e) refl
        | inr (t, e) ↦
            rw (not_empty, e)
              (after_loop-AllOrNothing db t samples _ (begin_stored db t e)
                (insert_loop-LoopGrown (suc (length samples)) samples 0 0 t (omega arith)))
      ]
