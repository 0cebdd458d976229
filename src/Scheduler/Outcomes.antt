-- ===== src/Scheduler/Outcomes.antt =====
-- What one cycle of internal/scheduler/scheduler.go does to the breaker, to the counters and to the
-- database, by the error that it returns.
use netdata_postgres_mcp.Base.{
  ℕ, ◌+◌, ◌<◌, ◌≡◌, ◌≢◌, refl, ◌⊎◌, inl, inr, Bool, true, false, List, [], ◌∷◌, map, length, Option,
  none, some, Option-cases, Bool-cases, arith,
}
use netdata_postgres_mcp.Breaker.{Breaker, current_state, allow, record_success, record_failure}
use netdata_postgres_mcp.Metrics.{Metrics, record_duration}
use netdata_postgres_mcp.Postgres.{insert_all, Pool}
use netdata_postgres_mcp.Store.Sample.{MetricSample, sample_row}
use netdata_postgres_mcp.Store.Insert.{Inserted}
use netdata_postgres_mcp.Store.Insert.Laws.{AllOrNothing, insert_samples-AllOrNothing}
use netdata_postgres_mcp.Scheduler.{
  CycleError, circuit_open, cancelled, upsert_failed, collect_failed, insert_failed, World,
  Attempts, ended, interrupted, attempt_loop, Cycle, upserted, after_insert, after_attempts,
  after_upsert, after_allow, collect_once,
}

module _ {Failure : Type 0} (w : World Failure) where
  -- The samples are those of the first attempt without an error, and if there is none of the third; the
  -- last error is that of the latest attempt with one.
  abbrev pub Source : List MetricSample → Option Failure → Type 0
  Source samples last_err =
      ((samples ≡ (w.attempt 1).samples) × ((w.attempt 1).error ≡ none) × (last_err ≡ none))
      ⊎ (((samples ≡ (w.attempt 2).samples)
            × ((w.attempt 1).error ≢ none)
            × ((w.attempt 2).error ≡ none)
            × (last_err ≡ (w.attempt 1).error))
          ⊎ ((samples ≡ (w.attempt 3).samples)
              × ((w.attempt 1).error ≢ none)
              × ((w.attempt 2).error ≢ none)
              × (((last_err ≡ (w.attempt 2).error) × ((w.attempt 3).error ≡ none))
                  ⊎ ((last_err ≡ (w.attempt 3).error) × ((w.attempt 3).error ≢ none)))))

  -- The context is done in the wait after a failed attempt.
  abbrev pub Interrupted : Type 0
  Interrupted =
      ((w.attempt 1).error ≢ none)
      × ((w.done_after 1 ≡ true) ⊎ (((w.attempt 2).error ≢ none) × (w.done_after 2 ≡ true)))

  abbrev pub Tried : Attempts Failure → Type 0
  Tried (ended samples last_err) = Source samples last_err
  Tried interrupted = Interrupted

  attempt_loop-Tried : Tried (attempt_loop w 3 1 [] none)
  unfolding attempt_loop
  attempt_loop-Tried = ground arith

module _ {Failure : Type 0} (pool : Pool) where
  open pool use {Db, stored, conflict}

  -- The breaker allows the cycle, and the node's row is written.
  abbrev pub Reached : World Failure → Bool → Type 0
  Reached w allowed = (allowed ≡ true) × (w.upsert ≡ none)

  -- The samples that a successful cycle stores beside those that were stored, and what it counts.
  abbrev pub Stored :
      World Failure → Breaker → Metrics → Db → Cycle Failure Db → List MetricSample → ℕ → Type 0
  Stored w b m db c samples count =
      (0 < length samples)
      × (stored c.db ≡ insert_all conflict (stored db) (map sample_row samples))
      × (length (stored db) + count ≡ length (stored c.db))
      × (c.metrics ≡ record m {
        collection_total = m.collection_total + 1;
        samples_inserted = m.samples_inserted + count;
        collection_duration = record_duration m.collection_duration w.elapsed;
      })
      × (c.breaker ≡ record_success b w.recorded_at)

  -- What a cycle leaves of the database, the counters and the breaker.
  abbrev pub Leaves : Breaker → Metrics → Db → Cycle Failure Db → Type 0
  Leaves b m db c = (c.db ≡ db) × (c.metrics ≡ m) × (c.breaker ≡ b)

  -- `allowed` and `b` are the answer of `Allow` and the breaker after it.
  abbrev pub Effect :
      World Failure
      → Bool
      → Breaker
      → Metrics
      → Db
      → Cycle Failure Db
      → Option (CycleError Failure)
      → Type 0
  Effect w allowed b m db c (some circuit_open) =
      (allowed ≡ false) × Leaves (current_state b w.queried_at) m db c
  Effect w allowed b m db c (some (upsert_failed e)) =
      (allowed ≡ true) × (w.upsert ≡ some e) × Leaves b m db c
  Effect w allowed b m db c (some cancelled) =
      Reached w allowed × Interrupted w × Leaves b m (upserted pool w db) c
  Effect w allowed b m db c (some (collect_failed e)) =
      Reached w allowed
      × Source w [] (some e)
      × Leaves (record_failure b w.recorded_at w.stamped_at)
          (record m { collection_errors = m.collection_errors + 1 }) (upserted pool w db) c
  Effect w allowed b m db c (some (insert_failed e)) =
      Reached w allowed
      × ((samples : List MetricSample) × (last_err : Option Failure) × ((0 < length samples)
            × Source w samples last_err))
      × Leaves (record_failure b w.recorded_at w.stamped_at) m (upserted pool w db) c
  Effect w allowed b m db c none =
      Reached w allowed
      × ((Source w [] none × Leaves b m (upserted pool w db) c)
          ⊎ ((samples : List MetricSample) × (last_err : Option Failure) × (count : ℕ) × (Source w
                  samples last_err
                × Stored w b m db c samples count)))

  unfoldable pub Accounted :
      World Failure → Breaker × Bool → Metrics → Db → Option (Cycle Failure Db) → Type 0
  Accounted w (b, allowed) m db none = ⊥
  Accounted w (b, allowed) m db (some c) = Effect w allowed b m db c c.error

  after_insert-Accounted :
      (w : World Failure) (b : Breaker) (m : Metrics) (db : Db) (s : MetricSample)
      (ss : List MetricSample) (last_err : Option Failure) (r : Option (Inserted Db))
      → w.upsert ≡ none
      → Source w (s ∷ ss) last_err
      → AllOrNothing pool (upserted pool w db) (s ∷ ss) r
      → Accounted w (b, true) m db (after_insert pool w b m r)
  unfolding after_insert AllOrNothing Accounted
  after_insert-Accounted w b m db s ss last_err none u src h = h
  after_insert-Accounted w b m db s ss last_err (some r) u src h = elim (Option-cases r.error) [
    | inl e ↦
        let h' : (stored r.db
              ≡ insert_all conflict (stored (upserted pool w db)) (map sample_row (s ∷ ss)))
            × (length (stored (upserted pool w db)) + r.count ≡ length (stored r.db)) =
          rw (AllOrNothing, e) at h in
        let h'' : (stored r.db ≡ insert_all conflict (stored db) (map sample_row (s ∷ ss)))
            × (length (stored db) + r.count ≡ length (stored r.db)) =
          rw (pool.upsert_node_stored _ db) at h' in
        rw (after_insert, e)
          (
            (refl, u),
            inr (s ∷ ss, last_err, r.count, (src, (omega arith, h''.0, h''.1, refl, refl))),
          )
    | inr (x, e) ↦
        let h' : r.db ≡ upserted pool w db = rw (AllOrNothing, e) at h in
        rw (after_insert, e) ((refl, u), (s ∷ ss, last_err, (omega arith, src)), (h', refl, refl))
  ]

  after_attempts-Accounted :
      (w : World Failure) (b : Breaker) (m : Metrics) (db : Db) (a : Attempts Failure)
      → w.upsert ≡ none
      → Tried w a
      → Accounted w (b, true) m db (after_attempts pool w b m (upserted pool w db) a)
  unfolding after_attempts Accounted
  after_attempts-Accounted w b m db interrupted u h = ((refl, u), h, (refl, refl, refl))
  after_attempts-Accounted w b m db (ended [] (some e)) u h = ((refl, u), h, (refl, refl, refl))
  after_attempts-Accounted w b m db (ended [] none) u h = ((refl, u), inl (h, (refl, refl, refl)))
  after_attempts-Accounted w b m db (ended (s ∷ ss) last_err) u h =
      after_insert-Accounted w b m db s ss last_err _ u h
        (insert_samples-AllOrNothing pool (upserted pool w db) (s ∷ ss))

  after_upsert-Accounted :
      (w : World Failure) (b : Breaker) (m : Metrics) (db : Db) (u : Option Failure)
      → w.upsert ≡ u
      → Accounted w (b, true) m db (after_upsert pool w b m db u)
  unfolding after_upsert Accounted
  after_upsert-Accounted w b m db none e =
      after_attempts-Accounted w b m db _ e (attempt_loop-Tried w)
  after_upsert-Accounted w b m db (some x) e = (refl, e, (refl, refl, refl))

  -- A cycle always ends, and what it does follows from the breaker's answer, the upsert and the
  -- attempts: exactly a cycle that the breaker refuses returns that it is open, and changes neither
  -- counters nor database; a failed upsert changes neither either. Otherwise the node's row is
  -- written, which leaves the samples as they are. Then a cycle that is cancelled in a wait after a
  -- failed attempt changes nothing else; one without samples after an error returns the last
  -- error, and counts it and a failure of the breaker; one whose insert fails counts a
  -- failure of the breaker. It returns no error if the first attempt gave neither samples nor an
  -- error, and nothing else changes, or with the samples of the first successful or the third
  -- attempt stored and counted, and a success of the breaker.
  pub collect_once-Accounted :
      (w : World Failure) (b : Breaker) (m : Metrics) (db : Db)
      → Accounted w (allow b w.allowed_at) m db (collect_once pool w b m db)
  unfolding collect_once after_allow Accounted
  collect_once-Accounted w b m db = elim (Bool-cases (allow b w.allowed_at).1) [
    | inr refused ↦ rw (refused, after_allow) (refl, (refl, refl, refl))
    | inl allowed ↦ rw (allowed, after_allow) (after_upsert-Accounted w _ m db _ refl)
  ]
