-- ===== src/Scheduler/Failing.antt =====
-- Cycles of internal/scheduler/scheduler.go in an outage, and how they drive the breaker.
use netdata_postgres_mcp.Base.{
  ℕ, ◌+◌, ◌-◌, ◌≤◌, ◌≡◌, ◌≢◌, refl, ap, true, false, [], Option, none, some, arith,
}
use netdata_postgres_mcp.Breaker.{
  State, closed, opened, Breaker, current_state, allow, record_failure, is_open,
}
use netdata_postgres_mcp.Metrics.{Metrics}
use netdata_postgres_mcp.Postgres.{Pool}
use netdata_postgres_mcp.Scheduler.{
  circuit_open, collect_failed, World, Attempts, ended, attempt_loop, Cycle, upserted,
  after_attempts, after_upsert, after_allow, collect_once,
}

-- The three attempts fail, and the third leaves no samples.
pub record Fails {Failure : Type 0} (w : World Failure) : Type 0 where
  pub failure : Failure
  pub upserted : w.upsert ≡ none
  pub first : (w.attempt 1).error ≢ none
  pub second : (w.attempt 2).error ≢ none
  pub third : (w.attempt 3).error ≡ some failure
  pub no_samples : (w.attempt 3).samples ≡ []
  pub waited : w.done_after 1 ≡ false
  pub waited_again : w.done_after 2 ≡ false

allow_closed : (b : Breaker) (now : ℕ) → b.state ≡ closed → allow b now ≡ (b, true)
unfolding allow current_state is_open
allow_closed b now e = ground arith

allow_within :
    (b : Breaker) (now : ℕ)
    → b.state ≡ opened
    → now - b.last_failure ≤ b.reset_timeout
    → allow b now ≡ (b, false)
unfolding allow current_state is_open
allow_within b now e h = ground arith

current_within :
    (b : Breaker) (now : ℕ) → now - b.last_failure ≤ b.reset_timeout → current_state b now ≡ b
unfolding current_state is_open
current_within b now h = ground arith

last_failure :
    (b : Breaker) (now stamp : ℕ)
    → b.state ≡ closed
    → b.failures + 1 ≡ b.threshold
    → record_failure b now stamp
      ≡ record b { state = opened; failures = b.failures + 1; last_failure = stamp }
unfolding record_failure
last_failure b now stamp e h = ground arith

module _ (pool : Pool) where
  open pool use {Db, stored}

  -- What an outage of `n` cycles leaves.
  abbrev pub After : Breaker → Metrics → Db → ℕ → State → Option (Breaker × Metrics × Db) → Type 0
  After b m db n s none = ⊥
  After b m db n s (some (b', m', db')) =
      (b'.state ≡ s)
      × (b'.failures ≡ b.failures + n)
      × (b'.threshold ≡ b.threshold)
      × (b'.reset_timeout ≡ b.reset_timeout)
      × (m' ≡ record m { collection_errors = m.collection_errors + n })
      × (stored db' ≡ stored db)

module _ {Failure : Type 0} (pool : Pool) where
  open pool use {Db}

  abbrev pub failed_cycle : World Failure → Breaker → Metrics → Db → Failure → Cycle Failure Db
  failed_cycle w b m db e = record {
    breaker = record_failure b w.recorded_at w.stamped_at;
    metrics = record m { collection_errors = m.collection_errors + 1 };
    db = upserted pool w db;
    error = some (collect_failed e);
  }

  collect_once_tried :
      (w : World Failure) (b : Breaker) (m : Metrics) (db : Db) (a : Attempts Failure)
      → b.state ≡ closed
      → w.upsert ≡ none
      → attempt_loop w 3 1 [] none ≡ a
      → collect_once pool w b m db ≡ after_attempts pool w b m (upserted pool w db) a
  unfolding collect_once after_allow after_upsert
  collect_once_tried w b m db a e u t =
      rw (allow_closed b w.allowed_at e, ap (after_upsert pool w b m db) u, t) refl

  -- A cycle within the reset timeout of an open breaker returns `ErrCircuitOpen` and changes nothing:
  -- not the breaker, not the counters, not the database.
  pub collect_once_open :
      (w : World Failure) (b : Breaker) (m : Metrics) (db : Db)
      → b.state ≡ opened
      → w.allowed_at - b.last_failure ≤ b.reset_timeout
      → w.queried_at - b.last_failure ≤ b.reset_timeout
      → collect_once pool w b m db
        ≡ some (record { breaker = b; metrics = m; db = db; error = some circuit_open })
  unfolding collect_once after_allow
  collect_once_open w b m db e h q =
      rw (allow_within b w.allowed_at e h, current_within b w.queried_at q) refl

  -- A retry that succeeds, but has no samples, counts as a failure of the cycle: it returns the error
  -- of the first attempt, and the breaker records a failure. Without the failed first attempt,
  -- the same samples make a cycle without an error, which the breaker does not see.
  pub empty_retry :
      (w : World Failure) (b : Breaker) (m : Metrics) (db : Db) (e : Failure)
      → b.state ≡ closed
      → w.upsert ≡ none
      → (w.attempt 1).error ≡ some e
      → w.done_after 1 ≡ false
      → (w.attempt 2).error ≡ none
      → (w.attempt 2).samples ≡ []
      → (collect_once pool w b m db ≡ some (failed_cycle w b m db e))
        × (collect_once pool (record w { attempt = λ k. w.attempt (k + 1) }) b m db
            ≡ some (record { breaker = b; metrics = m; db = upserted pool w db; error = none }))
  unfolding after_attempts attempt_loop
  empty_retry w b m db e closed_b up one wait two none_left = (
    collect_once_tried w b m db (ended [] (some e)) closed_b up retried,
    collect_once_tried (record w { attempt = λ k. w.attempt (k + 1) }) b m db (ended [] none)
        closed_b up untried,
  )
    where
      retried : attempt_loop w 3 1 [] none ≡ ended [] (some e)
      retried = ground (arith, one, wait, two, none_left)

      untried :
          attempt_loop (record w { attempt = λ k. w.attempt (k + 1) }) 3 1 [] none ≡ ended [] none
      untried = ground (arith, two, none_left)
