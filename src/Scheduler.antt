-- ===== src/Scheduler.antt =====
-- internal/scheduler/scheduler.go: one collection cycle, one retention run, and the loop that runs
-- cycles. The results of the collector and of the rollups, the error of the node's upsert, and the clock's
-- readings, are arguments; the upsert's write and the insert are the store's, over any database.
pub mod Outcomes
pub mod Failing
pub mod Retention
mod Tests
use netdata_postgres_mcp.Base.{
  ℕ, zero, suc, ◌+◌, Bool, true, false, not, ◌&&◌, List, [], ◌∷◌, Option, none, some, length, ltb,
  ◌==◌, if◌then◌else◌,
}
use netdata_postgres_mcp.Breaker.{
  Breaker, new, current_state, allow, record_success, record_failure,
}
use netdata_postgres_mcp.Metrics.{Metrics, record_duration}
use netdata_postgres_mcp.Postgres.{Pool}
use netdata_postgres_mcp.Store.Sample.{MetricSample}
use netdata_postgres_mcp.Base.Text.{Bytes}
use netdata_postgres_mcp.Store.Nodes.{upsert_node}
use netdata_postgres_mcp.Store.Insert.{Error, Inserted, insert_samples}

-- The breaker that `New` makes: circuitbreaker.New(5, 60*time.Second).
pub new_breaker : Breaker
unfolding new
new_breaker = new 5 60000000000

-- `Failure` are the errors of the calls.
pub data CycleError (Failure : Type 0) : Type 0 where
  circuit_open cancelled : CycleError Failure
  upsert_failed collect_failed : Failure → CycleError Failure
  insert_failed : Error → CycleError Failure

-- Both results of a call of `Collect`.
pub record Collected (Failure : Type 0) : Type 0 where
  pub samples : List MetricSample
  pub error : Option Failure

-- The scheduler's own fields, what the calls of one cycle return, and when. `attempt` is by the attempt's number, from 1;
-- `done_after` tells that the context is done in the wait after that attempt.
pub record World (Failure : Type 0) : Type 0 where
  pub node_id : Bytes
  pub hostname : Bytes
  pub base_url : Bytes
  pub allowed_at : ℕ
  pub queried_at : ℕ
  pub upsert : Option Failure
  pub attempt : ℕ → Collected Failure
  pub done_after : ℕ → Bool
  pub recorded_at : ℕ
  pub stamped_at : ℕ
  pub elapsed : ℕ

-- How the loop over the attempts ends: `samples` and `lastErr`, or a return.
pub data Attempts (Failure : Type 0) : Type 0 where
  ended : List MetricSample → Option Failure → Attempts Failure
  interrupted : Attempts Failure

module _ {Failure : Type 0} (w : World Failure) where
  -- The rounds left, `attempt`, `samples` and `lastErr`.
  unfoldable pub attempt_loop : ℕ → ℕ → List MetricSample → Option Failure → Attempts Failure
  attempt_loop zero attempt samples last_err = ended samples last_err
  attempt_loop (suc left) attempt samples last_err =
      let r = w.attempt attempt in
      elim r.error [
        | none ↦ ended r.samples last_err
        | some e ↦
            let rest = attempt_loop left (attempt + 1) r.samples (some e) in
            if ltb attempt 3 && w.done_after attempt then interrupted else rest
      ]

-- The state after a cycle, and the error that `collectOnce` returns.
pub record Cycle (Failure Db : Type 0) : Type 0 where
  pub breaker : Breaker
  pub metrics : Metrics
  pub db : Db
  pub error : Option (CycleError Failure)

module _ {Failure : Type 0} (pool : Pool) where
  open pool use {Db}

  -- What follows the call of `InsertSamples`.
  after_insert :
      World Failure → Breaker → Metrics → Option (Inserted Db) → Option (Cycle Failure Db)
  after_insert w b m none = none
  after_insert w b m (some r) = elim r.error [
    | some e ↦ some (record {
      breaker = record_failure b w.recorded_at w.stamped_at;
      metrics = m;
      db = r.db;
      error = some (insert_failed e);
    })
    | none ↦ some (record {
      breaker = record_success b w.recorded_at;
      metrics = record m {
        collection_total = m.collection_total + 1;
        samples_inserted = m.samples_inserted + r.count;
        collection_duration = record_duration m.collection_duration w.elapsed;
      };
      db = r.db;
      error = none;
    })
  ]

  -- What follows the loop over the attempts.
  after_attempts :
      World Failure → Breaker → Metrics → Db → Attempts Failure → Option (Cycle Failure Db)
  unfolding after_insert
  after_attempts w b m db interrupted =
      some (record { breaker = b; metrics = m; db = db; error = some cancelled })
  after_attempts w b m db (ended [] (some e)) = some (record {
    breaker = record_failure b w.recorded_at w.stamped_at;
    metrics = record m { collection_errors = m.collection_errors + 1 };
    db = db;
    error = some (collect_failed e);
  })
  after_attempts w b m db (ended [] none) =
      some (record { breaker = b; metrics = m; db = db; error = none })
  after_attempts w b m db (ended (s ∷ samples) last_err) =
      after_insert w b m (insert_samples pool db (s ∷ samples))

  -- The database after an `UpsertNode` without an error.
  abbrev pub upserted : World Failure → Db → Db
  upserted w db = upsert_node pool db w.node_id w.hostname w.base_url

  after_upsert : World Failure → Breaker → Metrics → Db → Option Failure → Option (Cycle Failure Db)
  unfolding after_attempts
  after_upsert w b m db (some e) =
      some (record { breaker = b; metrics = m; db = db; error = some (upsert_failed e) })
  after_upsert w b m db none = after_attempts w b m (upserted w db) (attempt_loop w 3 1 [] none)

  after_allow : World Failure → Breaker → Metrics → Db → Bool → Option (Cycle Failure Db)
  unfolding after_upsert
  after_allow w b m db false = some (record {
    breaker = current_state b w.queried_at;
    metrics = m;
    db = db;
    error = some circuit_open;
  })
  after_allow w b m db true = after_upsert w b m db w.upsert

  -- `none` for a loop that ran out of fuel. The breaker's state is read, and so updated, for the log
  -- when it refuses.
  unfoldable pub collect_once : World Failure → Breaker → Metrics → Db → Option (Cycle Failure Db)
  unfolding after_allow
  collect_once w b m db = let (b', allowed) = allow b w.allowed_at in after_allow w b' m db allowed

  -- The cycles of `Run`, one for each tick: an error ends a cycle and not the loop.
  unfoldable pub run_cycles :
      List (World Failure) → Breaker → Metrics → Db → Option (Breaker × Metrics × Db)
  unfolding collect_once
  run_cycles [] b m db = some (b, m, db)
  run_cycles (w ∷ ws) b m db = elim (collect_once w b m db) [
    | none ↦ none
    | some c ↦ run_cycles ws c.breaker c.metrics c.db
  ]
