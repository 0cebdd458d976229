-- ===== src/Scheduler/Tests.antt =====
-- internal/scheduler/scheduler.go: cycles in a healthy state and in an outage.
use netdata_postgres_mcp.Base.{
  ℕ, ◌+◌, ◌-◌, ◌≡◌, refl, false, [], ◌∷◌, none, some, ◌==◌, if◌then◌else◌,
}
use netdata_postgres_mcp.Base.Text.{str}
use netdata_postgres_mcp.Breaker.{Breaker, opened, new, allow}
use netdata_postgres_mcp.Metrics.{global}
use netdata_postgres_mcp.Postgres.Memory.{memory}
use netdata_postgres_mcp.Store.Sample.{MetricSample}
use netdata_postgres_mcp.Scheduler.{World, collect_once}
use netdata_postgres_mcp.Scheduler.Outcomes.{Accounted, collect_once-Accounted}
use netdata_postgres_mcp.Scheduler.Failing.{failed_cycle, empty_retry}
use netdata_postgres_mcp.Scheduler.Retention.{Retention}

abbrev one_sample : MetricSample
one_sample = record {
  node_id = str "n1";
  collected_at = 1700000000000000000;
  context = str "system.load";
  chart = str "system.load";
  family = str "load";
  instance_name = [];
  dimension = str "load1";
  unit = str "load";
  value = 4607182418800017408;
  labels = none;
}

-- The errors are numbers; the second attempt succeeds.
abbrev flaky : World ℕ
flaky = record {
  node_id = str "n1";
  hostname = str "db1";
  base_url = str "http://db1:19999";
  allowed_at = 100;
  queried_at = 101;
  upsert = none;
  attempt = λ k.
      if k == 1
      then record { samples = []; error = some 7 }
      else record { samples = one_sample ∷ []; error = none };
  done_after = λ k. false;
  recorded_at = 102;
  stamped_at = 103;
  elapsed = 5;
}

collect_once-Accounted_example :
    Accounted memory flaky
      (allow (new 5 60000000000) 100)
      global
      []
      (collect_once memory flaky (new 5 60000000000) global [])
collect_once-Accounted_example = collect_once-Accounted memory flaky (new 5 60000000000) global []

abbrev broken : World ℕ
broken = record flaky { attempt = λ k. record { samples = []; error = some k } }

abbrev tripped : Breaker
tripped = record {
  state = opened;
  failures = 5;
  threshold = 5;
  reset_timeout = 60;
  last_failure = 90;
  half_open_max = 2;
  half_open_ok = 0;
}

-- The second attempt succeeds with no samples.
abbrev empty_second : World ℕ
empty_second = record flaky {
  attempt = λ k.
      if k == 1
      then record { samples = []; error = some 7 }
      else record { samples = []; error = none };
}

empty_retry_example :
    (collect_once memory empty_second (new 5 60) global []
      ≡ some (failed_cycle memory empty_second (new 5 60) global [] 7))
    × (collect_once memory
          (record empty_second { attempt = λ k. empty_second.attempt (k + 1) })
          (new 5 60)
          global
          []
        ≡ some (record { breaker = new 5 60; metrics = global; db = []; error = none }))
unfolding new
empty_retry_example =
    empty_retry memory empty_second (new 5 60) global [] 7 refl refl refl refl refl refl

-- A store that counts its samples: the rollups fail or do nothing, and two samples are old.
abbrev counted_store : Retention ℕ
counted_store = record {
  aggregate_hourly = λ now db. none;
  aggregate_daily = λ now db. some (db, 0);
  delete_before = λ now db. some (db - 2, 2);
}
