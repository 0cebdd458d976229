-- ===== src/Store/Tests.antt =====
-- `InsertSamples` of internal/store/store.go on two samples, the second twice, and `Migrate` on one
-- migration.
use mathlib.Core.Option.{some-injective}
use netdata_postgres_mcp.Base.{
  ℕ, ◌*◌, ◌≡◌, arith, refl, sym, false, List, [], ◌∷◌, ◌++◌, none, some,
}
use netdata_postgres_mcp.Base.Text.{Bytes, str}
use netdata_postgres_mcp.Store.Migrate.{Schema, Entry, is_recorded, migrate}
use netdata_postgres_mcp.Store.Migrate.Laws.{Migrated, migrate-Migrated}
use netdata_postgres_mcp.Scheduler.Retention.{hour}
use netdata_postgres_mcp.Store.Rollup.{RawSample, daily_runs}
use netdata_postgres_mcp.Store.Rollup.Gaps.{daily_runs_gap}
use netdata_postgres_mcp.Postgres.Memory.{memory}
use netdata_postgres_mcp.Store.Sample.{MetricSample}
use netdata_postgres_mcp.Store.Insert.{insert_samples}
use netdata_postgres_mcp.Store.Insert.Laws.{AllOrNothing, insert_samples-AllOrNothing}

abbrev pub idle_cpu : MetricSample
idle_cpu = record {
  node_id = str "n1";
  collected_at = 1700000000000000000;
  context = str "system.cpu";
  chart = str "system.cpu";
  family = str "cpu";
  instance_name = [];
  dimension = str "idle";
  unit = str "percentage";
  value = 4636737291354636288;
  labels = none;
}

abbrev pub user_cpu : MetricSample
user_cpu = record idle_cpu { dimension = str "user" }

insert_samples-AllOrNothing_example :
    AllOrNothing memory []
      (idle_cpu ∷ user_cpu ∷ user_cpu ∷ [])
      (insert_samples memory [] (idle_cpu ∷ user_cpu ∷ user_cpu ∷ []))
insert_samples-AllOrNothing_example =
    insert_samples-AllOrNothing memory [] (idle_cpu ∷ user_cpu ∷ user_cpu ∷ [])

-- A schema whose database is the list of the versions recorded, with one SQL file and one other.
abbrev in_memory : Schema
in_memory = record {
  Db = List Bytes;
  lock = some;
  unlock = λ d. d;
  create_table = some;
  exists = λ v d. some (is_recorded v d);
  run_sql = λ s d. some d;
  record_version = λ v d. some (d ++ (v ∷ []));
  applied = λ d. d;
  lock_applied = λ d d' e. sym (some-injective _ _ e);
  unlock_applied = λ d. refl;
  create_applied = λ d d' e. sym (some-injective _ _ e);
  exists_applied = λ v d b e. sym (some-injective _ _ e);
  run_applied = λ s d d' e. sym (some-injective _ _ e);
  record_applied = λ v d d' e. sym (some-injective _ _ e);
}

abbrev entries : List Entry
entries =
    record { name = str "001_initial_schema.sql"; is_dir = false }
    ∷ record { name = str "README"; is_dir = false }
    ∷ []

abbrev as_listed : List Entry → List Entry
as_listed es = es

migrate-Migrated_example :
    Migrated in_memory some
      (some entries)
      as_listed
      (some entries)
      []
      (migrate in_memory some (some entries) as_listed [])
migrate-Migrated_example = migrate-Migrated in_memory some (some entries) as_listed []

-- The loop starts at hour 100: the hours from 99 to 119 are between its first two runs.
abbrev every_hour : ℕ → List (RawSample ℕ)
every_hour k = record { series = str "n1"; collected_at = 110 * hour; value = 7 } ∷ []

daily_runs_gap_example :
    daily_runs (100 * hour) every_hour 3 (λ series b. none) (str "n1") 110 ≡ none
daily_runs_gap_example =
    daily_runs_gap (100 * hour) 0 110 (omega arith)
      (record { after_run = omega arith; before_next = omega arith }) every_hour 3
      (λ series b. none) (str "n1") refl
