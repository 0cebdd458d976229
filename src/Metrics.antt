-- ===== src/Metrics.antt =====
-- internal/metrics/metrics.go: the counters, and the durations of the collection cycles. Each counter
-- only grows from 0, and is a natural number; a duration is a number of nanoseconds.
pub mod Durations
use netdata_postgres_mcp.Base.{ℕ, ◌+◌, ◌/◌, ◌==◌, if◌then◌else◌}

pub record SyncDuration : Type 0 where
  pub last : ℕ
  pub total : ℕ
  pub count : ℕ

-- Record, under the mutex.
unfoldable pub record_duration : SyncDuration → ℕ → SyncDuration
record_duration d dur = record { last = dur; total = d.total + dur; count = d.count + 1 }

-- Snapshot: last, avg and count.
unfoldable pub snapshot : SyncDuration → ℕ × ℕ × ℕ
snapshot d = if d.count == 0 then (0, 0, 0) else (d.last, d.total / d.count, d.count)

pub record Metrics : Type 0 where
  pub collection_total : ℕ
  pub collection_errors : ℕ
  pub samples_inserted : ℕ
  pub retention_deleted : ℕ
  pub collection_duration : SyncDuration
  pub mcp_tool_calls : ℕ
  pub mcp_tool_errors : ℕ
  pub auth_failures : ℕ
  pub rate_limit_rejects : ℕ
  pub remote_write_samples : ℕ
  pub remote_write_errors : ℕ

-- &Metrics{}
unfoldable pub global : Metrics
global = record {
  collection_total = 0;
  collection_errors = 0;
  samples_inserted = 0;
  retention_deleted = 0;
  collection_duration = record { last = 0; total = 0; count = 0 };
  mcp_tool_calls = 0;
  mcp_tool_errors = 0;
  auth_failures = 0;
  rate_limit_rejects = 0;
  remote_write_samples = 0;
  remote_write_errors = 0;
}
