-- ===== src/Store/Rollup/Gaps.antt =====
-- The hours that `AggregateHourly` of internal/store/rollup.go leaves out.
use mathlib.Core.Bool.{and-false}
use netdata_postgres_mcp.Base.{
  ℕ, zero, suc, ◌+◌, ◌-◌, ◌*◌, ◌≤◌, ◌<◌, ◌≡◌, inl, inr, refl, true, false, List, [], ◌∷◌, none,
  Bool-cases, ◌==◌, arith,
}
use netdata_postgres_mcp.Base.Text.{Bytes}
use netdata_postgres_mcp.Scheduler.Retention.{hour}
use netdata_postgres_mcp.Store.Rollup.{
  RawSample, Rollups, in_window, bucket, group, aggregate_hourly, daily_runs,
}

-- The hour lies between the window of a run and that of the next.
pub record BetweenRuns (start k b : ℕ) : Type 0 where
  pub after_run : start + k * (24 * hour) - hour ≤ b * hour
  pub before_next : (b + 1) * hour ≤ start + (k + 1) * (24 * hour) - 4 * hour

in_bucket : (t b : ℕ) → (bucket t == b) ≡ true → (b * hour ≤ t) × (t < (b + 1) * hour)
unfolding bucket
in_bucket t b e = ground (arith, e)

outside :
    (start k b n t : ℕ)
    → 4 * hour ≤ start
    → BetweenRuns start k b
    → (bucket t == b) ≡ true
    → in_window (start + n * (24 * hour) - hour) t ≡ false
unfolding in_window
outside start k b n t s r e =
    let within = in_bucket t b e in
    ground (arith, within.0, within.1, r.after_run, r.before_next, s)

module _ {V : Type 0} (start k b : ℕ) (early : 4 * hour ≤ start)
    (between : BetweenRuns start k b) where
  no_group :
      (n : ℕ) (series : Bytes) (samples : List (RawSample V))
      → group (start + n * (24 * hour) - hour) series b samples ≡ []
  unfolding group
  no_group n series [] = refl
  no_group n series (s ∷ samples) = elim (Bool-cases (bucket s.collected_at == b)) [
    | inl e ↦ rw (outside start k b n s.collected_at early between e) (no_group n series samples)
    | inr e ↦ rw (e, and-false, and-false) (no_group n series samples)
  ]

  -- An hour between the windows of two runs is in no window of any run: whatever samples it has, and
  -- however many runs there are, it gets no row.
  pub daily_runs_gap :
      (samples : ℕ → List (RawSample V)) (n : ℕ) (rollups : Rollups V) (series : Bytes)
      → rollups series b ≡ none
      → daily_runs start samples n rollups series b ≡ none
  unfolding daily_runs aggregate_hourly
  daily_runs_gap samples zero rollups series h = h
  daily_runs_gap samples (suc n) rollups series h =
      rw (no_group n series (samples n)) (daily_runs_gap samples n rollups series h)
