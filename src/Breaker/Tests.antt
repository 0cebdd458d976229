-- ===== src/Breaker/Tests.antt =====
-- The breaker of internal/circuitbreaker/breaker.go with the scheduler's threshold and timeout, on
-- concrete calls.
use netdata_postgres_mcp.Base.{ℕ, ◌≡◌, refl, List, [], ◌∷◌, arith}
use netdata_postgres_mcp.Breaker.{
  closed, opened, half_open, Breaker, new, Call, allows, succeeds, fails, step, run, record_success,
  record_failure,
}
use netdata_postgres_mcp.Breaker.Invariant.{
  IsValid, SameConfig, Follows, run-new-IsValid, step-Follows,
}
use netdata_postgres_mcp.Breaker.Traces.{recovery}

abbrev calls : List (ℕ × Call)
calls = (1, allows) ∷ (2, fails 3) ∷ (4, fails 5) ∷ (70, allows) ∷ (71, succeeds) ∷ []

-- Two failures open a breaker of threshold two, and it probes after its timeout of 60.
run-calls : (run (new 2 60) calls).state ≡ half_open
unfolding run new
run-calls = refl

run-new-IsValid_example :
    IsValid (run (new 2 60) calls) × SameConfig (new 2 60) (run (new 2 60) calls)
run-new-IsValid_example = run-new-IsValid 2 60 calls

abbrev probing : Breaker
probing = record {
  state = half_open;
  failures = 5;
  threshold = 5;
  reset_timeout = 60;
  last_failure = 10;
  half_open_max = 2;
  half_open_ok = 1;
}

step-Follows_example : Follows half_open probing 80 succeeds (step probing (80, succeeds))
step-Follows_example = step-Follows probing 80 succeeds (omega arith, omega arith)

abbrev counting : Breaker
counting = record {
  state = closed;
  failures = 1;
  threshold = 5;
  reset_timeout = 60;
  last_failure = 0;
  half_open_max = 2;
  half_open_ok = 0;
}

abbrev tripped : Breaker
tripped = record probing { state = opened; half_open_ok = 0 }

recovery_example :
    ((record_success tripped 90).state ≡ half_open)
    × ((record_success (record_success tripped 90) 91).state ≡ closed)
    × ((record_success (record_success tripped 90) 91).failures ≡ 0)
    × ((record_failure (record_success tripped 90) 91 92).state ≡ opened)
recovery_example = recovery tripped 90 91 92 refl refl (omega arith)
