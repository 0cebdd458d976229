-- ===== src/Breaker/Traces.antt =====
-- When the breaker of internal/circuitbreaker/breaker.go trips, refuses and recovers.
use netdata_postgres_mcp.Base.{
  ℕ, ◌+◌, ◌-◌, ◌≤◌, ◌<◌, ◌≡◌, refl, true, List, [], ◌∷◌, ltb, arith, map, length,
}
use netdata_postgres_mcp.Breaker.{
  closed, opened, half_open, Breaker, allow, record_success, record_failure, Call, fails, step, run,
}

-- Failures in a row, each with its two clock readings.
abbrev pub failing : List (ℕ × ℕ) → List (ℕ × Call)
failing = map λ (now, stamp). (now, fails stamp)

failure_counts :
    (b : Breaker) (now stamp : ℕ)
    → b.state ≡ closed
    → b.failures + 1 < b.threshold
    → record_failure b now stamp ≡ record b { failures = b.failures + 1; last_failure = stamp }
unfolding record_failure
failure_counts b now stamp e h = ground arith

-- What a run of failures below the threshold leaves.
abbrev Counted : Breaker → ℕ → Breaker → Type 0
Counted b n b' = (b'.state ≡ closed) × (b'.failures ≡ b.failures + n) × (b'.threshold ≡ b.threshold)

run-failing :
    (b : Breaker) (fs : List (ℕ × ℕ))
    → b.state ≡ closed
    → b.failures + length fs < b.threshold
    → Counted b (length fs) (run b (failing fs))
unfolding run
run-failing b [] e h = (e, omega arith, refl)
run-failing b ((now, stamp) ∷ fs) e h =
    rw (failure_counts b now stamp e (omega arith), run)
      (ground
        (arith, run-failing (record b { failures = b.failures + 1; last_failure = stamp }) fs))

last_failure_opens :
    (b : Breaker) (now stamp : ℕ)
    → b.state ≡ closed
    → b.threshold ≤ b.failures + 1
    → ((allow b now).1 ≡ true)
      × ((step b (now, fails stamp)).state ≡ opened)
      × ((step b (now, fails stamp)).last_failure ≡ stamp)
unfolding allow step
last_failure_opens b now stamp e h = ground arith

-- A closed breaker stays closed, and allows calls, through fewer consecutive failures than are left to its
-- threshold; the failure that reaches the threshold opens it, and stamps it with the failure's time.
pub trips_at_threshold :
    (b : Breaker) (fs : List (ℕ × ℕ)) (now stamp : ℕ)
    → b.state ≡ closed
    → b.failures + length fs + 1 ≡ b.threshold
    → ((allow (run b (failing fs)) now).1 ≡ true)
      × ((step (run b (failing fs)) (now, fails stamp)).state ≡ opened)
      × ((step (run b (failing fs)) (now, fails stamp)).last_failure ≡ stamp)
trips_at_threshold b fs now stamp e h =
    let c = run-failing b fs e (omega arith) in
    last_failure_opens (run b (failing fs)) now stamp c.0 (omega arith)

-- A failure that opens the breaker makes it refuse every call up to the reset timeout after it, and
-- allow the calls after that.
pub refuses_until_timeout :
    (b : Breaker) (now stamp later : ℕ)
    → (record_failure b now stamp).state ≡ opened
    → (allow (record_failure b now stamp) later).1 ≡ ltb b.reset_timeout (later - stamp)
unfolding allow record_failure
refuses_until_timeout b now stamp later e = ground arith

-- An open breaker whose timeout has passed turns half-open with the first call, is closed, with no
-- failure counted, by the second success in a row, and is open again by a failure in between.
pub recovery :
    (b : Breaker) (now then' stamp : ℕ)
    → b.state ≡ opened
    → b.half_open_max ≡ 2
    → b.reset_timeout < now - b.last_failure
    → ((record_success b now).state ≡ half_open)
      × ((record_success (record_success b now) then').state ≡ closed)
      × ((record_success (record_success b now) then').failures ≡ 0)
      × ((record_failure (record_success b now) then' stamp).state ≡ opened)
unfolding record_success record_failure
recovery b now then' stamp e h p = ground arith
