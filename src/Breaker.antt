-- ===== src/Breaker.antt =====
-- internal/circuitbreaker/breaker.go. Each method holds the mutex from start to end, so a method is
-- a function on the record. Times are nanoseconds of the monotonic clock; `now` is the reading of
-- `time.Since` in `currentState`, `stamp` that of `time.Now` in `RecordFailure`. The counters only
-- count up by one from 0, and are natural numbers.
pub mod Invariant
pub mod Traces
mod Tests
use netdata_postgres_mcp.Base.{
  ℕ, suc, ◌+◌, ◌-◌, ◌≡◌, refl, ◌⊎◌, inl, inr, Bool, true, false, ◌&&◌, List, [], ◌∷◌, ltb, leb,
  if◌then◌else◌, arith,
}

pub data State : Type 0 where
  closed opened half_open : State

pub record Breaker : Type 0 where
  pub state : State
  pub failures : ℕ
  pub threshold : ℕ
  pub reset_timeout : ℕ
  pub last_failure : ℕ
  pub half_open_max : ℕ
  pub half_open_ok : ℕ

-- The fields that `New` leaves out have Go's zero values.
unfoldable pub new : ℕ → ℕ → Breaker
new threshold reset_timeout = record {
  state = closed;
  failures = 0;
  threshold = threshold;
  reset_timeout = reset_timeout;
  last_failure = 0;
  half_open_max = 2;
  half_open_ok = 0;
}

unfoldable pub is_open : State → Bool
is_open closed = false
is_open opened = true
is_open half_open = false

-- It writes the state, so it returns the breaker; the state that it returns is the field.
unfoldable pub current_state : Breaker → ℕ → Breaker
unfolding is_open
current_state b now =
    if is_open b.state && ltb b.reset_timeout (now - b.last_failure)
    then record b { state = half_open; half_open_ok = 0 }
    else b

-- `true` for a nil error, `false` for `ErrCircuitOpen`.
permits : State → Bool
permits closed = true
permits opened = false
permits half_open = true

unfoldable pub allow : Breaker → ℕ → Breaker × Bool
unfolding current_state permits
allow b now = let b' = current_state b now in (b', permits b'.state)

success_in : State → Breaker → Breaker
success_in half_open b =
    if leb b.half_open_max (b.half_open_ok + 1)
    then record b { half_open_ok = b.half_open_ok + 1; state = closed; failures = 0 }
    else record b { half_open_ok = b.half_open_ok + 1 }
success_in closed b = record b { failures = 0 }
success_in opened b = b

unfoldable pub record_success : Breaker → ℕ → Breaker
unfolding current_state success_in
record_success b now = let b' = current_state b now in success_in b'.state b'

-- `b` already counts the failure.
failure_in : State → Breaker → Breaker
failure_in half_open b = record b { state = opened }
failure_in closed b = if leb b.threshold b.failures then record b { state = opened } else b
failure_in opened b = if leb b.threshold b.failures then record b { state = opened } else b

unfoldable pub record_failure : Breaker → ℕ → ℕ → Breaker
unfolding current_state failure_in
record_failure b now stamp =
    let b' = current_state b now in
    failure_in b'.state (record b' { failures = b'.failures + 1; last_failure = stamp })

unfoldable pub reset : Breaker → Breaker
reset b = record b { state = closed; failures = 0 }

-- The calls that a client makes; `fails` carries the second clock reading.
pub data Call : Type 0 where
  queries allows succeeds resets : Call
  fails : ℕ → Call

unfoldable pub step : Breaker → ℕ × Call → Breaker
unfolding current_state allow record_success record_failure reset
step b (now, queries) = current_state b now
step b (now, allows) = (allow b now).0
step b (now, succeeds) = record_success b now
step b (now, fails stamp) = record_failure b now stamp
step b (now, resets) = reset b

unfoldable pub run : Breaker → List (ℕ × Call) → Breaker
unfolding step
run b [] = b
run b (c ∷ cs) = run (step b c) cs
