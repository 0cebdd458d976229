-- ===== src/Breaker/Invariant.antt =====
-- What holds of a breaker between two calls, and the state machine that its calls follow.
use netdata_postgres_mcp.Base.{ℕ, ◌+◌, ◌-◌, ◌≤◌, ◌<◌, ◌≡◌, refl, ◌⊎◌, List, [], ◌∷◌, arith}
use netdata_postgres_mcp.Breaker.{
  State, closed, opened, half_open, Breaker, new, Call, queries, allows, succeeds, resets, fails,
  step, run,
}

-- What the counters are in each state.
abbrev pub Counters : State → Breaker → Type 0
Counters closed b = (b.failures ≡ 0) ⊎ (b.failures < b.threshold)
Counters opened b = b.threshold ≤ b.failures
Counters half_open b = (b.threshold ≤ b.failures) × (b.half_open_ok < b.half_open_max)

abbrev pub IsValid : Breaker → Type 0
IsValid b = Counters b.state b

-- The configuration is the one that the breaker was made with.
pub record SameConfig (a b : Breaker) : Type 0 where
  pub threshold : b.threshold ≡ a.threshold
  pub reset_timeout : b.reset_timeout ≡ a.reset_timeout
  pub half_open_max : b.half_open_max ≡ a.half_open_max

pub new-IsValid : (t r : ℕ) → IsValid (new t r)
unfolding new
new-IsValid t r = ground arith

pub step-IsValid :
    (b : Breaker) (c : ℕ × Call) → 0 < b.half_open_max → IsValid b → IsValid (step b c)
unfolding step
step-IsValid b (now, queries) p v = ground arith
step-IsValid b (now, allows) p v = ground arith
step-IsValid b (now, succeeds) p v = ground arith
step-IsValid b (now, fails stamp) p v = ground arith
step-IsValid b (now, resets) p v = ground arith

step-SameConfig : (b : Breaker) (c : ℕ × Call) → SameConfig b (step b c)
unfolding step
step-SameConfig b (now, queries) = ground arith
step-SameConfig b (now, allows) = ground arith
step-SameConfig b (now, succeeds) = ground arith
step-SameConfig b (now, fails stamp) = ground arith
step-SameConfig b (now, resets) = ground arith

run-IsValid :
    (b : Breaker) (cs : List (ℕ × Call))
    → 0 < b.half_open_max
    → IsValid b
    → IsValid (run b cs) × SameConfig b (run b cs)
unfolding run
run-IsValid b [] p v = (v, record { threshold = refl; reset_timeout = refl; half_open_max = refl })
run-IsValid b (c ∷ cs) p v =
    let s = step-SameConfig b c in
    let h = run-IsValid (step b c) cs (omega (arith, s.half_open_max)) (step-IsValid b c p v) in
    (
      h.0,
      record {
        threshold = omega (arith, h.1.threshold, s.threshold);
        reset_timeout = omega (arith, h.1.reset_timeout, s.reset_timeout);
        half_open_max = omega (arith, h.1.half_open_max, s.half_open_max);
      },
    )

-- After any calls on a new breaker: it is closed or has counted `threshold` failures, a closed one
-- has counted none or fewer than `threshold`, a half-open one has counted fewer than two successful
-- probes, and the configured threshold and timeout are unchanged.
pub run-new-IsValid :
    (t r : ℕ) (cs : List (ℕ × Call))
    → IsValid (run (new t r) cs) × SameConfig (new t r) (run (new t r) cs)
unfolding new
run-new-IsValid t r cs = run-IsValid (new t r) cs (omega arith) (new-IsValid t r)

-- Where a call takes the breaker from a closed state: a failure counts one, and opens the breaker if
-- the count reaches the threshold.
abbrev FromClosed : Breaker → Call → Breaker → Type 0
FromClosed b (fails stamp) b' =
    (b'.failures ≡ b.failures + 1)
    × (((b'.state ≡ closed) × (b'.failures < b.threshold))
        ⊎ ((b'.state ≡ opened) × (b.threshold ≤ b'.failures)))
FromClosed b _ b' = b'.state ≡ closed

-- From a half-open one, with so many probes counted.
abbrev FromHalfOpen : ℕ → Breaker → Call → Breaker → Type 0
FromHalfOpen probes b succeeds b' =
    ((b'.state ≡ half_open)
      × (probes + 1 < b.half_open_max)
      × (b'.half_open_ok ≡ probes + 1)
      × (b'.failures ≡ b.failures))
    ⊎ ((b'.state ≡ closed) × (b.half_open_max ≤ probes + 1) × (b'.failures ≡ 0))
FromHalfOpen probes b (fails stamp) b' = (b'.state ≡ opened) × (b'.failures ≡ b.failures + 1)
FromHalfOpen probes b resets b' = (b'.state ≡ closed) × (b'.failures ≡ 0)
FromHalfOpen probes b _ b' =
    (b'.state ≡ half_open) × (b'.half_open_ok ≡ probes) × (b'.failures ≡ b.failures)

-- From an open one within its timeout: only a reset closes it.
abbrev Held : Breaker → Call → Breaker → Type 0
Held b resets b' = (b'.state ≡ closed) × (b'.failures ≡ 0)
Held b (fails stamp) b' = (b'.state ≡ opened) × (b'.failures ≡ b.failures + 1)
Held b _ b' = b' ≡ b

-- Where a call takes the breaker from each state, and why. An open one whose timeout has passed is
-- half-open with no probe counted.
abbrev pub Follows : State → Breaker → ℕ → Call → Breaker → Type 0
Follows closed b now c b' = FromClosed b c b'
Follows opened b now c b' =
    ((now - b.last_failure ≤ b.reset_timeout) × Held b c b')
    ⊎ ((b.reset_timeout < now - b.last_failure) × FromHalfOpen 0 b c b')
Follows half_open b now c b' = FromHalfOpen b.half_open_ok b c b'

-- For a breaker whose counters fit its state, as they do after any calls on a new one: a closed one is
-- opened exactly by a failure whose count reaches the threshold. An open one, up to its timeout, is
-- closed by a reset and by nothing else; after it, any call finds it half-open without probes. A
-- half-open one counts each success and stays so until the count reaches the probes asked for,
-- which closes it with its failures at 0; any failure opens it, a reset closes it, and the
-- other calls leave it as it is.
pub step-Follows :
    (b : Breaker) (now : ℕ) (c : Call) → IsValid b → Follows b.state b now c (step b (now, c))
unfolding step
step-Follows b now queries v = ground arith
step-Follows b now allows v = ground arith
step-Follows b now succeeds v = ground arith
step-Follows b now (fails stamp) v = ground arith
step-Follows b now resets v = ground arith
