-- ===== src/Reload/Again.antt =====
-- Repeated calls of Reload of internal/reload/reload.go.
use mathlib.Core.Option.{some-injective}
use netdata_postgres_mcp.Base.{
  ℕ, ◌+◌, ◌*◌, ◌≤◌, ◌≡◌, refl, List, [], ◌∷◌, Option, none, some, Bool-cases, inl, inr, arith,
}
use netdata_postgres_mcp.Base.Text.{Bytes, str, eq_str, eq_str_refl, is_empty}
use netdata_postgres_mcp.RateLimit.{Float64, RateLimiter}
use netdata_postgres_mcp.Reload.{
  ReloadableConfig, reload_log_level, new_rate_limiter, limiter_for, reload_limiter, reload,
}

module _ (float : Float64) (parse_float : Bytes → Option float.F) (to_int : float.F → ℕ) where
  log_level_again :
      (v old : Bytes)
      → reload_log_level float v (reload_log_level float v old) ≡ reload_log_level float v old
  unfolding reload_log_level
  log_level_again v old = elim (Bool-cases (is_empty v)) [
    | inl z ↦ rw z refl
    | inr z ↦ elim (Bool-cases (eq_str old v)) [
      | inl b ↦ rw (z, b, b) refl
      | inr b ↦ rw (z, b, eq_str_refl v) refl
    ]
  ]

  limiter_again :
      (v : Bytes) (old : Option (RateLimiter float))
      → reload_limiter float parse_float to_int v (reload_limiter float parse_float to_int v old)
        ≡ reload_limiter float parse_float to_int v old
  unfolding reload_limiter
  limiter_again v old = elim (Bool-cases (is_empty v)) [
    | inl z ↦ rw z refl
    | inr z ↦ rw z (parsed (parse_float v))
  ]
    where
      parsed :
          (o : Option float.F)
          → limiter_for float parse_float to_int (limiter_for float parse_float to_int old o) o
            ≡ limiter_for float parse_float to_int old o
      parsed none = refl
      parsed (some rps) = elim (Bool-cases (float.greater rps (float.of_int 0))) [
        | inl b ↦ rw b refl
        | inr b ↦ rw b refl
      ]

  -- The environment is read anew each time, and a second Reload with the same environment changes nothing.
  pub reload-reload :
      (getenv : Bytes → Bytes) (rc : ReloadableConfig float)
      → reload float parse_float to_int getenv (reload float parse_float to_int getenv rc)
        ≡ reload float parse_float to_int getenv rc
  unfolding reload
  reload-reload getenv rc =
      let token = getenv (str "MCP_AUTH_TOKEN") in
      rw
        (
          log_level_again (getenv (str "LOG_LEVEL")) rc.log_level,
          limiter_again (getenv (str "RATE_LIMIT_RPS")) rc.rate_limiter,
        )
        (elim (Bool-cases (is_empty token)) [ inl b ↦ rw b refl | inr b ↦ rw b refl ])

  -- A limiter lets the first request of a visitor through.
  abbrev pub IsOpen : ReloadableConfig float → Type 0
  IsOpen rc = (rl : RateLimiter float) → rc.rate_limiter ≡ some rl → 1 ≤ rl.burst

  unfoldable pub run_reloads :
      List (Bytes → Bytes) → ReloadableConfig float → ReloadableConfig float
  run_reloads [] rc = rc
  run_reloads (getenv ∷ envs) rc = run_reloads envs (reload float parse_float to_int getenv rc)

  reload-IsOpen :
      (getenv : Bytes → Bytes) (rc : ReloadableConfig float)
      → IsOpen rc
      → IsOpen (reload float parse_float to_int getenv rc)
  unfolding reload reload_limiter new_rate_limiter
  reload-IsOpen getenv rc h rl e = elim (Bool-cases (is_empty (getenv (str "RATE_LIMIT_RPS")))) [
    | inl z ↦ h rl (rw z at e)
    | inr z ↦ parsed (parse_float (getenv (str "RATE_LIMIT_RPS"))) (rw z at e)
  ]
    where
      parsed :
          (o : Option float.F)
          → limiter_for float parse_float to_int rc.rate_limiter o ≡ some rl
          → 1 ≤ rl.burst
      parsed none p = h rl p
      parsed (some rps) p = elim (Bool-cases (float.greater rps (float.of_int 0))) [
        | inl b ↦ made rps (rw b at p)
        | inr b ↦ h rl (rw b at p)
      ]
        where
          made :
              (rps' : float.F)
              → some (new_rate_limiter float rps' (to_int rps' * 2 + 1)) ≡ some rl
              → 1 ≤ rl.burst
          made rps' q = rw (← some-injective _ _ q) (burst_pos rps')
            where
              burst_pos : (r : float.F) → 1 ≤ (new_rate_limiter float r (to_int r * 2 + 1)).burst
              burst_pos r = omega arith

  -- After any reloads, whatever the environments were, a limiter has a burst of at least one request.
  pub run_reloads-IsOpen :
      (envs : List (Bytes → Bytes)) (rc : ReloadableConfig float)
      → IsOpen rc
      → IsOpen (run_reloads envs rc)
  unfolding run_reloads
  run_reloads-IsOpen [] rc h = h
  run_reloads-IsOpen (getenv ∷ envs) rc h =
      run_reloads-IsOpen envs (reload float parse_float to_int getenv rc)
        (reload-IsOpen getenv rc h)
