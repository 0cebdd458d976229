-- ===== src/Reload.antt =====
-- internal/reload/reload.go: the configuration that SIGHUP reloads. A call of Reload holds the mutex
-- from start to end, so it is a function on the three values. The environment, strconv.ParseFloat
-- and the conversion of a float64 to int are parameters.
pub mod Again
use netdata_postgres_mcp.Base.{ℕ, ◌+◌, ◌*◌, Bool, ◌||◌, [], Option, none, some, if◌then◌else◌}
use netdata_postgres_mcp.Base.Text.{Bytes, str, eq_str, is_empty, to_lower}
use netdata_postgres_mcp.RateLimit.{Float64, RateLimiter}

-- slog.Level
pub data Level : Type 0 where
  level_debug level_info level_warn level_error : Level

-- ParseLogLevel
unfoldable pub parse_log_level : Bytes → Level
parse_log_level level =
    let l = to_lower level in
    if eq_str l (str "debug")
    then level_debug
    else if eq_str l (str "warn") || eq_str l (str "warning")
    then level_warn
    else if eq_str l (str "error")
    then level_error
    else level_info

module _ (float : Float64) where
  open float use {F, of_int, greater}

  pub record ReloadableConfig : Type 0 where
    pub log_level : Bytes
    pub auth_token : Bytes
    pub rate_limiter : Option (RateLimiter float)

  -- New
  unfoldable pub new : ReloadableConfig
  new = record { log_level = str "info"; auth_token = []; rate_limiter = none }

  -- if v := os.Getenv("LOG_LEVEL"); v != "" { … }
  unfoldable pub reload_log_level : Bytes → Bytes → Bytes
  reload_log_level v old = if is_empty v then old else if eq_str old v then old else v

  -- middleware.NewRateLimiter
  unfoldable pub new_rate_limiter : F → ℕ → RateLimiter float
  new_rate_limiter rate burst = record { visitors = λ ip. none; rate = rate; burst = burst }

  module _ (parse_float : Bytes → Option F) (to_int : F → ℕ) where
    abbrev pub limiter_for : Option (RateLimiter float) → Option F → Option (RateLimiter float)
    limiter_for old none = old
    limiter_for old (some rps) =
        if greater rps (of_int 0) then some (new_rate_limiter rps (to_int rps * 2 + 1)) else old

    -- if v := os.Getenv("RATE_LIMIT_RPS"); v != "" { … }
    unfoldable pub reload_limiter : Bytes → Option (RateLimiter float) → Option (RateLimiter float)
    unfolding new_rate_limiter
    reload_limiter v old = if is_empty v then old else limiter_for old (parse_float v)

    -- Reload; `getenv` is os.Getenv.
    unfoldable pub reload : (Bytes → Bytes) → ReloadableConfig → ReloadableConfig
    unfolding reload_log_level reload_limiter
    reload getenv rc = record {
      log_level = reload_log_level (getenv (str "LOG_LEVEL")) rc.log_level;
      auth_token =
          if is_empty (getenv (str "MCP_AUTH_TOKEN"))
          then rc.auth_token
          else getenv (str "MCP_AUTH_TOKEN");
      rate_limiter = reload_limiter (getenv (str "RATE_LIMIT_RPS")) rc.rate_limiter;
    }
