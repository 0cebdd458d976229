-- ===== src/RateLimit.antt =====
-- internal/middleware/ratelimit.go. `Allow` and a cleanup hold the mutex from start to end, so each is
-- a function on the map of visitors. The arithmetic of float64 is a parameter.
pub mod Burst
mod Tests
use netdata_postgres_mcp.Base.{
  ℕ, suc, ◌+◌, ◌-◌, ◌^◌, ◌≤◌, ◌<◌, ◌≡◌, Bool, true, false, not, List, [], ◌∷◌, Option, none, some,
  take, ltb, if◌then◌else◌,
}
use netdata_postgres_mcp.Base.Text.{Bytes, eq_str, is_empty, index_byte, trim_space}
use netdata_postgres_mcp.Metrics.{Metrics}

-- What the limiter uses of float64: the conversion of an int, the comparisons, the arithmetic, and
-- the number of seconds of a duration in nanoseconds; and what IEEE 754 says of them: taking one
-- away does not make a number greater, integers below 2 ^ 53 are exact, and at a finite rate no time
-- adds nothing.
pub record Float64 : Type 1 where
  pub F : Type 0
  pub of_int : ℕ → F
  pub is_finite : F → Bool
  pub greater : F → F → Bool
  pub at_least : F → F → Bool
  pub add : F → F → F
  pub sub : F → F → F
  pub mul : F → F → F
  pub seconds : ℕ → F
  pub greater_irrefl : (x : F) → greater x x ≡ false
  pub greater-sub : (x y : F) → greater x y ≡ false → greater (sub x (of_int 1)) y ≡ false
  pub greater-of_int : (m n : ℕ) → m ≤ n → greater (of_int m) (of_int n) ≡ false
  pub at_least_pos : (n : ℕ) → n < 2 ^ 53 → at_least (of_int (suc n)) (of_int 1) ≡ true
  pub at_least_zero : at_least (of_int 0) (of_int 1) ≡ false
  pub sub-of_int : (n : ℕ) → n < 2 ^ 53 → sub (of_int (suc n)) (of_int 1) ≡ of_int n
  pub no_time :
      (n : ℕ) (rate : F) → is_finite rate ≡ true → add (of_int n) (mul (seconds 0) rate) ≡ of_int n

pub record Bucket (F : Type 0) : Type 0 where
  pub tokens : F
  pub last_seen : ℕ

-- The map of the visitors, by IP.
abbrev pub Visitors : Type 0 → Type 0
Visitors F = Bytes → Option (Bucket F)

-- cleanup: 3 * time.Minute
abbrev pub cleanup : ℕ
cleanup = 180000000000

module _ (float : Float64) where
  open float use {F, of_int, greater, at_least, add, sub, mul, seconds}

  unfoldable pub set_visitor : Visitors F → Bytes → Bucket F → Visitors F
  set_visitor visitors ip b k = if eq_str k ip then some b else visitors k

  pub record RateLimiter : Type 0 where
    pub visitors : Visitors F
    pub rate : F
    pub burst : ℕ

  -- The tokens refilled for the time that has passed, at most the burst.
  abbrev pub refill : RateLimiter → Bucket F → ℕ → F
  refill rl b now =
      let tokens = add b.tokens (mul (seconds (now - b.last_seen)) rl.rate) in
      if greater tokens (of_int rl.burst) then of_int rl.burst else tokens

  abbrev pub with_bucket : RateLimiter → Bytes → F → ℕ → RateLimiter
  with_bucket rl ip tokens now = record rl {
    visitors = set_visitor rl.visitors ip (record { tokens = tokens; last_seen = now });
  }

  allow_bucket : RateLimiter → Bytes → ℕ → Option (Bucket F) → RateLimiter × Bool
  allow_bucket rl ip now none = (with_bucket rl ip (sub (of_int rl.burst) (of_int 1)) now, true)
  allow_bucket rl ip now (some b) =
      if at_least (refill rl b now) (of_int 1)
      then (with_bucket rl ip (sub (refill rl b now) (of_int 1)) now, true)
      else (with_bucket rl ip (refill rl b now) now, false)

  unfoldable pub allow : RateLimiter → Bytes → ℕ → RateLimiter × Bool
  unfolding allow_bucket
  allow rl ip now = allow_bucket rl ip now (rl.visitors ip)

  -- One round of `cleanupLoop`.
  unfoldable pub clean : Visitors F → ℕ → Visitors F
  clean visitors now k = elim (visitors k) [
    | none ↦ none
    | some b ↦ if ltb b.last_seen (now - cleanup) then none else some b
  ]

  -- The parts of the request that `extractIP` reads; a header that is missing is empty.
  pub record Request : Type 0 where
    pub forwarded_for : Bytes
    pub real_ip : Bytes
    pub remote_addr : Bytes

  -- The text before the first comma, if there is one.
  abbrev pub before_comma : Bytes → Option ℕ → Bytes
  before_comma s none = s
  before_comma s (some i) = take i s

  abbrev pub or_remote_addr : Bytes → Option Bytes → Bytes
  or_remote_addr remote_addr none = remote_addr
  or_remote_addr remote_addr (some ip) = ip

  module _ (split_host_port : Bytes → Option Bytes) (trust_proxy : Bool) where
    unfoldable pub extract_ip : Request → Bytes
    extract_ip r =
        let direct = or_remote_addr r.remote_addr (split_host_port r.remote_addr) in
        if trust_proxy
        then (if not (is_empty r.forwarded_for)
            then trim_space (before_comma r.forwarded_for (index_byte r.forwarded_for b','))
            else if not (is_empty r.real_ip)
            then r.real_ip
            else direct)
        else direct

    -- `true` if the next handler serves the request; otherwise it is answered with 429.
    unfoldable pub handler : RateLimiter → Metrics → Request → ℕ → RateLimiter × Metrics × Bool
    unfolding allow extract_ip
    handler rl m r now =
        let (rl', allowed) = allow rl (extract_ip r) now in
        if not allowed
        then (rl', record m { rate_limit_rejects = m.rate_limit_rejects + 1 }, false)
        else (rl', m, true)
