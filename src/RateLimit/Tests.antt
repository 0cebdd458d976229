-- ===== src/RateLimit/Tests.antt =====
-- internal/middleware/ratelimit.go with whole tokens for the floats, at two requests a second and a
-- burst of three.
use netdata_postgres_mcp.Base.{
  ℕ, suc, ◌+◌, ◌-◌, ◌*◌, ◌/◌, ◌^◌, ◌≤◌, ◌<◌, ◌≡◌, refl, true, false, none, some, ltb, leb, arith,
}
use netdata_postgres_mcp.Base.Text.{str}
use netdata_postgres_mcp.RateLimit.{Float64, RateLimiter}
use netdata_postgres_mcp.RateLimit.Burst.{answers, allowances, answers_new}

never_more : (x y : ℕ) → ltb y x ≡ false → ltb y (x - 1) ≡ false
never_more x y h = ground arith

never_less : (x : ℕ) → ltb x x ≡ false
never_less x = ground arith

not_less : (m n : ℕ) → m ≤ n → ltb n m ≡ false
not_less m n h = ground arith

one_left : (n : ℕ) → n < 2 ^ 53 → leb 1 (suc n) ≡ true
one_left n h = ground arith

sub_one : (n : ℕ) → n < 2 ^ 53 → suc n - 1 ≡ n
sub_one n h = omega arith

no_seconds : (n rate : ℕ) → true ≡ true → n + 0 / 1000000000 * rate ≡ n
no_seconds n rate finite = omega arith

abbrev whole : Float64
whole = record {
  F = ℕ;
  of_int = λ n. n;
  is_finite = λ x. true;
  greater = λ x y. ltb y x;
  at_least = λ x y. leb y x;
  add = λ x y. x + y;
  sub = λ x y. x - y;
  mul = λ x y. x * y;
  seconds = λ n. n / 1000000000;
  greater_irrefl = never_less;
  greater-sub = never_more;
  greater-of_int = not_less;
  at_least_pos = one_left;
  at_least_zero = refl;
  sub-of_int = sub_one;
  no_time = no_seconds;
}

abbrev limiter : RateLimiter whole
limiter = record { visitors = λ ip. none; rate = 2; burst = 3 }

answers_new_example : answers whole 4 limiter (str "10.0.0.1") 50 ≡ allowances whole 3
answers_new_example = answers_new whole 2 50 limiter (str "10.0.0.1") refl (omega arith) refl refl

abbrev seen : RateLimiter whole
seen = record limiter { visitors = λ ip. some (record { tokens = 1; last_seen = 0 }) }
