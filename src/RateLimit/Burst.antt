-- ===== src/RateLimit/Burst.antt =====
-- What the buckets of internal/middleware/ratelimit.go let through.
use netdata_postgres_mcp.Base.{
  ℕ, zero, suc, ◌-◌, ◌^◌, ◌<◌, ◌≤◌, ◌≡◌, refl, ◌∙◌, ap, Bool, true, false, List, [], ◌∷◌, Option,
  none, some, Option-cases, Bool-cases, inl, inr, arith,
}
use netdata_postgres_mcp.Base.Text.{Bytes, eq_str, eq_str_refl}
use netdata_postgres_mcp.RateLimit.{
  Float64, Bucket, RateLimiter, set_visitor, refill, with_bucket, allow_bucket, allow,
}

module _ (float : Float64) where
  open float use {F, of_int, greater, at_least, add, sub, mul, seconds}

  -- A bucket holds no more than the burst.
  abbrev pub Bounded : ℕ → Option (Bucket F) → Type 0
  Bounded burst none = Unit
  Bounded burst (some b) = greater b.tokens (of_int burst) ≡ false

  refill-Bounded :
      (rl : RateLimiter float) (b : Bucket F) (now : ℕ)
      → greater (refill float rl b now) (of_int rl.burst) ≡ false
  refill-Bounded rl b now =
      let tokens = add b.tokens (mul (seconds (now - b.last_seen)) rl.rate) in
      elim (Bool-cases (greater tokens (of_int rl.burst))) [
        | inl e ↦ rw e (float.greater_irrefl (of_int rl.burst))
        | inr e ↦ rw e e
      ]

  set_visitor-Bounded :
      (rl : RateLimiter float) (ip k : Bytes) (tokens : F) (now : ℕ)
      → Bounded rl.burst (rl.visitors k)
      → greater tokens (of_int rl.burst) ≡ false
      → Bounded rl.burst ((with_bucket float rl ip tokens now).visitors k)
  unfolding set_visitor
  set_visitor-Bounded rl ip k tokens now h g = elim (Bool-cases (eq_str k ip)) [
    | inl e ↦ rw e g
    | inr e ↦ rw e h
  ]

  -- A request, of whatever address and at whatever time, leaves no bucket above the burst.
  pub allow-Bounded :
      (rl : RateLimiter float) (ip k : Bytes) (now : ℕ)
      → Bounded rl.burst (rl.visitors k)
      → Bounded rl.burst ((allow float rl ip now).0.visitors k)
  unfolding allow allow_bucket
  allow-Bounded rl ip k now h = elim (Option-cases (rl.visitors ip)) [
    | inl e ↦
        rw (e, allow_bucket)
          (set_visitor-Bounded rl ip k (sub (of_int rl.burst) (of_int 1)) now h
            (float.greater-sub _ _ (float.greater_irrefl (of_int rl.burst))))
    | inr (b, e) ↦
        let g = refill-Bounded rl b now in
        elim (Bool-cases (at_least (refill float rl b now) (of_int 1))) [
          | inl enough ↦
              rw (e, allow_bucket, enough)
                (set_visitor-Bounded rl ip k (sub (refill float rl b now) (of_int 1)) now h
                  (float.greater-sub _ _ g))
          | inr few ↦
              rw (e, allow_bucket, few)
                (set_visitor-Bounded rl ip k (refill float rl b now) now h g)
        ]
  ]

  -- A request of one address leaves the buckets of all others as they are.
  pub allow_others :
      (rl : RateLimiter float) (ip k : Bytes) (now : ℕ)
      → eq_str k ip ≡ false
      → (allow float rl ip now).0.visitors k ≡ rl.visitors k
  unfolding allow allow_bucket set_visitor
  allow_others rl ip k now h = elim (Option-cases (rl.visitors ip)) [
    | inl e ↦ rw (e, allow_bucket, h) refl
    | inr (b, e) ↦ elim (Bool-cases (at_least (refill float rl b now) (of_int 1))) [
      | inl enough ↦ rw (e, allow_bucket, enough, h) refl
      | inr few ↦ rw (e, allow_bucket, few, h) refl
    ]
  ]

  -- The answers to requests of one address at one time.
  unfoldable pub answers : ℕ → RateLimiter float → Bytes → ℕ → List Bool
  unfolding allow
  answers zero rl ip now = []
  answers (suc n) rl ip now = (allow float rl ip now).1 ∷ answers n (allow float rl ip now).0 ip now

  abbrev pub allowances : ℕ → List Bool
  allowances zero = false ∷ []
  allowances (suc n) = true ∷ allowances n

  bucket_of :
      (rl : RateLimiter float) (ip : Bytes) (t : F) (now : ℕ)
      → (with_bucket float rl ip t now).visitors ip ≡ some (record { tokens = t; last_seen = now })
  unfolding set_visitor
  bucket_of rl ip t now = rw (eq_str_refl ip) refl

  refill-of_int :
      (rl : RateLimiter float) (n now : ℕ)
      → n ≤ rl.burst
      → float.is_finite rl.rate ≡ true
      → refill float rl (record { tokens = of_int n; last_seen = now }) now ≡ of_int n
  refill-of_int rl n now h fin =
      let none_passed : now - now ≡ 0 = omega arith in
      rw (none_passed, float.no_time n rl.rate fin, float.greater-of_int n rl.burst h) refl

  allow-of_int :
      (n now : ℕ) (rl : RateLimiter float) (ip : Bytes)
      → suc n ≤ rl.burst
      → n < 2 ^ 53
      → float.is_finite rl.rate ≡ true
      → rl.visitors ip ≡ some (record { tokens = of_int (suc n); last_seen = now })
      → allow float rl ip now ≡ (with_bucket float rl ip (of_int n) now, true)
  unfolding allow allow_bucket
  allow-of_int n now rl ip h k fin e =
      rw
        (
          e,
          allow_bucket,
          refill-of_int rl (suc n) now h fin,
          float.at_least_pos n k,
          float.sub-of_int n k,
        )
        refl

  answers-bucket :
      (n now : ℕ) (rl : RateLimiter float) (ip : Bytes)
      → n ≤ rl.burst
      → n < 2 ^ 53
      → float.is_finite rl.rate ≡ true
      → rl.visitors ip ≡ some (record { tokens = of_int n; last_seen = now })
      → answers (suc n) rl ip now ≡ allowances n
  unfolding answers allow allow_bucket
  answers-bucket zero now rl ip h k fin e =
      rw (e, allow_bucket, refill-of_int rl 0 now h fin, float.at_least_zero) refl
  answers-bucket (suc n) now rl ip h k fin e =
      let rl' = with_bucket float rl ip (of_int n) now in
      ap (λ (p : RateLimiter float × Bool). p.1 ∷ answers (suc n) p.0 ip now)
        (allow-of_int n now rl ip h (omega arith) fin e)
      ∙ ap (λ (rest : List Bool). true ∷ rest)
          (answers-bucket n now rl' ip (omega arith) (omega arith) fin
            (bucket_of rl ip (of_int n) now))

  -- With a finite rate and a burst from 1 to 2 ^ 53: of the requests of a new address at one time, as many
  -- as the burst are allowed, and the next one is not.
  pub answers_new :
      (n now : ℕ) (rl : RateLimiter float) (ip : Bytes)
      → rl.burst ≡ suc n
      → n < 2 ^ 53
      → float.is_finite rl.rate ≡ true
      → rl.visitors ip ≡ none
      → answers (suc (suc n)) rl ip now ≡ allowances (suc n)
  unfolding answers allow allow_bucket
  answers_new n now rl ip b k fin e =
      ap (λ (p : RateLimiter float × Bool). p.1 ∷ answers (suc n) p.0 ip now) first
      ∙ ap (λ (rest : List Bool). true ∷ rest)
          (answers-bucket n now (with_bucket float rl ip (of_int n) now) ip (omega arith) k fin
            (bucket_of rl ip (of_int n) now))
    where
      first : allow float rl ip now ≡ (with_bucket float rl ip (of_int n) now, true)
      first = rw (e, allow_bucket, b, float.sub-of_int n k) refl
