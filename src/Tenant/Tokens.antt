-- ===== src/Tenant/Tokens.antt =====
-- Which requests internal/tenant/tenant.go lets through, and as whom.
use netdata_postgres_mcp.Base.{
  ℕ, ◌≡◌, ◌↔◌, ◌⊎◌, inl, inr, true, false, Option, none, some, Option-cases, arith,
}
use netdata_postgres_mcp.Base.Text.{Bytes, is_empty}
use netdata_postgres_mcp.Tenant.{
  Info, TokenRow, Request, extract_bearer_token, is_expired, unauthorized, served, resolve_token,
  middleware,
}

module _ (hash_token : Bytes → Bytes) (lookup : Bytes → Option TokenRow) where
  -- The request's token has a row that is not expired, of this tenant.
  abbrev pub IsTenant : ℕ → Request → Info → Type 0
  IsTenant now r info =
      (is_empty (extract_bearer_token r) ≡ false)
      × ((row : TokenRow) × ((lookup (hash_token (extract_bearer_token r)) ≡ some row)
            × (is_expired now row.expires_at ≡ false)
            × (row.info ≡ info)))

  -- With several tenants, a request is served as a tenant if and only if its token is not empty and
  -- belongs to a row of that tenant that has not expired.
  pub middleware-IsTenant :
      (now : ℕ) (r : Request) (info : Info)
      → (middleware hash_token lookup true now r ≡ served (some info)) ↔ IsTenant now r info
  unfolding middleware resolve_token
  middleware-IsTenant now r info = (
    λ e. elim (Option-cases (lookup (hash_token (extract_bearer_token r)))) [
      | inl missing ↦ absurd (ground (arith, e, missing))
      | inr (row, found) ↦ (
        ground (arith, e, found),
        (row, (found, ground (arith, e, found), ground (arith, e, found))),
      )
    ],
    λ (present, (row, (found, valid, same))). ground (arith, present, found, valid, same),
  )

  -- With several tenants, a request whose token has expired is not refused: it is served without a
  -- tenant, as every request is with a single tenant.
  pub expired_token :
      (now : ℕ) (r : Request) (row : TokenRow)
      → is_empty (extract_bearer_token r) ≡ false
      → lookup (hash_token (extract_bearer_token r)) ≡ some row
      → is_expired now row.expires_at ≡ true
      → (middleware hash_token lookup true now r ≡ served none)
        × (middleware hash_token lookup false now r ≡ served none)
  unfolding middleware resolve_token
  expired_token now r row e l x = ground (arith, e, l, x)

  -- With several tenants, a request is refused if and only if it has no token or its token has no row.
  pub middleware-unauthorized :
      (now : ℕ) (r : Request)
      → (middleware hash_token lookup true now r ≡ unauthorized) ↔ (
          (is_empty (extract_bearer_token r) ≡ true)
          ⊎ (lookup (hash_token (extract_bearer_token r)) ≡ none))
  unfolding middleware resolve_token
  middleware-unauthorized now r = ground arith
