-- ===== src/Tenant.antt =====
-- internal/tenant/tenant.go. SHA-256 and the query on `api_tokens` are parameters: `lookup` is the
-- row of a hash, `none` for no row and for any other error. A header that is missing is empty.
pub mod Tokens
mod Tests
use netdata_postgres_mcp.Base.{
  ℕ, Bool, true, false, List, Option, none, some, drop, ltb, if◌then◌else◌,
}
use netdata_postgres_mcp.Base.Text.{Bytes, str, has_prefix, is_empty}

pub record Info : Type 0 where
  pub tenant_id : Bytes
  pub tenant_name : Bytes
  pub label : Bytes
  pub scopes : List Bytes

-- The row that `resolveToken` scans.
pub record TokenRow : Type 0 where
  pub info : Info
  pub expires_at : Option ℕ

-- The parts of the request that `extractBearerToken` reads.
pub record Request : Type 0 where
  pub authorization : Bytes
  pub query_token : Bytes

unfoldable pub extract_bearer_token : Request → Bytes
extract_bearer_token r =
    if has_prefix r.authorization (str "Bearer ") then drop 7 r.authorization else r.query_token

-- expiresAt != nil && expiresAt.Before(time.Now())
unfoldable pub is_expired : ℕ → Option ℕ → Bool
is_expired now none = false
is_expired now (some t) = ltb t now

-- Go's `(*Info, error)`: the pointer, and whether the error is not nil.
pub record Resolved : Type 0 where
  pub info : Option Info
  pub failed : Bool

-- Where a request ends: a 401, or the next handler with the tenant of its context, if any.
pub data Outcome : Type 0 where
  unauthorized : Outcome
  served : Option Info → Outcome

module _ (hash_token : Bytes → Bytes) (lookup : Bytes → Option TokenRow) where
  -- For an expired token the code returns `nil, err`, and `err` is nil there.
  unfoldable pub resolve_token : ℕ → Bytes → Resolved
  unfolding is_expired
  resolve_token now raw_token = elim (lookup (hash_token raw_token)) [
    | none ↦ record { info = none; failed = true }
    | some row ↦
        if is_expired now row.expires_at
        then record { info = none; failed = false }
        else record { info = some row.info; failed = false }
  ]

  unfoldable pub middleware : Bool → ℕ → Request → Outcome
  unfolding resolve_token extract_bearer_token
  middleware multi_tenant now r =
      let token = extract_bearer_token r in
      let resolved = resolve_token now token in
      if multi_tenant
      then (if is_empty token
          then unauthorized
          else if resolved.failed
          then unauthorized
          else served resolved.info)
      else served none
