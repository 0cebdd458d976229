-- ===== src/Tenant/Tests.antt =====
-- internal/tenant/tenant.go with two tokens, which stand for their own hashes.
use netdata_postgres_mcp.Base.{◌≡◌, refl, ◌↔◌, true, false, [], Option, none, some, if◌then◌else◌}
use netdata_postgres_mcp.Base.Text.{Bytes, str, eq_str, is_empty, has_prefix}
use netdata_postgres_mcp.Tenant.{
  Info, TokenRow, Request, extract_bearer_token, is_expired, served, middleware,
}
use netdata_postgres_mcp.Tenant.Tokens.{IsTenant, middleware-IsTenant, expired_token}

abbrev acme : Info
acme = record { tenant_id = str "1"; tenant_name = str "acme"; label = str "ci"; scopes = [] }

abbrev tokens : Bytes → Option TokenRow
tokens hash =
    if eq_str hash (str "fresh")
    then some (record { info = acme; expires_at = none })
    else if eq_str hash (str "old")
    then some (record { info = acme; expires_at = some 10 })
    else none

abbrev same : Bytes → Bytes
same raw = raw

abbrev fresh : Request
fresh = record { authorization = str "Bearer fresh"; query_token = [] }

abbrev old : Request
old = record { authorization = []; query_token = str "old" }

middleware-IsTenant_example :
    (middleware same tokens true 20 fresh ≡ served (some acme)) ↔ IsTenant same tokens 20 fresh acme
middleware-IsTenant_example = middleware-IsTenant same tokens 20 fresh acme

expired_token_example :
    (middleware same tokens true 20 old ≡ served none)
    × (middleware same tokens false 20 old ≡ served none)
unfolding extract_bearer_token is_empty eq_str str has_prefix is_expired
expired_token_example =
    expired_token same tokens 20 old (record { info = acme; expires_at = some 10 }) refl refl refl
