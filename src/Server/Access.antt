-- ===== src/Server/Access.antt =====
-- Who reaches the MCP server of cmd/netdata-postgres-mcp/main.go, and with which limit on the body.
use netdata_postgres_mcp.Base.{
  ◌+◌, ◌≡◌, refl, inl, inr, true, false, [], ◌++◌, none, some, Bool-cases, if◌then◌else◌,
}
use netdata_postgres_mcp.Base.Text.{Bytes, str, eq_str, eq_str_refl, is_empty}
use netdata_postgres_mcp.Metrics.{Metrics}
use netdata_postgres_mcp.Server.{
  Request, reached, unauthorized, too_many_requests, credentials, auth_middleware,
  max_body_middleware, rate_limit, mcp_handler,
}

-- With an auth token and without rate limiting, a request whose credentials are the token's reaches
-- the server unchanged, so without the limit on its body, and counts nothing; any other is
-- answered with 401 and counts one failure.
pub mcp_handler_auth :
    (token : Bytes) (r : Request) (m : Metrics)
    → is_empty token ≡ false
    → mcp_handler token none r m ≡ (
        if eq_str (credentials r) (str "Bearer " ++ token)
        then (reached r, m)
        else (unauthorized, record m { auth_failures = m.auth_failures + 1 }))
unfolding mcp_handler auth_middleware
mcp_handler_auth token r m h = elim (Bool-cases (eq_str (credentials r) (str "Bearer " ++ token))) [
  | inl e ↦ rw (h, auth_middleware, e) refl
  | inr e ↦ rw (h, auth_middleware, e) refl
]

-- Without rate limiting and with a limiter that allows the request alike: a request with a body that
-- reaches the server has the limit of 1 MiB on it without an auth token; with one, the same
-- request, with the token's credentials, reaches the server without a limit.
pub body_limit :
    (token : Bytes) (r : Request) (m : Metrics)
    → is_empty token ≡ false
    → r.has_body ≡ true
    → r.limit ≡ none
    → credentials r ≡ str "Bearer " ++ token
    → (mcp_handler [] none r m ≡ (reached (record r { limit = some 1048576 }), m))
      × ((mcp_handler [] (some true) r m ≡ (reached (record r { limit = some 1048576 }), m))
          × ((mcp_handler token none r m ≡ (reached r, m))
              × (mcp_handler token (some true) r m ≡ (reached r, m))))
unfolding mcp_handler auth_middleware max_body_middleware rate_limit is_empty
body_limit token r m h b l c =
    let same : eq_str (credentials r) (str "Bearer " ++ token) ≡ true = rw c (eq_str_refl _) in
    (
      rw (max_body_middleware, b) refl,
      (
        rw (max_body_middleware, b) refl,
        (rw (h, auth_middleware, same) refl, rw (h, rate_limit, auth_middleware, same) refl),
      ),
    )

-- A request that the limiter refuses does not reach the server, and its credentials are not looked
-- at: it counts one rejection and no failure of authentication.
pub mcp_handler_limited :
    (token : Bytes) (r : Request) (m : Metrics)
    → mcp_handler token (some false) r m
      ≡ (too_many_requests, record m { rate_limit_rejects = m.rate_limit_rejects + 1 })
unfolding mcp_handler rate_limit
mcp_handler_limited token r m = refl
