-- ===== src/Server.antt =====
-- cmd/netdata-postgres-mcp/main.go: the middleware around the MCP server, as `runServe` composes it. The
-- SSE server is a library; what it is given here is the limit on the body that it may read.
pub mod Access
pub mod Routes
mod Tests
use netdata_postgres_mcp.Base.{
  ℕ, ◌+◌, Bool, true, false, not, List, ◌++◌, Option, none, some, if◌then◌else◌,
}
use netdata_postgres_mcp.Base.Text.{Bytes, str, eq_str, is_empty}
use netdata_postgres_mcp.Metrics.{Metrics}

-- A header or a query parameter that is missing is empty. `limit` is that of http.MaxBytesReader
-- around the body, if there is one.
pub record Request : Type 0 where
  pub authorization : Bytes
  pub query_token : Bytes
  pub has_body : Bool
  pub limit : Option ℕ

-- Where a request ends: with the SSE server, or with an answer of status 401 or 429.
pub data Outcome : Type 0 where
  reached : Request → Outcome
  unauthorized too_many_requests : Outcome

-- http.Handler, with the process's counters.
abbrev pub Handler : Type 0
Handler = Request → Metrics → Outcome × Metrics

abbrev pub sse_server : Handler
sse_server r m = (reached r, m)

unfoldable pub credentials : Request → Bytes
credentials r =
    if is_empty r.authorization
    then (if is_empty r.query_token then r.authorization else str "Bearer " ++ r.query_token)
    else r.authorization

unfoldable pub auth_middleware : Bytes → Handler → Handler
unfolding credentials
auth_middleware token next r m =
    if not (eq_str (credentials r) (str "Bearer " ++ token))
    then (unauthorized, record m { auth_failures = m.auth_failures + 1 })
    else next r m

unfoldable pub max_body_middleware : ℕ → Handler → Handler
max_body_middleware max_bytes next r m =
    next (if r.has_body then record r { limit = some max_bytes } else r) m

-- `allowed` is the limiter's answer for the request's address, internal/middleware/ratelimit.go.
unfoldable pub rate_limit : Bool → Handler → Handler
rate_limit allowed next r m =
    if not allowed
    then (too_many_requests, record m { rate_limit_rejects = m.rate_limit_rejects + 1 })
    else next r m

-- MCPAuthToken, and the limiter's answer if RateLimitRPS > 0.
unfoldable pub mcp_handler : Bytes → Option Bool → Handler
unfolding auth_middleware max_body_middleware rate_limit
mcp_handler token limiter r m =
    let guarded = max_body_middleware 1048576 sse_server in
    let inner : Handler = if is_empty token then guarded else auth_middleware token sse_server in
    elim limiter [ none ↦ inner r m | some allowed ↦ rate_limit allowed inner r m ]
