-- ===== src/Server/Routes.antt =====
-- cmd/netdata-postgres-mcp/main.go: the mux of `runService` with its endpoints, and the handlers of health.
-- As http.ServeMux documents, a pattern without a slash at its end is that path only, and "/" every other
-- path; a path that it would clean (one with `.` or `..` segments or repeated slashes) is redirected
-- to the clean one before any handler, but for a CONNECT request. `clean_path` is net/http's
-- function for that, an argument.
use netdata_postgres_mcp.Base.{
  ℕ, ◌+◌, ◌≡◌, inl, inr, refl, Bool, true, false, not, ◌&&◌, ◌||◌, [], ◌++◌, Option, none,
  Bool-cases, if◌then◌else◌, arith,
}
use netdata_postgres_mcp.Base.Text.{Bytes, str, eq_str, is_empty}
use netdata_postgres_mcp.Metrics.{Metrics}
use netdata_postgres_mcp.Server.{Request, Outcome, unauthorized, credentials, mcp_handler}
use netdata_postgres_mcp.Server.Access.{mcp_handler_auth}

-- What answers: the handlers of health with a status, the page of the metrics, the remote-write
-- receiver, the mux itself with a redirect to a clean
-- path, or what is behind "/".
pub data Answer : Type 0 where
  healthz : ℕ → Answer
  readyz : ℕ → Answer
  metrics_page : Answer
  remote_write : Answer
  redirected : Bytes → Answer
  mcp : Outcome → Answer

-- The path of a request, and whether its method is CONNECT.
pub record Target : Type 0 where
  pub path : Bytes
  pub connect : Bool

-- `reachable` is the answer of Ping.
unfoldable pub readyz_handler : Bool → Answer
readyz_handler reachable = if reachable then readyz 200 else readyz 503

-- The handler of a path that is clean.
unfoldable pub route : Bytes → Option Bool → Bool → Bytes → Request → Metrics → Answer × Metrics
unfolding readyz_handler mcp_handler
route token limiter reachable path r m =
    let behind = mcp_handler token limiter r m in
    if eq_str path (str "/healthz")
    then (healthz 200, m)
    else if eq_str path (str "/readyz")
    then (readyz_handler reachable, m)
    else if eq_str path (str "/metrics")
    then (metrics_page, m)
    else if eq_str path (str "/api/v1/write")
    then (remote_write, m)
    else (mcp behind.0, behind.1)

-- The paths that are not behind the authentication.
abbrev pub is_open_path : Bytes → Bool
is_open_path path =
    eq_str path (str "/healthz")
    || eq_str path (str "/readyz")
    || eq_str path (str "/metrics")
    || eq_str path (str "/api/v1/write")

route_closed :
    (token : Bytes) (limiter : Option Bool) (reachable : Bool) (path : Bytes) (r : Request)
    (m : Metrics)
    → is_open_path path ≡ false
    → route token limiter reachable path r m
      ≡ (mcp (mcp_handler token limiter r m).0, (mcp_handler token limiter r m).1)
unfolding route
route_closed token limiter reachable path r m h = ground (arith, h)

route_open :
    (token : Bytes) (reachable : Bool) (path : Bytes) (r : Request) (m : Metrics)
    → is_open_path path ≡ true
    → route token none reachable path r m ≡ route [] none reachable path r m
unfolding route
route_open token reachable path r m h = ground (arith, h)

module _ (clean_path : Bytes → Bytes) where
  -- The mux redirects the request.
  abbrev pub is_redirected : Target → Bool
  is_redirected t = not t.connect && not (eq_str (clean_path t.path) t.path)

  unfoldable pub serve_mux :
      Bytes → Option Bool → Bool → Target → Request → Metrics → Answer × Metrics
  unfolding route
  serve_mux token limiter reachable t r m =
      if is_redirected t
      then (redirected (clean_path t.path), m)
      else route token limiter reachable t.path r m

  -- With an auth token and without rate limiting, a request whose credentials are not the token's is
  -- redirected by the mux, if its path is not clean and its method is not CONNECT, which counts nothing.
  -- Otherwise it is answered with 401 on every path but four, and counts one failure; on those
  -- four, remote write among them, it is answered as without a token, and counts none.
  pub serve_mux_auth :
      (token : Bytes) (reachable : Bool) (t : Target) (r : Request) (m : Metrics)
      → is_empty token ≡ false
      → eq_str (credentials r) (str "Bearer " ++ token) ≡ false
      → serve_mux token none reachable t r m ≡ (
          if is_redirected t
          then (redirected (clean_path t.path), m)
          else if is_open_path t.path
          then serve_mux [] none reachable t r m
          else (mcp unauthorized, record m { auth_failures = m.auth_failures + 1 }))
  unfolding serve_mux
  serve_mux_auth token reachable t r m n c = elim (Bool-cases (is_redirected t)) [
    | inl d ↦ rw d refl
    | inr d ↦ elim (Bool-cases (is_open_path t.path)) [
      | inl o ↦ rw (d, o) (route_open token reachable t.path r m o)
      | inr o ↦
          rw (d, o, route_closed token none reachable t.path r m o, mcp_handler_auth token r m n, c)
            refl
    ]
  ]
