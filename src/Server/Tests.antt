-- ===== src/Server/Tests.antt =====
-- The middleware of cmd/netdata-postgres-mcp/main.go with the token `s3`.
use netdata_postgres_mcp.Base.{
  ◌+◌, ◌≡◌, refl, true, false, [], ◌∷◌, ◌&&◌, ◌==◌, none, some, if◌then◌else◌,
}
use netdata_postgres_mcp.Base.Text.{Bytes, str, eq_str, is_empty}
use netdata_postgres_mcp.Metrics.{global}
use netdata_postgres_mcp.Server.{Request, reached, unauthorized, credentials, mcp_handler}
use netdata_postgres_mcp.Server.Routes.{
  mcp, redirected, Target, is_redirected, serve_mux, is_open_path, serve_mux_auth,
}
use netdata_postgres_mcp.Server.Access.{body_limit}

abbrev by_query : Request
by_query = record { authorization = []; query_token = str "s3"; has_body = true; limit = none }

body_limit_example :
    (mcp_handler [] none by_query global
      ≡ (reached (record by_query { limit = some 1048576 }), global))
    × ((mcp_handler [] (some true) by_query global
          ≡ (reached (record by_query { limit = some 1048576 }), global))
        × ((mcp_handler (str "s3") none by_query global ≡ (reached by_query, global))
            × (mcp_handler (str "s3") (some true) by_query global ≡ (reached by_query, global))))
unfolding is_empty str credentials
body_limit_example = body_limit (str "s3") by_query global refl refl refl refl

abbrev stranger : Request
stranger = record by_query { query_token = str "guess" }

-- Repeated slashes made one.
abbrev squeeze : Bytes → Bytes
squeeze [] = []
squeeze (c ∷ []) = c ∷ []
squeeze (c ∷ d ∷ s) =
    let rest = squeeze (d ∷ s) in if (c == b'/') && (d == b'/') then rest else c ∷ rest

abbrev sse : Target
sse = record { path = str "/sse"; connect = false }

serve_mux_auth_example : serve_mux squeeze (str "s3") none true sse stranger global ≡ (
    if is_redirected squeeze sse
    then (redirected (squeeze sse.path), global)
    else if is_open_path sse.path
    then serve_mux squeeze [] none true sse stranger global
    else (mcp unauthorized, record global { auth_failures = global.auth_failures + 1 }))
unfolding is_empty str eq_str credentials
serve_mux_auth_example = serve_mux_auth squeeze (str "s3") true sse stranger global refl refl

-- A repeated slash is redirected before the authentication.
serve_mux_unclean :
    serve_mux squeeze (str "s3") none true (record sse { path = str "//sse" }) stranger global
    ≡ (redirected (str "/sse"), global)
unfolding serve_mux eq_str str
serve_mux_unclean = refl
