-- ===== src/Store/Nodes.antt =====
-- UpsertNode of internal/store/store.go.
use netdata_postgres_mcp.Base.{[], ◌∷◌}
use netdata_postgres_mcp.Base.Text.{Bytes}
use netdata_postgres_mcp.Postgres.{Pool, text}

-- The row that the statement inserts, or updates if the node has one; its error is the caller's to know.
abbrev pub upsert_node : (pool : Pool) → pool.Db → Bytes → Bytes → Bytes → pool.Db
upsert_node pool db node_id hostname base_url =
    pool.upsert_node (text node_id ∷ text hostname ∷ text base_url ∷ []) db
