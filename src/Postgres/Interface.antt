-- ===== src/Postgres/Interface.antt =====
-- pgx and PostgreSQL, which are not part of the repository: a pool whose transactions work on a copy
-- of what is stored, published by COMMIT. `none` is an error. Other writers are not modelled.
use netdata_postgres_mcp.Base.{ℕ, ◌+◌, ◌≡◌, Bool, List, Option, some, length}
use netdata_postgres_mcp.Postgres.Statements.{Arg, Statement, bound}
use netdata_postgres_mcp.Postgres.Tables.{insert_all}

pub record Pool : Type 1 where
  pub Db : Type 0
  pub Tx : Type 0
  pub begin : Db → Option Tx
  -- The new transaction and the number of rows affected.
  pub exec : Tx → Statement → Option (Tx × ℕ)
  pub commit : Tx → Option Db
  pub stored : Db → List (List Arg)
  pub pending : Tx → List (List Arg)
  pub conflict : List Arg → List Arg → Bool
  pub begin_stored : (d : Db) (t : Tx) → begin d ≡ some t → pending t ≡ stored d
  pub exec_pending :
      (t t' : Tx) (st : Statement) (rows : List (List Arg)) (n : ℕ)
      → bound st ≡ some rows
      → exec t st ≡ some (t', n)
      → (pending t' ≡ insert_all conflict (pending t) rows)
        × (length (pending t) + n ≡ length (pending t'))
  -- The write of one node's row to netdata_nodes, outside a transaction, with its arguments; the samples
  -- are in another table.
  pub upsert_node : List Arg → Db → Db
  pub upsert_node_stored : (args : List Arg) (d : Db) → stored (upsert_node args d) ≡ stored d
  pub commit_pending : (t : Tx) (d : Db) → commit t ≡ some d → stored d ≡ pending t
