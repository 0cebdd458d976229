-- ===== src/Mcp/Queries/Answers/Limits.antt =====
-- How many rows the tools of internal/mcp answer with.
use netdata_postgres_mcp.Base.{ℕ, pos, negsuc, ◌≤◌, ◌≡◌, Option, none, some, length}
use netdata_postgres_mcp.Mcp.Select.{number, Select}
use netdata_postgres_mcp.Mcp.Select.Meaning.{limit_of}
use netdata_postgres_mcp.Mcp.Queries.Answers.{Rows}

-- PostgreSQL gives no more rows than LIMIT says, and refuses a negative one.
pub record RespectsLimit {R : Type 0} (run : Select → Option (Rows R)) : Type 0 where
  pub at_most :
      (s : Select) (rows : Rows R) (n : ℕ)
      → run s ≡ some rows
      → limit_of s ≡ some (number (pos n))
      → length rows.scans ≤ n
  pub refused : (s : Select) (n : ℕ) → limit_of s ≡ some (number (negsuc n)) → run s ≡ none
