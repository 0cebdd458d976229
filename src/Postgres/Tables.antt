-- ===== src/Postgres/Tables.antt =====
-- The rows of a table with a unique index, under `INSERT … ON CONFLICT DO NOTHING`.
use netdata_postgres_mcp.Base.{Bool, false, ◌||◌, ◌≡◌, refl, List, [], ◌∷◌, ◌++◌, if◌then◌else◌}

-- `conflict old new`: the two agree on the columns of the index.
module _ {R : Type 0} (conflict : R → R → Bool) where
  unfoldable pub conflicts : List R → R → Bool
  conflicts [] r = false
  conflicts (x ∷ table) r = conflict x r || conflicts table r

  unfoldable pub add_row : List R → R → List R
  add_row table r = if conflicts table r then table else table ++ (r ∷ [])

  unfoldable pub insert_all : List R → List R → List R
  unfolding conflicts add_row
  insert_all table [] = table
  insert_all table (r ∷ rs) = insert_all (add_row table r) rs

  pub insert_all-append :
      (table rs ss : List R) → insert_all table (rs ++ ss) ≡ insert_all (insert_all table rs) ss
  unfolding insert_all
  insert_all-append table [] ss = refl
  insert_all-append table (r ∷ rs) ss = insert_all-append (add_row table r) rs ss

  pub insert_all-nil : (table : List R) → table ≡ insert_all table []
  unfolding insert_all
  insert_all-nil table = refl
