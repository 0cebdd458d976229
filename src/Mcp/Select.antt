-- ===== src/Mcp/Select.antt =====
-- The SELECT statements that the tools of internal/mcp build, condition by condition: `query`, `args`
-- and `argIdx`. A condition is kept as its column, its operator and the number of its placeholder,
-- in place of its text; what a user writes is in the arguments only.
pub mod Meaning
use netdata_postgres_mcp.Base.{ℕ, ℤ, ◌+◌, List, [], ◌∷◌, ◌++◌, Option, none, some, if◌then◌else◌}
use netdata_postgres_mcp.Base.Text.{Bytes, str, is_empty}

-- An instant is its nanoseconds since the year 1.
pub data Value : Type 0 where
  text : Bytes → Value
  texts : List Bytes → Value
  instant : ℕ → Value
  number : ℤ → Value
  labels : List (Bytes × Bytes) → Value

pub data Operator : Type 0 where
  equals any_of at_least at_most contains_labels : Operator

pub record Condition : Type 0 where
  pub column : Bytes
  pub operator : Operator
  pub placeholder : ℕ

-- The conditions so far, `args`, and `argIdx`, the number of the next placeholder.
pub record Builder : Type 0 where
  pub conditions : List Condition
  pub args : List Value
  pub arg_idx : ℕ

-- No arguments yet, and `argIdx := 1`.
unfoldable pub start : Builder
start = record { conditions = []; args = []; arg_idx = 1 }

-- query += fmt.Sprintf(" AND column operator $%d", argIdx); args = append(args, v); argIdx++
unfoldable pub where_ : Bytes → Operator → Value → Builder → Builder
where_ column operator v b = record {
  conditions =
      b.conditions
      ++ (record { column = column; operator = operator; placeholder = b.arg_idx } ∷ []);
  args = b.args ++ (v ∷ []);
  arg_idx = b.arg_idx + 1;
}

-- if s != "" { … }
unfoldable pub where_text : Bytes → Bytes → Builder → Builder
unfolding where_
where_text column s b = if is_empty s then b else where_ column equals (text s) b

-- The statement that is run: its table, its conditions, its grouping and order, and the number of
-- LIMIT's placeholder, if it has one.
pub record Select : Type 0 where
  pub table : Bytes
  pub conditions : List Condition
  pub order : Bytes
  pub limit : Option ℕ
  pub args : List Value

unfoldable pub finish : Bytes → Bytes → Builder → Select
finish table order b = record {
  table = table;
  conditions = b.conditions;
  order = order;
  limit = none;
  args = b.args;
}

-- query += fmt.Sprintf(" ORDER BY … LIMIT $%d", argIdx); args = append(args, limit)
unfoldable pub finish_limit : Bytes → Bytes → ℤ → Builder → Select
finish_limit table order limit b = record {
  table = table;
  conditions = b.conditions;
  order = order;
  limit = some b.arg_idx;
  args = b.args ++ (number limit ∷ []);
}
