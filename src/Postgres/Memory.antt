-- ===== src/Postgres/Memory.antt =====
-- A database in memory that keeps what `Pool` says: every call succeeds, and two rows are in conflict
-- if they agree on the texts and on the times. It keeps the samples, and no table of nodes.
use mathlib.Core.Option.{some-injective}
use netdata_postgres_mcp.Base.{
  ℕ, ◌+◌, ◌-◌, ◌≤◌, ◌≡◌, refl, ap, sym, Bool, true, false, ◌&&◌, List, [], ◌∷◌, length,
  length-append, Option, none, some, ◌==◌, arith, Bool-cases, inl, inr,
}
use netdata_postgres_mcp.Base.Text.{eq_str}
use netdata_postgres_mcp.Postgres.Statements.{Arg, text, time, double, json, Statement, bound}
use netdata_postgres_mcp.Postgres.Tables.{conflicts, add_row, insert_all}
use netdata_postgres_mcp.Postgres.Interface.{Pool}

same_key : Arg → Arg → Bool
same_key (text s) (text t) = eq_str s t
same_key (time a) (time b) = a == b
same_key (double a) (double b) = true
same_key (json a) (json b) = true
same_key _ _ = false

unfoldable pub same_keys : List Arg → List Arg → Bool
unfolding same_key
same_keys [] [] = true
same_keys (a ∷ xs) (b ∷ ys) = same_key a b && same_keys xs ys
same_keys _ _ = false

length-add_row : (t : List (List Arg)) (r : List Arg) → length t ≤ length (add_row same_keys t r)
unfolding add_row
length-add_row t r = elim (Bool-cases (conflicts same_keys t r)) [
  | inl e ↦ rw e (omega arith)
  | inr e ↦ rw e (omega (arith, length-append t (r ∷ [])))
]

length-insert_all : (t rs : List (List Arg)) → length t ≤ length (insert_all same_keys t rs)
unfolding insert_all
length-insert_all t [] = omega arith
length-insert_all t (r ∷ rs) =
    omega (arith, length-add_row t r, length-insert_all (add_row same_keys t r) rs)

unfoldable pub inserted : List (List Arg) → Option (List (List Arg)) → Option (List (List Arg) × ℕ)
inserted t none = none
inserted t (some rows) =
    some (insert_all same_keys t rows, length (insert_all same_keys t rows) - length t)

pub inserted-pending :
    (t t' : List (List Arg)) (st : Statement) (rows : List (List Arg)) (n : ℕ)
    → bound st ≡ some rows
    → inserted t (bound st) ≡ some (t', n)
    → (t' ≡ insert_all same_keys t rows) × (length t + n ≡ length t')
unfolding inserted
inserted-pending t t' st rows n b e =
    let e' : inserted t (some rows) ≡ some (t', n) = rw b at e in
    let p = some-injective _ _ e' in
    let first : insert_all same_keys t rows ≡ t' = ap (λ (x : List (List Arg) × ℕ). x.0) p in
    let second : length (insert_all same_keys t rows) - length t ≡ n =
      ap (λ (x : List (List Arg) × ℕ). x.1) p in
    (sym first, omega (arith, second, ap length first, length-insert_all t rows))

abbrev pub memory : Pool
memory = record {
  Db = List (List Arg);
  Tx = List (List Arg);
  begin = some;
  exec = λ t st. inserted t (bound st);
  commit = some;
  stored = λ d. d;
  pending = λ t. t;
  conflict = same_keys;
  begin_stored = λ d t e. sym (some-injective _ _ e);
  exec_pending = inserted-pending;
  upsert_node = λ args d. d;
  upsert_node_stored = λ args d. refl;
  commit_pending = λ t d e. sym (some-injective _ _ e);
}
