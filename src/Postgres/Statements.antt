-- ===== src/Postgres/Statements.antt =====
-- A multi-row INSERT: for each row the numbers of its placeholders `$n`, and the arguments that the
-- numbers refer to, from 1.
use mathlib.Core.List.{append_assoc}
use mathlib.Core.Path.{ap₂}
use netdata_postgres_mcp.Base.{
  ℕ, zero, suc, ◌+◌, ◌-◌, ◌*◌, ◌≡◌, refl, List, [], ◌∷◌, ◌++◌, Option, none, some, length,
  length-append, get_elem?, arith, map, if◌then◌else◌, ◌==◌, false,
}
use netdata_postgres_mcp.Base.Text.{Bytes}

-- An instant is its Unix time in nanoseconds, a double its bit pattern.
pub data Arg : Type 0 where
  text : Bytes → Arg
  time : ℕ → Arg
  double : ℕ → Arg
  json : List (Bytes × Bytes) → Arg

pub record Statement : Type 0 where
  pub columns : List Bytes
  pub values : List (List ℕ)
  pub args : List Arg

argument : List Arg → ℕ → Option Arg
argument args n = if n == 0 then none else get_elem? args (n - 1)

abbrev pub cons? {ℓ} : {A : Type ℓ} → Option A → Option (List A) → Option (List A)
cons? (some a) (some rest) = some (a ∷ rest)
cons? (some a) none = none
cons? none r = none

bound_row : List Arg → List ℕ → Option (List Arg)
bound_row args [] = some []
bound_row args (p ∷ ps) = cons? (argument args p) (bound_row args ps)

bound_rows : List Arg → List (List ℕ) → Option (List (List Arg))
bound_rows args [] = some []
bound_rows args (r ∷ rs) = cons? (bound_row args r) (bound_rows args rs)

-- The rows that a statement stands for; `none` if a placeholder has no argument.
unfoldable pub bound : Statement → Option (List (List Arg))
unfolding bound_row bound_rows argument
bound st = bound_rows st.args st.values

-- The numbers from `k` on, `n` of them.
unfoldable pub counted : ℕ → ℕ → List ℕ
counted zero k = []
counted (suc n) k = k ∷ counted n (k + 1)

get_elem?-append :
    {A : Type 0} (pre post : List A) (a : A) → get_elem? (pre ++ (a ∷ post)) (length pre) ≡ some a
get_elem?-append [] post a = refl
get_elem?-append (x ∷ pre) post a = get_elem?-append pre post a

argument-append :
    (pre post : List Arg) (a : Arg) → argument (pre ++ (a ∷ post)) (length pre + 1) ≡ some a
unfolding argument
argument-append pre post a =
    let e : length pre + 1 - 1 ≡ length pre = omega arith in
    let positive : ((length pre + 1) == 0) ≡ false = ground arith in
    rw (positive, e) (get_elem?-append pre post a)

bound_row-counted :
    (cols pre post : List Arg) (k : ℕ)
    → k ≡ length pre + 1
    → bound_row (pre ++ (cols ++ post)) (counted (length cols) k) ≡ some cols
unfolding bound_row counted
bound_row-counted [] pre post k e = refl
bound_row-counted (c ∷ cols) pre post k e =
    rw (e, argument-append pre (cols ++ post) c)
      (let tail : bound_row (pre ++ (c ∷ (cols ++ post)))
              (counted (length cols) (length pre + 1 + 1))
            ≡ some cols =
          rw (← append_assoc pre (c ∷ []) (cols ++ post)) (
            bound_row-counted cols (pre ++ (c ∷ [])) post (length pre + 1 + 1)
              (omega (arith, length-append pre (c ∷ [])))) in
        rw tail)

-- A statement built row by row, each row of `w` columns numbered on from the one before.
module _ {R : Type 0} (w : ℕ) (row : R → List Arg) where
  unfoldable pub numbered : ℕ → List R → List (List ℕ)
  unfolding counted
  numbered j [] = []
  numbered j (r ∷ rs) = counted w (j * w + 1) ∷ numbered (j + 1) rs

  unfoldable pub arguments : List R → List Arg
  arguments [] = []
  arguments (r ∷ rs) = row r ++ arguments rs

  bound_rows-numbered :
      ((r : R) → length (row r) ≡ w)
      → (pre : List Arg) (j : ℕ) (rs : List R) → length pre ≡ j * w
      → bound_rows (pre ++ arguments rs) (numbered j rs) ≡ some (map row rs)
  unfolding bound_rows numbered arguments
  bound_rows-numbered wide pre j [] e = refl
  bound_rows-numbered wide pre j (r ∷ rs) e =
      let ih =
        bound_rows-numbered wide (pre ++ row r) (j + 1) rs
          (omega (arith, length-append pre (row r), wide r)) in
      let tail : bound_rows (pre ++ (row r ++ arguments rs)) (numbered (j + 1) rs)
          ≡ some (map row rs) =
        rw (← append_assoc pre (row r) (arguments rs)) ih in
      ap₂ cons? head tail
    where
      head : bound_row (pre ++ (row r ++ arguments rs)) (counted w (j * w + 1)) ≡ some (row r)
      head =
          rw (← wide r) (bound_row-counted (row r) pre (arguments rs) _ (rw (wide r) (omega arith)))

  pub bound-numbered :
      ((r : R) → length (row r) ≡ w)
      → (columns : List Bytes) (rs : List R)
      → bound (record { columns = columns; values = numbered 0 rs; args = arguments rs })
        ≡ some (map row rs)
  unfolding bound
  bound-numbered wide columns rs = bound_rows-numbered wide [] 0 rs (omega arith)
