-- ===== src/Mcp/Select/Meaning.antt =====
-- What the statements of internal/mcp ask for: each placeholder stands for the argument of its number.
use mathlib.Core.List.{append-nil}
use mathlib.Core.Option.{some-injective}
use netdata_postgres_mcp.Base.{
  ℕ, ℤ, zero, suc, ◌+◌, ◌-◌, ◌≡◌, refl, ap, sym, false, List, [], ◌∷◌, ◌++◌, Option, none, some,
  length, length-append, get_elem?, ◌==◌, if◌then◌else◌, Bool-cases, Option-cases, inl, inr, arith,
}
use netdata_postgres_mcp.Base.Text.{Bytes, is_empty}
use netdata_postgres_mcp.Mcp.Select.{
  Value, text, number, Operator, equals, Condition, Builder, start, where_, where_text, Select,
  finish, finish_limit,
}

-- A column, an operator and the value that it is compared with.
abbrev pub Filter : Type 0
Filter = Bytes × Operator × Value

-- The argument of a placeholder, from 1.
unfoldable pub argument : List Value → ℕ → Option Value
argument args n = if n == 0 then none else get_elem? args (n - 1)

abbrev pub filter_of : Condition → Option Value → Option Filter
filter_of c none = none
filter_of c (some v) = some (c.column, c.operator, v)

abbrev pub add? : Option Filter → Option (List Filter) → Option (List Filter)
add? none r = none
add? (some f) none = none
add? (some f) (some fs) = some (f ∷ fs)

unfoldable pub filters : List Value → List Condition → Option (List Filter)
unfolding argument
filters args [] = some []
filters args (c ∷ cs) = add? (filter_of c (argument args c.placeholder)) (filters args cs)

-- What a statement selects by, and its limit; `none` if a placeholder has no argument.
unfoldable pub selected : Select → Option (List Filter)
unfolding filters
selected s = filters s.args s.conditions

abbrev pub limited_by : List Value → Option ℕ → Option Value
limited_by args none = none
limited_by args (some n) = argument args n

abbrev pub limit_of : Select → Option Value
limit_of s = limited_by s.args s.limit

-- The conditions of a builder mean these filters, and the next placeholder is the next argument's.
pub record Means (b : Builder) (fs : List Filter) : Type 0 where
  pub meant : filters b.args b.conditions ≡ some fs
  pub next : b.arg_idx ≡ length b.args + 1

get_elem?-left :
    {A : Type 0} (xs ys : List A) (i : ℕ) (a : A)
    → get_elem? xs i ≡ some a
    → get_elem? (xs ++ ys) i ≡ some a
get_elem?-left [] ys i a e = absurd cc
get_elem?-left (x ∷ xs) ys zero a e = e
get_elem?-left (x ∷ xs) ys (suc i) a e = get_elem?-left xs ys i a e

get_elem?_last :
    {A : Type 0} (xs : List A) (a : A) → get_elem? (xs ++ (a ∷ [])) (length xs) ≡ some a
get_elem?_last [] a = refl
get_elem?_last (x ∷ xs) a = get_elem?_last xs a

argument-left :
    (args more : List Value) (n : ℕ) (v : Value)
    → argument args n ≡ some v
    → argument (args ++ more) n ≡ some v
unfolding argument
argument-left args more n v e = elim (Bool-cases (n == 0)) [
  | inl z ↦ absurd (ground (arith, e, z))
  | inr p ↦
      let e' : get_elem? args (n - 1) ≡ some v = rw p at e in
      rw p (get_elem?-left args more (n - 1) v e')
]

argument_last :
    (args : List Value) (v : Value) → argument (args ++ (v ∷ [])) (length args + 1) ≡ some v
unfolding argument
argument_last args v =
    let e : length args + 1 - 1 ≡ length args = omega arith in
    let positive : ((length args + 1) == 0) ≡ false = ground arith in
    rw (positive, e) (get_elem?_last args v)

-- A condition that has its argument.
add?-some :
    (args : List Value) (c : Condition) (cs : List Condition) (fs : List Filter)
    → filters args (c ∷ cs) ≡ some fs
    → (v : Value) × ((rest : List Filter) × ((argument args c.placeholder ≡ some v)
          × (filters args cs ≡ some rest)
          × (fs ≡ (c.column, c.operator, v) ∷ rest)))
unfolding filters
add?-some args c cs fs e = elim (Option-cases (argument args c.placeholder)) [
  | inl a ↦ absurd (none-ne-some fs (rw a at e))
  | inr (v, a) ↦ elim (Option-cases (filters args cs)) [
    | inl r ↦ absurd (none-ne-some fs (rw (a, r) at e))
    | inr (rest, r) ↦
        let e' : some ((c.column, c.operator, v) ∷ rest) ≡ some fs = rw (a, r) at e in
        (v, (rest, (a, r, sym (some-injective _ _ e'))))
  ]
]
  where
    none-ne-some : (xs : List Filter) → Path (Option (List Filter)) none (some xs) → ⊥
    none-ne-some xs p = cc

filters-append :
    (args more : List Value) (cs : List Condition) (fs : List Filter) (c : Condition) (v : Value)
    → filters args cs ≡ some fs
    → argument (args ++ more) c.placeholder ≡ some v
    → filters (args ++ more) (cs ++ (c ∷ [])) ≡ some (fs ++ ((c.column, c.operator, v) ∷ []))
unfolding filters
filters-append args more [] fs c v e a = rw (a, ← some-injective _ _ e) refl
filters-append args more (c' ∷ cs) fs c v e a =
    let (v', (rest, (a', r, same))) = add?-some args c' cs fs e in
    rw (argument-left args more c'.placeholder v' a', filters-append args more cs rest c v r a)
      (ap (λ (xs : List Filter). some (xs ++ ((c.column, c.operator, v) ∷ []))) (sym same))

filters-left :
    (args more : List Value) (cs : List Condition) (fs : List Filter)
    → filters args cs ≡ some fs
    → filters (args ++ more) cs ≡ some fs
unfolding filters
filters-left args more [] fs e = e
filters-left args more (c ∷ cs) fs e =
    let (v, (rest, (a, r, same))) = add?-some args c cs fs e in
    rw (argument-left args more c.placeholder v a, filters-left args more cs rest r)
      (ap (λ (xs : List Filter). some xs) (sym same))

pub start-Means : Means start []
unfolding start filters
start-Means = record { meant = refl; next = omega arith }

pub where_-Means :
    (column : Bytes) (op : Operator) (v : Value) (b : Builder) (fs : List Filter)
    → Means b fs
    → Means (where_ column op v b) (fs ++ ((column, op, v) ∷ []))
unfolding where_
where_-Means column op v b fs m = record {
  meant =
      filters-append b.args (v ∷ []) b.conditions fs
        (record { column = column; operator = op; placeholder = b.arg_idx }) v m.meant
        (rw m.next (argument_last b.args v));
  next = omega (arith, m.next, length-append b.args (v ∷ []));
}

-- The filter of a text that is given.
abbrev pub if_given : Bytes → Bytes → List Filter
if_given column s = if is_empty s then [] else (column, equals, text s) ∷ []

pub where_text-Means :
    (column s : Bytes) (b : Builder) (fs : List Filter)
    → Means b fs
    → Means (where_text column s b) (fs ++ if_given column s)
unfolding where_text
where_text-Means column s b fs m = elim (Bool-cases (is_empty s)) [
  | inl e ↦ rw (e, append-nil fs) m
  | inr e ↦ rw e (where_-Means column equals (text s) b fs m)
]

-- What a statement asks for: its table, its filters and its limit.
pub record Asks (s : Select) (table : Bytes) (fs : List Filter) (limit : Option Value)
    : Type 0 where
  pub from : s.table ≡ table
  pub by : selected s ≡ some fs
  pub at_most : limit_of s ≡ limit

pub finish-Asks :
    (table order : Bytes) (b : Builder) (fs : List Filter)
    → Means b fs
    → Asks (finish table order b) table fs none
unfolding finish selected
finish-Asks table order b fs m = record { from = refl; by = m.meant; at_most = refl }

pub finish_limit-Asks :
    (table order : Bytes) (limit : ℤ) (b : Builder) (fs : List Filter)
    → Means b fs
    → Asks (finish_limit table order limit b) table fs (some (number limit))
unfolding finish_limit selected
finish_limit-Asks table order limit b fs m = record {
  from = refl;
  by = filters-left b.args (number limit ∷ []) b.conditions fs m.meant;
  at_most = rw m.next (argument_last b.args (number limit));
}
