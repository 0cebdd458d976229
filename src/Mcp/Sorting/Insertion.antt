-- ===== src/Mcp/Sorting/Insertion.antt =====
-- Insertion sort, an instance of what the documentation of Go's sort.Slice says.
use mathlib.Core.Logic.Or
use mathlib.Core.List.{
  Mem, Perm, Pairwise, mem-cons_self, mem-cons_of_mem, eq-or-mem_of_mem-cons, not-mem-nil,
}
use mathlib.Core.List.Perm
use netdata_postgres_mcp.Base.{
  ◌≡◌, Bool, true, false, List, [], ◌∷◌, Bool-cases, inl, inr, if◌then◌else◌, arith,
}
use netdata_postgres_mcp.Mcp.Sorting.{IsWeakOrder, Sorts}

module _ {A : Type 0} where
  unfoldable pub insert : (A → A → Bool) → A → List A → List A
  insert before x [] = x ∷ []
  insert before x (y ∷ ys) =
      let rest = insert before x ys in if before y x then y ∷ rest else x ∷ y ∷ ys

  unfoldable pub insertion_sort : (A → A → Bool) → List A → List A
  unfolding insert
  insertion_sort before [] = []
  insertion_sort before (x ∷ xs) = insert before x (insertion_sort before xs)

  insert-perm : (before : A → A → Bool) (x : A) (ys : List A) → Perm (insert before x ys) (x ∷ ys)
  unfolding insert
  insert-perm before x [] = Perm.refl (x ∷ [])
  insert-perm before x (y ∷ ys) = elim (Bool-cases (before y x)) [
    | inl b ↦ rw b (Perm.trans (Perm.cons y (insert-perm before x ys)) (Perm.swap x y ys))
    | inr b ↦ rw b (Perm.refl (x ∷ y ∷ ys))
  ]

  insertion_sort-perm : (before : A → A → Bool) (xs : List A) → Perm (insertion_sort before xs) xs
  unfolding insertion_sort
  insertion_sort-perm before [] = Perm.refl []
  insertion_sort-perm before (x ∷ xs) =
      Perm.trans (insert-perm before x (insertion_sort before xs))
        (Perm.cons x (insertion_sort-perm before xs))

  -- The later item of a pair is not before the earlier one.
  abbrev InOrder : (A → A → Bool) → A → A → Type 0
  InOrder before x y = before y x ≡ false

  module _ (before : A → A → Bool) (all : List A) (w : IsWeakOrder before all) where
    not_before : (x y : A) → Mem x all → Mem y all → before x y ≡ true → before y x ≡ false
    not_before x y mx my h = elim (Bool-cases (before y x)) [
      | inr b ↦ b
      | inl b ↦ absurd (ground (arith, w.irrefl x mx, w.trans x y x mx my mx h b))
    ]

    not_before_later :
        (x y z : A)
        → Mem x all
        → Mem y all
        → Mem z all
        → before y x ≡ false
        → before z y ≡ false
        → before z x ≡ false
    not_before_later x y z mx my mz h k = elim (Bool-cases (before z x)) [
      | inr b ↦ b
      | inl b ↦ elim (w.cotrans z y x mz my mx b) [
        | inl c ↦ absurd (ground (arith, c, k))
        | inr c ↦ absurd (ground (arith, c, h))
      ]
    ]

    InOrder-prop : (x y : A) → IsProp (InOrder before x y)
    InOrder-prop x y = hlevel

    insert-sorted :
        (x : A) (ys : List A)
        → Mem x all
        → ((y : A) → Mem y ys → Mem y all)
        → Pairwise (InOrder before) ys
        → Pairwise (InOrder before) (insert before x ys)
    unfolding insert
    insert-sorted x [] mx my p = Pairwise.cons (λ y m. absurd (not-mem-nil m)) Pairwise.nil
    insert-sorted x (y ∷ ys) mx my (Pairwise.cons h p) = elim (Bool-cases (before y x)) [
      | inr b ↦ rw b (
          Pairwise.cons
            (λ z m.
              Or.elim (InOrder-prop x z) (eq-or-mem_of_mem-cons m) (λ e. rw e b)
                (λ n.
                  not_before_later x y z mx (my y mem-cons_self) (my z (mem-cons_of_mem y n)) b
                    (h z n)))
            (Pairwise.cons h p))
      | inl b ↦ rw b (
          Pairwise.cons
            (λ z m.
              Or.elim (InOrder-prop y z)
                (eq-or-mem_of_mem-cons ((Perm.mem_iff (insert-perm before x ys)).0 m))
                (λ e. rw e (not_before y x (my y mem-cons_self) mx b)) (λ n. h z n))
            (insert-sorted x ys mx (λ z n. my z (mem-cons_of_mem y n)) p))
    ]

    sorted_part :
        (xs : List A)
        → ((x : A) → Mem x xs → Mem x all)
        → Pairwise (InOrder before) (insertion_sort before xs)
    unfolding insertion_sort
    sorted_part [] m = Pairwise.nil
    sorted_part (x ∷ xs) m =
        insert-sorted x (insertion_sort before xs) (m x mem-cons_self)
          (λ y n. m y (mem-cons_of_mem x ((Perm.mem_iff (insertion_sort-perm before xs)).0 n)))
          (sorted_part xs (λ y n. m y (mem-cons_of_mem x n)))

  pub insertion_sort-Sorts : Sorts insertion_sort
  insertion_sort-Sorts = record {
    perm = insertion_sort-perm;
    sorted = λ before xs w. sorted_part before xs w xs (λ x m. m);
  }
