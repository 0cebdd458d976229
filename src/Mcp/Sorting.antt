-- ===== src/Mcp/Sorting.antt =====
-- What the documentation of Go's sort.Slice says, and the first items of a sorted list.
pub mod Insertion
use mathlib.Core.List.{Mem, Perm, Pairwise, Pairwise-append}
use netdata_postgres_mcp.Base.{
  ℕ, zero, suc, ◌+◌, ◌≤◌, ◌≡◌, refl, ◌⊎◌, inl, inr, Bool, true, false, List, [], ◌∷◌, ◌++◌, take,
  drop, length, length-take, take-append-drop, arith,
}
use netdata_postgres_mcp.Base.Floats.{Float, IsOrdered}

-- The test is a strict weak order of the items of a list.
pub record IsWeakOrder {A : Type 0} (before : A → A → Bool) (xs : List A) : Type 0 where
  pub irrefl : (x : A) → Mem x xs → before x x ≡ false
  pub trans :
      (x y z : A)
      → Mem x xs
      → Mem y xs
      → Mem z xs
      → before x y ≡ true
      → before y z ≡ true
      → before x z ≡ true
  pub cotrans :
      (x y z : A)
      → Mem x xs
      → Mem y xs
      → Mem z xs
      → before x z ≡ true
      → (before x y ≡ true) ⊎ (before y z ≡ true)

-- The items are kept, and if the test is such an order, no item is before an earlier one.
pub record Sorts {A : Type 0} (sort : (A → A → Bool) → List A → List A) : Type 0 where
  pub perm : (before : A → A → Bool) (xs : List A) → Perm (sort before xs) xs
  pub sorted :
      (before : A → A → Bool) (xs : List A)
      → IsWeakOrder before xs
      → Pairwise (λ (x y : A). before y x ≡ false) (sort before xs)

-- At most so many items of a list are kept, none of the others is before one of them, and an item is
-- left out only if so many are kept.
pub record IsFirst {A : Type 0} (before : A → A → Bool) (n : ℕ) (xs kept : List A) : Type 0 where
  pub dropped : List A
  pub all : Perm (kept ++ dropped) xs
  pub few : length kept ≤ n
  pub first : (a : A) → Mem a kept → (b : A) → Mem b dropped → before b a ≡ false
  pub full : (length kept ≡ n) ⊎ (dropped ≡ [])

take_full : {A : Type 0} (n : ℕ) (xs : List A) → (length (take n xs) ≡ n) ⊎ (drop n xs ≡ [])
take_full zero xs = inl refl
take_full (suc n) [] = inr refl
take_full (suc n) (x ∷ xs) = ground (arith, take_full n xs)

module _ {A : Type 0} (sort : (A → A → Bool) → List A → List A) (sorts : Sorts sort) where
  pub take-IsFirst :
      (before : A → A → Bool) (n : ℕ) (xs : List A)
      → IsWeakOrder before xs
      → IsFirst before n xs (take n (sort before xs))
  take-IsFirst before n xs w =
      let ys = sort before xs in
      record {
        dropped = drop n ys;
        all = rw (take-append-drop n ys) (sorts.perm before xs);
        few = omega (arith, length-take n ys);
        first =
            ((Pairwise-append (λ a b. hlevel) {l₁ = take n ys} {l₂ = drop n ys}).0
              (rw (take-append-drop n ys) (sorts.sorted before xs w))).2;
        full = take_full n ys;
      }

module _ {F A : Type 0} (float : Float F) (ordered : IsOrdered float) (key : A → F) where
  -- The order from the greatest number to the least.
  abbrev pub greater : A → A → Bool
  greater x y = float.less (key y) (key x)

  pub greater-IsWeakOrder :
      (xs : List A)
      → ((x : A) → Mem x xs → float.equal (key x) (key x) ≡ true)
      → IsWeakOrder greater xs
  greater-IsWeakOrder xs numbers = record {
    irrefl = λ x m. ordered.less_irrefl (key x);
    trans = λ x y z mx my mz h k. ordered.less_trans (key z) (key y) (key x) k h;
    cotrans = λ x y z mx my mz h.
        elim (ordered.less_cotrans (key z) (key y) (key x) (numbers y my) h) [
          | inl p ↦ inr p
          | inr p ↦ inl p
        ];
  }
