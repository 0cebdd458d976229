-- ===== src/Mcp/Anomalies/Reported.antt =====
-- The anomalies that the tool of internal/mcp/anomaly.go reports.
use mathlib.Core.List.{Mem}
use netdata_postgres_mcp.Base.{
  ℕ, pos, ◌≤◌, ◌≡◌, refl, ap, Bool, true, List, take, take-all, Option, some, length, ltb,
  Bool-cases, inl, inr, arith,
}
use netdata_postgres_mcp.Base.Text.{Bytes}
use netdata_postgres_mcp.Base.Floats.{Float, IsOrdered}
use netdata_postgres_mcp.Mcp.Sorting.{Sorts, IsFirst, take-IsFirst, greater-IsWeakOrder}
use netdata_postgres_mcp.Mcp.Anomalies.{
  AnomalyRow, Anomaly, AnomalyResult, truncate, check_rows, more_abnormal, reported, report,
}

truncate-take : {A : Type 0} (n : ℕ) (xs : List A) → truncate (pos n) xs ≡ some (take n xs)
unfolding truncate
truncate-take n xs = elim (Bool-cases (ltb n (length xs))) [
  | inl b ↦ rw b refl
  | inr b ↦ let le : length xs ≤ n = ground (arith, b) in rw (b, take-all n xs le) refl
]

module _ {F : Type 0} (float : Float F) (ordered : IsOrdered float)
    (sort : (Anomaly F → Anomaly F → Bool) → List (Anomaly F) → List (Anomaly F))
    (sorts : Sorts sort) where
  abbrev size : Anomaly F → F
  size a = float.abs a.z_score

  -- What the report says of the rows.
  pub record Reports (threshold : F) (n : ℕ) (rows : List (Option (AnomalyRow F)))
      (r : AnomalyResult F) : Type 0 where
    pub first : IsFirst (more_abnormal float sort) n (check_rows float threshold rows) r.anomalies
    pub total : r.total ≡ length rows

  -- With a limit that is not negative there is a report: if no deviation is NaN, it lists as many
  -- anomalies as the limit, or all of them if there are fewer, none that it leaves out deviates more
  -- than one that it lists, and it counts all the rows, also those that could not be read.
  pub report-Reports :
      (node_id : Bytes) (threshold : F) (n : ℕ) (rows : List (Option (AnomalyRow F)))
      → ((a : Anomaly F)
          → Mem a (check_rows float threshold rows)
          → float.equal (size a) (size a) ≡ true)
      → (r : AnomalyResult F) × ((report float sort node_id threshold (pos n) rows ≡ some r)
          × Reports threshold n rows r)
  unfolding report
  report-Reports node_id threshold n rows numbers = (
    record {
      node_id = node_id;
      anomalies = take n (sort (more_abnormal float sort) (check_rows float threshold rows));
      total = length rows;
    },
    (
      ap (λ o. reported node_id (length rows) o)
          (truncate-take n (sort (more_abnormal float sort) (check_rows float threshold rows))),
      record {
        first = take-IsFirst sort sorts _ n _ (greater-IsWeakOrder float ordered size _ numbers);
        total = refl;
      },
    ),
  )
