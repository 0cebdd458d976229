-- ===== src/Mcp/Tests/Numbers.antt =====
-- The reports of internal/mcp on small data, with whole numbers for the floats and insertion sort for
-- sort.Slice.
use mathlib.Core.List.Perm
use netdata_postgres_mcp.Base.{
  ◌+◌, ℕ, ◌≡◌, ◌⊎◌, inl, inr, refl, Bool, true, false, List, [], ◌∷◌, ◌++◌, Option, none, some,
  length, All, ltb, ◌==◌, arith, pos,
}
use netdata_postgres_mcp.Base.Text.{Bytes, str, eq_str, is_empty}
use netdata_postgres_mcp.Base.Assoc.{lookup, update}
use netdata_postgres_mcp.Base.Floats.{IsOrdered, raise}
use netdata_postgres_mcp.Mcp.Sorting.Insertion.{insertion_sort, insertion_sort-Sorts}
use netdata_postgres_mcp.Mcp.Bottlenecks.{Candidate, detect_bottlenecks}
use netdata_postgres_mcp.Mcp.Readings.{DimAgg}
use netdata_postgres_mcp.Mcp.Bottlenecks.Reasons.{Reason, detect_bottlenecks-Reason}
use netdata_postgres_mcp.Mcp.Summary.{
  SampleRow, DimStats, sample_key, add_rows, add_row, add_to_dims, add_to, add_value, new_stats,
  lower,
}
use netdata_postgres_mcp.Mcp.Summary.Totals.{find_stats, values_of, gathered, add_rows-gathered}
use netdata_postgres_mcp.Mcp.Summary.Extremes.{Within, add_rows_extremes, add_rows_negative}
use netdata_postgres_mcp.Mcp.Summary.Sections.{cpu_totals, ram_used, average, greatest_util}
use netdata_postgres_mcp.Mcp.Summary.Order.{greatest_util-Perm}
use netdata_postgres_mcp.Mcp.Summary.Keys.{sample_key_instance}
use netdata_postgres_mcp.Mcp.Anomalies.{AnomalyRow, Anomaly, AnomalyResult, report}
use netdata_postgres_mcp.Mcp.Anomalies.Reported.{Reports, report-Reports}
use netdata_postgres_mcp.Base.Floats.Whole.{whole_numbers}

whole_irrefl : (x : ℕ) → ltb x x ≡ false
whole_irrefl x = ground arith

whole_trans : (x y z : ℕ) → ltb x y ≡ true → ltb y z ≡ true → ltb x z ≡ true
whole_trans x y z h k = ground arith

same_number : (x : ℕ) → (x == x) ≡ true
same_number x = ground arith

whole_cotrans :
    (x y z : ℕ) → ltb x z ≡ true → (b : Bool) → ltb x y ≡ b → (ltb x y ≡ true) ⊎ (ltb y z ≡ true)
whole_cotrans x y z h true e = inl e
whole_cotrans x y z h false e = inr (ground arith)

never_below : (x : ℕ) → ltb x 0 ≡ false
never_below x = ground arith

whole_numbers-IsOrdered : IsOrdered whole_numbers
whole_numbers-IsOrdered = record {
  less_irrefl = whole_irrefl;
  less_trans = whole_trans;
  less_cotrans = λ x y z n h. whole_cotrans x y z h (ltb x y) refl;
  less-number = λ x y h. (same_number x, same_number y);
  decimal-nonneg = λ n k. never_below (whole_numbers.decimal n k);
  decimal-number = λ n k. same_number (whole_numbers.decimal n k);
}

-- A disk that is busy for 90 percent of a time, and an idle processor.
abbrev disk_agg : DimAgg ℕ
disk_agg = record {
  context = str "disk.util_sda";
  dimension = str "utilization";
  instance_name = none;
  avg = 40;
  max = 90;
  count = 12;
}

abbrev idle_agg : DimAgg ℕ
idle_agg = record disk_agg { context = str "system.cpu"; dimension = str "idle"; max = 99 }

abbrev aggs : List (DimAgg ℕ)
aggs = (idle_agg ∷ []) ++ (disk_agg ∷ [])

abbrev sort_candidates :
    (Candidate ℕ → Candidate ℕ → Bool) → List (Candidate ℕ) → List (Candidate ℕ)
sort_candidates = insertion_sort

detect_bottlenecks-Reason_example :
    Reason whole_numbers
      (detect_bottlenecks whole_numbers sort_candidates (str "n1") aggs).bottleneck_type
      aggs
detect_bottlenecks-Reason_example =
    detect_bottlenecks-Reason whole_numbers whole_numbers-IsOrdered aggs sort_candidates
      insertion_sort-Sorts (str "n1")

-- Two samples of a dimension, a row that cannot be read, and a sample with an instance.
abbrev user_row : ℕ → SampleRow ℕ
user_row v = record {
  context = str "system.cpu";
  dimension = str "user";
  instance_name = none;
  value = v;
}

abbrev rows : List (Option (SampleRow ℕ))
rows =
    some (user_row 3)
    ∷ none
    ∷ some (record (user_row 7) { instance_name = some (str "cpu0") })
    ∷ some (user_row 5)
    ∷ []

add_rows-gathered_example :
    find_stats (add_rows whole_numbers [] rows) (str "system.cpu") (str "user")
    ≡ gathered whole_numbers
        (find_stats [] (str "system.cpu") (str "user"))
        (values_of (str "system.cpu") (str "user") rows)
add_rows-gathered_example = add_rows-gathered whole_numbers [] rows (str "system.cpu") (str "user")

abbrev user_stats : DimStats ℕ
user_stats = record { sum = 8; count = 2; max = 5; min = 3 }

add_rows_extremes_example :
    (2 ≡ length (values_of (str "system.cpu") (str "user") rows))
    × All (Within whole_numbers user_stats) (values_of (str "system.cpu") (str "user") rows)
unfolding add_rows add_row add_to_dims add_to add_value new_stats lower raise sample_key lookup
    update str eq_str is_empty
add_rows_extremes_example =
    add_rows_extremes whole_numbers whole_numbers-IsOrdered rows (str "system.cpu") (str "user")
      user_stats refl

abbrev zero_rows : List (Option (SampleRow ℕ))
zero_rows = some (user_row 0) ∷ []

abbrev zero_stats : DimStats ℕ
zero_stats = record { sum = 0; count = 1; max = 0; min = 0 }

add_rows_negative_example : zero_stats.max ≡ whole_numbers.decimal 0 0
unfolding add_rows add_row add_to_dims add_to add_value new_stats lower raise sample_key lookup
    update str eq_str is_empty values_of
add_rows_negative_example =
    add_rows_negative whole_numbers zero_rows (str "system.cpu") (str "user") zero_stats refl
      (refl, tt)

sample_key_instance_example :
    (cpu_totals whole_numbers
        (0, 0)
        ((sample_key (some (str "cpu0")) (str "idle"), user_stats) ∷ [])
      ≡ cpu_totals whole_numbers
          (0 + average whole_numbers user_stats, raise whole_numbers 0 user_stats.max)
          [])
    × ((cpu_totals whole_numbers (0, 0) ((sample_key none (str "idle"), user_stats) ∷ [])
          ≡ cpu_totals whole_numbers (0, 0) [])
        × ((ram_used whole_numbers
                (0, 0)
                ((sample_key (some (str "cpu0")) (str "used"), user_stats) ∷ [])
              ≡ ram_used whole_numbers (0, 0) [])
            × (ram_used whole_numbers (0, 0) ((sample_key none (str "used"), user_stats) ∷ [])
                ≡ ram_used whole_numbers (average whole_numbers user_stats, user_stats.max) [])))
unfolding is_empty str
sample_key_instance_example =
    sample_key_instance whole_numbers (0, 0) (str "cpu0") user_stats [] refl

-- A value of 9 where 4 is the mean and 1 the deviation.
abbrev outlier : AnomalyRow ℕ
outlier = record {
  context = str "system.load";
  dimension = str "load1";
  instance_name = [];
  mean = 4;
  stddev = 1;
  latest = 9;
}

abbrev sort_anomalies : (Anomaly ℕ → Anomaly ℕ → Bool) → List (Anomaly ℕ) → List (Anomaly ℕ)
sort_anomalies = insertion_sort

report-Reports_example :
    (r : AnomalyResult ℕ) × ((report whole_numbers sort_anomalies
          (str "n1")
          2
          (pos 1)
          (some outlier ∷ none ∷ [])
        ≡ some r)
      × Reports whole_numbers whole_numbers-IsOrdered sort_anomalies insertion_sort-Sorts 2 1
          (some outlier ∷ none ∷ [])
          r)
report-Reports_example =
    report-Reports whole_numbers whole_numbers-IsOrdered sort_anomalies insertion_sort-Sorts
      (str "n1") 2 1 (some outlier ∷ none ∷ []) (λ a m. same_number a.z_score)

abbrev sda : Bytes × DimStats ℕ
sda = (str "sda", user_stats)

abbrev sdb : Bytes × DimStats ℕ
sdb = (str "sdb", zero_stats)

greatest_util-Perm_example :
    (ltb
        (greatest_util whole_numbers 0 (sda ∷ sdb ∷ []))
        (greatest_util whole_numbers 0 (sdb ∷ sda ∷ []))
      ≡ false)
    × (ltb
          (greatest_util whole_numbers 0 (sdb ∷ sda ∷ []))
          (greatest_util whole_numbers 0 (sda ∷ sdb ∷ []))
        ≡ false)
greatest_util-Perm_example =
    greatest_util-Perm whole_numbers whole_numbers-IsOrdered 0 (sda ∷ sdb ∷ []) (sdb ∷ sda ∷ [])
      (Perm.swap sdb sda [])
