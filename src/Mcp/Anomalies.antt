-- ===== src/Mcp/Anomalies.antt =====
-- internal/mcp/anomaly.go: the tool for anomalies. The arithmetic of float64, sort.Slice and PostgreSQL
-- are parameters.
pub mod Reported
use netdata_postgres_mcp.Base.{
  ℕ, ℤ, pos, negsuc, ◌+◌, Bool, ◌||◌, List, [], ◌∷◌, ◌++◌, take, Option, none, some, Result, ok,
  err, ◌>>=◌, length, ltb, if◌then◌else◌,
}
use netdata_postgres_mcp.Base.Text.{Bytes, str}
use netdata_postgres_mcp.Base.Floats.{Float, round2}
use netdata_postgres_mcp.Mcp.Select.{
  text, instant, equals, at_least, start, where_, where_text, Select, finish,
}
use netdata_postgres_mcp.Mcp.Queries.{
  ToolError, invalid_after, query_failed, required_time, or_default,
}
use netdata_postgres_mcp.Mcp.Queries.Answers.{Rows}

pub record AnomalyRow (F : Type 0) : Type 0 where
  pub context : Bytes
  pub dimension : Bytes
  pub instance_name : Bytes
  pub mean : F
  pub stddev : F
  pub latest : F

pub data Direction : Type 0 where
  high low : Direction

pub record Anomaly (F : Type 0) : Type 0 where
  pub context : Bytes
  pub dimension : Bytes
  pub instance_name : Bytes
  pub latest_val : F
  pub mean : F
  pub std_dev : F
  pub z_score : F
  pub direction : Direction

pub record AnomalyResult (F : Type 0) : Type 0 where
  pub node_id : Bytes
  pub anomalies : List (Anomaly F)
  pub total : ℕ

-- if len(anomalies) > limit { anomalies = anomalies[:limit] }; `none` is the panic of the slice.
unfoldable pub truncate : {A : Type 0} → ℤ → List A → Option (List A)
truncate (pos n) xs = some (if ltb n (length xs) then take n xs else xs)
truncate (negsuc n) xs = none

-- The statement, which groups by context, dimension and instance.
unfoldable pub anomalies_select : Bytes → Bytes → ℕ → Select
unfolding where_ where_text finish
anomalies_select node_id context after = finish (str "hardware_metric_samples") [] (
    where_text (str "context") context (
      where_ (str "collected_at") at_least (instant after)
        (where_ (str "node_id") equals (text node_id) start)))

abbrev pub reported :
    {F : Type 0} → Bytes → ℕ → Option (List (Anomaly F)) → Option (AnomalyResult F)
reported node_id total none = none
reported node_id total (some anomalies) =
    some (record { node_id = node_id; anomalies = anomalies; total = total })

module _ {F : Type 0} (float : Float F) where
  unfoldable pub z_score : AnomalyRow F → F
  z_score row = float.div (float.sub row.latest row.mean) row.stddev

  -- absZ >= threshold
  unfoldable pub is_anomaly : F → AnomalyRow F → Bool
  unfolding z_score
  is_anomaly threshold row =
      let z = float.abs (z_score row) in float.less threshold z || float.equal threshold z

  unfoldable pub anomaly_of : AnomalyRow F → Anomaly F
  unfolding z_score round2
  anomaly_of row = record {
    context = row.context;
    dimension = row.dimension;
    instance_name = row.instance_name;
    latest_val = round2 float row.latest;
    mean = round2 float row.mean;
    std_dev = round2 float row.stddev;
    z_score = round2 float (z_score row);
    direction = if float.less (float.decimal 0 0) (z_score row) then high else low;
  }

  -- The loop over the rows: the anomalies, and how many rows there were.
  unfoldable pub check_rows : F → List (Option (AnomalyRow F)) → List (Anomaly F)
  unfolding is_anomaly anomaly_of
  check_rows threshold [] = []
  check_rows threshold (none ∷ rows) = check_rows threshold rows
  check_rows threshold (some row ∷ rows) =
      let rest = check_rows threshold rows in
      if is_anomaly threshold row then anomaly_of row ∷ rest else rest

  -- The arguments `threshold` and `limit`, if they are positive.
  unfoldable pub threshold_or : F → F
  threshold_or f = if float.less (float.decimal 0 0) f then f else float.decimal 25 1

  unfoldable pub anomaly_limit : (F → ℤ) → F → ℤ
  anomaly_limit to_int f = if float.less (float.decimal 0 0) f then to_int f else pos 20

  module _ (sort : (Anomaly F → Anomaly F → Bool) → List (Anomaly F) → List (Anomaly F)) where
    -- math.Abs(anomalies[i].ZScore) > math.Abs(anomalies[j].ZScore)
    abbrev pub more_abnormal : Anomaly F → Anomaly F → Bool
    more_abnormal a b = float.less (float.abs b.z_score) (float.abs a.z_score)

    unfoldable pub report : Bytes → F → ℤ → List (Option (AnomalyRow F)) → Option (AnomalyResult F)
    unfolding check_rows truncate
    report node_id threshold limit rows =
        reported node_id (length rows)
          (truncate limit (sort more_abnormal (check_rows threshold rows)))

    -- handleDetectAnomalies; `parse` is parseTimeArg, `run` is s.pool.Query, and the answer may be the
    -- panic.
    module _ (to_int : F → ℤ) (parse : Bytes → Option ℕ)
        (run : Select → Option (Rows (AnomalyRow F))) where
      abbrev pub answer_report :
          Bytes → F → ℤ → Option (Rows (AnomalyRow F)) → Result ToolError (Option (AnomalyResult F))
      answer_report node_id threshold limit none = err query_failed
      answer_report node_id threshold limit (some rows) =
          ok (report node_id threshold limit rows.scans)

      unfoldable pub handle_detect_anomalies :
          Bytes → Bytes → Bytes → F → F → Result ToolError (Option (AnomalyResult F))
      unfolding report threshold_or anomaly_limit required_time or_default anomalies_select
      handle_detect_anomalies node_id context after threshold limit = do
        t ← required_time parse invalid_after (or_default (str "-1h") after)
        answer_report node_id (threshold_or threshold) (anomaly_limit to_int limit)
            (run (anomalies_select node_id context t))
