-- ===== src/Mcp/Forecast.antt =====
-- internal/mcp/forecast.go: the tool for forecasts. The arithmetic of float64 and
-- PostgreSQL are parameters. The texts of the messages are kept as their kinds.
use netdata_postgres_mcp.Base.{
  ℕ, ◌-◌, Bool, ◌||◌, List, [], ◌∷◌, map, Option, none, some, Result, ok, err, ◌>>=◌, length,
  last_or, ltb, if◌then◌else◌,
}
use netdata_postgres_mcp.Base.Text.{Bytes, str}
use netdata_postgres_mcp.Mcp.Regression.{Xy, Fit, zero_f, linear_regression}
use netdata_postgres_mcp.Base.Floats.{Float, round2}
use netdata_postgres_mcp.Mcp.Select.{
  text, instant, equals, at_least, start, where_, where_text, Select, finish,
}
use netdata_postgres_mcp.Mcp.Queries.{
  ToolError, invalid_after, query_failed, required_time, or_default,
}
use netdata_postgres_mcp.Mcp.Queries.Answers.{Rows, readable}

-- The messages.
pub data Message : Type 0 where
  insufficient flat exceeded moving_away warning predicted : Message

pub record ForecastResult (F : Type 0) : Type 0 where
  pub node_id : Bytes
  pub context : Bytes
  pub dimension : Bytes
  pub current_value : F
  pub trend : F
  pub threshold : F
  pub hits_at : Option ℕ
  pub hours_until : Option F
  pub data_points : ℕ
  pub r2 : F
  pub message : Message

-- The rows: a bucket and its average.
pub record Point (F : Type 0) : Type 0 where
  pub t : ℕ
  pub v : F

unfoldable pub forecast_select : Bytes → Bytes → Bytes → ℕ → Select
unfolding where_ where_text finish
forecast_select node_id context dimension after =
    finish (str "hardware_metric_rollups_1h") (str "bucket ASC") (
      where_text (str "dimension") dimension (
        where_ (str "bucket") at_least (instant after) (
          where_ (str "context") equals (text context)
            (where_ (str "node_id") equals (text node_id) start))))

module _ {F : Type 0} (float : Float F) where
  -- `hours` is Duration.Hours of the time between two buckets; `hit_time` is the time now and so many
  -- hours.
  module _ (hours : ℕ → F) (hit_time : F → ℕ) where
    unfoldable pub points : List (Point F) → List (Xy F)
    points [] = []
    points (p ∷ ps) = map (λ q. (hours (q.t - p.t), q.v)) (p ∷ ps)

    -- hoursToThreshold <= 0
    abbrev pub is_behind : F → Bool
    is_behind to_threshold =
        float.less to_threshold (zero_f float) || float.equal to_threshold (zero_f float)

    -- The message, by the hours to the threshold.
    unfoldable pub message_of : F → F → F → Message
    message_of threshold current to_threshold =
        if is_behind to_threshold
        then (if float.less threshold current || float.equal threshold current
            then exceeded
            else moving_away)
        else if float.less to_threshold (float.decimal 24 0)
        then warning
        else predicted

    -- (threshold - (intercept + slope*currentHours)) / slope
    unfoldable pub hours_to : Fit F → F → F → F
    hours_to fit threshold current_hours =
        float.div
          (float.sub threshold (float.add fit.intercept (float.mul fit.slope current_hours)))
          fit.slope

    module _ (node_id context dimension : Bytes) (threshold : F) where
      -- The result of a flat metric, which the others extend.
      abbrev pub flat_result : Fit F → Xy F → ℕ → ForecastResult F
      flat_result fit current n = record {
        node_id = node_id;
        context = context;
        dimension = dimension;
        current_value = round2 float current.1;
        trend = round2 float fit.slope;
        threshold = threshold;
        hits_at = none;
        hours_until = none;
        data_points = n;
        r2 = round2 float fit.r2;
        message = flat;
      }

      unfoldable pub forecast_fit : Fit F → Xy F → ℕ → ForecastResult F
      unfolding hours_to message_of round2
      forecast_fit fit current n =
          let to_threshold = hours_to fit threshold current.0 in
          if float.equal fit.slope (zero_f float)
          then flat_result fit current n
          else record (flat_result fit current n) {
            message = message_of threshold current.1 to_threshold;
            hits_at = if is_behind to_threshold then none else some (hit_time to_threshold);
            hours_until = if is_behind to_threshold then none else some (round2 float to_threshold);
          }

      unfoldable pub forecast : List (Point F) → ForecastResult F
      unfolding points linear_regression forecast_fit
      forecast ps =
          let xys = points ps in
          if ltb (length ps) 3
          then record {
            node_id = node_id;
            context = context;
            dimension = dimension;
            current_value = zero_f float;
            trend = zero_f float;
            threshold = threshold;
            hits_at = none;
            hours_until = none;
            data_points = length ps;
            r2 = zero_f float;
            message = insufficient;
          }
          else forecast_fit (linear_regression float xys) (last_or (zero_f float, zero_f float) xys)
              (length ps)

      -- handleForecast; `parse` is parseTimeArg, `run` is s.pool.Query.
      abbrev pub answer_forecast : Option (Rows (Point F)) → Result ToolError (ForecastResult F)
      answer_forecast none = err query_failed
      answer_forecast (some rows) = ok (forecast (readable rows.scans))

      unfoldable pub handle_forecast :
          (Bytes → Option ℕ)
          → (Select → Option (Rows (Point F)))
          → Bytes
          → Result ToolError (ForecastResult F)
      unfolding forecast readable forecast_select required_time or_default
      handle_forecast parse run after = do
        t ← required_time parse invalid_after (or_default (str "-7d") after)
        answer_forecast (run (forecast_select node_id context dimension t))
