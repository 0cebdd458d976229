-- ===== src/Alerts.antt =====
-- internal/mcp/alerts.go: the rules, `evaluateAlert` and `handleCheckAlerts`. The query is a call of the
-- database and `parseTimeArg` a function of the package; both are arguments, as are the float64's
-- tests. The text of a result's message is not modelled.
pub mod Meaning
pub mod Firing
mod Tests
use Prim.Native.String.{String}
use netdata_postgres_mcp.Base.{
  ℕ, Bool, true, false, not, ◌&&◌, List, [], ◌∷◌, ◌++◌, Option, none, some, if◌then◌else◌,
}
use netdata_postgres_mcp.Base.Text.{Bytes, str, eq_str, is_empty}

pub record AlertRule (F : Type 0) : Type 0 where
  pub name : Bytes
  pub context : Bytes
  pub dimension : Bytes
  pub operator : Bytes
  pub threshold : F
  pub window : Bytes
  pub aggregator : Bytes
  pub severity : Bytes

-- "firing", "ok" and "no_data".
pub data Status : Type 0 where
  firing within no_data : Status

pub record AlertResult (F : Type 0) : Type 0 where
  pub name : Bytes
  pub status : Status
  pub severity : Bytes
  pub value : F
  pub threshold : F
  pub operator : Bytes
  pub window : Bytes

-- The query: its aggregate function and its arguments, the dimension's if it asks for one.
pub record AlertQuery : Type 0 where
  pub agg_func : Bytes
  pub node_id : Bytes
  pub after_time : ℕ
  pub context_pattern : Bytes
  pub dimension : Option Bytes

unfoldable pub default_alert_rules : {F : Type 0} → (ℕ → F) → List (AlertRule F)
default_alert_rules {F} of_int =
    let rule : String → String → String → ℕ → String → String → String → AlertRule F =
      λ name context dimension threshold window aggregator severity. record {
        name = str name;
        context = str context;
        dimension = str dimension;
        operator = str ">";
        threshold = of_int threshold;
        window = str window;
        aggregator = str aggregator;
        severity = str severity;
      } in
    rule "high_cpu_usage" "system.cpu" "user" 90 "-5m" "avg" "critical"
    ∷ rule "high_cpu_sustained" "system.cpu" "user" 70 "-15m" "avg" "warning"
    ∷ rule "high_iowait" "system.cpu" "iowait" 20 "-5m" "avg" "warning"
    ∷ rule "high_ram_usage" "system.ram" "used" 90 "-5m" "avg" "warning"
    ∷ rule "disk_util_critical" "disk.util" "" 95 "-5m" "max" "critical"
    ∷ rule "disk_util_warning" "disk.util" "" 80 "-10m" "avg" "warning"
    ∷ rule "swap_in_use" "system.swap" "used" 500 "-5m" "avg" "warning"
    ∷ []

unfoldable pub agg_func : Bytes → Bytes
agg_func aggregator =
    if eq_str aggregator (str "max")
    then str "MAX"
    else if eq_str aggregator (str "min")
    then str "MIN"
    else str "AVG"

module _ {F : Type 0} (zero : F) (is_minus_one : F → Bool) (less : F → F → Bool)
    (at_most : F → F → Bool) (round2 : F → F) (parse_time_arg : Bytes → Option ℕ)
    (query : AlertQuery → Option F) where
  -- switch rule.Operator
  unfoldable pub is_firing : Bytes → F → F → Bool
  is_firing operator value threshold =
      if eq_str operator (str ">")
      then less threshold value
      else if eq_str operator (str ">=")
      then at_most threshold value
      else if eq_str operator (str "<")
      then less value threshold
      else if eq_str operator (str "<=")
      then at_most value threshold
      else false

  unfoldable pub query_of : Bytes → AlertRule F → ℕ → AlertQuery
  query_of node_id rule after_time = record {
    agg_func = agg_func rule.aggregator;
    node_id = node_id;
    after_time = after_time;
    context_pattern = rule.context ++ str "%";
    dimension = if is_empty rule.dimension then none else some rule.dimension;
  }

  abbrev pub result_of : AlertRule F → Status → F → AlertResult F
  result_of rule status value = record {
    name = rule.name;
    status = status;
    severity = rule.severity;
    value = value;
    threshold = rule.threshold;
    operator = rule.operator;
    window = rule.window;
  }

  -- What follows the query.
  evaluated : AlertRule F → Option F → AlertResult F
  unfolding is_firing
  evaluated rule none = result_of rule no_data zero
  evaluated rule (some value) =
      if is_minus_one value
      then result_of rule no_data zero
      else if is_firing rule.operator value rule.threshold
      then result_of rule firing (round2 value)
      else result_of rule within (round2 value)

  windowed : Bytes → AlertRule F → Option ℕ → AlertResult F
  unfolding evaluated query_of
  windowed node_id rule none = result_of rule no_data zero
  windowed node_id rule (some after_time) =
      evaluated rule (query (query_of node_id rule after_time))

  unfoldable pub evaluate_alert : Bytes → AlertRule F → AlertResult F
  unfolding windowed
  evaluate_alert node_id rule = windowed node_id rule (parse_time_arg rule.window)

  -- The loop of `handleCheckAlerts` over the rules.
  unfoldable pub check_alerts : Bytes → Bytes → List (AlertRule F) → List (AlertResult F)
  unfolding evaluate_alert
  check_alerts node_id severity_filter [] = []
  check_alerts node_id severity_filter (rule ∷ rules) =
      let rest = check_alerts node_id severity_filter rules in
      if not (is_empty severity_filter) && not (eq_str rule.severity severity_filter)
      then rest
      else evaluate_alert node_id rule ∷ rest
