-- ===== src/Alerts/Tests.antt =====
-- internal/mcp/alerts.go on a CPU at 95 percent, in whole percents.
use netdata_postgres_mcp.Base.{ℕ, ◌≡◌, refl, ◌↔◌, Bool, false, length, Option, some, ltb, leb}
use netdata_postgres_mcp.Base.Text.{Bytes, str, eq_str, is_empty}
use netdata_postgres_mcp.Alerts.{
  AlertRule, AlertQuery, firing, evaluate_alert, check_alerts, default_alert_rules,
}
use netdata_postgres_mcp.Alerts.Firing.{Fires, evaluate_alert-Fires}

abbrev never : ℕ → Bool
never v = false

abbrev same : ℕ → ℕ
same v = v

abbrev at_noon : Bytes → Option ℕ
at_noon window = some 12

abbrev busy : AlertQuery → Option ℕ
busy q = some 95

abbrev high_cpu : AlertRule ℕ
high_cpu = record {
  name = str "high_cpu_usage";
  context = str "system.cpu";
  dimension = str "user";
  operator = str ">";
  threshold = 90;
  window = str "-5m";
  aggregator = str "avg";
  severity = str "critical";
}

-- Two of the default rules are critical.
length-check_alerts :
    length (
      check_alerts 0 never ltb leb same at_noon busy
        (str "n1")
        (str "critical")
        (default_alert_rules same))
    ≡ 2
unfolding check_alerts default_alert_rules str eq_str is_empty
length-check_alerts = refl

evaluate_alert-Fires_example :
    ((evaluate_alert 0 never ltb leb same at_noon busy (str "n1") high_cpu).status ≡ firing)
    ↔ Fires 0 never ltb leb same at_noon busy (str "n1") high_cpu
evaluate_alert-Fires_example =
    evaluate_alert-Fires 0 never ltb leb same at_noon busy (str "n1") high_cpu
