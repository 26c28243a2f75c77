-- ===== src/Alerting/Checks.antt =====
-- Runs of the alert manager over integers in place of floats, and its theorems at concrete inputs.
use wemixvisor.Base.{
  ◌≡◌, refl, none, some, true, false, [], ◌∷◌, All, Distinct, String, str_dec, is_some, map,
  contains,
}
use wemixvisor.Base.Int.{ℤ, pos, ltb_ℤ, leb_ℤ, eq_ℤ}
use wemixvisor.Base.GoMap
use wemixvisor.Alerting.{
  Floats, Snapshot, AlertRule, AlertManager, new_alert_manager, initialize_default_rules,
  evaluate_rules, evaluate_all, evaluate_rule, fire, resolve, send_notifications, check_condition,
  get_metric_value, drop_old, cleanup_alerts, get_active_alerts, unresolved,
}
use wemixvisor.Alerting.Active.{
  IsExact, AllUnresolved, evaluate_rules-IsExact, evaluate_rules_orphan,
}
use wemixvisor.Alerting.Defaults.{default_rules-not_syncing}

abbrev ints : Floats ℤ
ints = record { of_int = λ n. n; lt = ltb_ℤ; le = leb_ℤ; eq = eq_ℤ }

abbrev id_of : String → ℤ → String
id_of name now = name

abbrev snapshot : ℤ → Snapshot ℤ
snapshot cpu = record {
  system = some (record { cpu_usage = cpu; memory_usage = pos 10; disk_usage = pos 20 });
  node_height = some (pos 100);
  proposals_voting = none;
}

abbrev rule : AlertRule ℤ
rule = record {
  name = "cpu";
  metric = "cpu_usage";
  condition = ">";
  threshold = pos 80;
  duration = pos 5;
  message = "high";
  channels = "slack" ∷ "email" ∷ [];
  enabled = true;
  last_eval = none;
  last_fired = none;
}

abbrev empty : AlertManager ℤ
empty = record {
  rules = rule ∷ [];
  channels = ("slack", true) ∷ ("email", false) ∷ [];
  alerts = [];
  sent = [];
  retention = pos 100;
}

abbrev after_high : AlertManager ℤ
after_high = evaluate_rules ints id_of (pos 1) (some (snapshot (pos 95))) empty

fires :
    (map (λ e. e.0) after_high.sent ≡ "slack" ∷ [])
    × (map (λ a. a.name) (get_active_alerts ints id_of after_high) ≡ "cpu" ∷ [])
unfolding evaluate_rules evaluate_all evaluate_rule fire send_notifications check_condition
    get_metric_value drop_old cleanup_alerts get_active_alerts unresolved str_dec GoMap.lookup
    GoMap.insert
fires = (refl, refl)

resolves :
    get_active_alerts ints id_of
      (evaluate_rules ints id_of (pos 2) (some (snapshot (pos 20))) after_high)
    ≡ []
unfolding evaluate_rules evaluate_all evaluate_rule fire resolve send_notifications check_condition
    get_metric_value drop_old cleanup_alerts get_active_alerts unresolved str_dec GoMap.lookup
    GoMap.insert GoMap.delete
resolves = refl

one_name : Distinct ("cpu" ∷ [])
unfolding contains
one_name = (refl, tt)

evaluate_rules-IsExact_example :
    AllUnresolved ints id_of after_high
    × All (IsExact ints id_of (snapshot (pos 95)) after_high.alerts) empty.rules
evaluate_rules-IsExact_example =
    evaluate_rules-IsExact ints id_of (pos 1) (snapshot (pos 95)) empty tt one_name

-- the rule is gone, its alert is not
abbrev orphaned : AlertManager ℤ
orphaned = record empty {
  rules = [];
  alerts =
      (
        "cpu",
        record {
          id = "cpu";
          name = "cpu";
          message = "high";
          metric = "cpu_usage";
          value = pos 95;
          threshold = pos 80;
          timestamp = pos 1;
          resolved_at = none;
        },
      )
      ∷ [];
}

no_rule : contains "cpu" [] ≡ false
unfolding contains
no_rule = refl

evaluate_rules_orphan_example :
    GoMap.lookup "cpu"
      (evaluate_rules ints id_of (pos 2) (some (snapshot (pos 20))) orphaned).alerts
    ≡ GoMap.lookup "cpu" orphaned.alerts
evaluate_rules_orphan_example =
    evaluate_rules_orphan ints id_of (pos 2) (snapshot (pos 20)) orphaned "cpu" (refl, tt) no_rule

default_rules-not_syncing_example :
    is_some (
      GoMap.lookup "node_not_syncing"
        (evaluate_rules ints id_of
          (pos 1)
          (some (snapshot (pos 10)))
          (initialize_default_rules ints id_of (new_alert_manager [] (pos 100)))).alerts)
    ≡ true
default_rules-not_syncing_example =
    default_rules-not_syncing ints id_of (pos 1) (snapshot (pos 10)) [] (pos 100) refl
