-- ===== src/Alerting.antt =====
-- The alert manager of internal/alerting/manager.go: the rules, the active alerts by the name of
-- their rule, and the notifications. A `float64` with its comparisons and conversions, the text of
-- an alert id and the snapshot of the metrics collector are parameters. The notifications, which
-- goroutines send, are kept as a list; a resolution carries the alert with its new message. The
-- descriptions, levels and labels of a rule, which no code reads, are left out, as is logging.
use wemixvisor.Base.{
  ℕ, ltb, ◌*◌, ◌&&◌, ◌||◌, not, Option, none, some, Bool, true, false, List, [], ◌∷◌, ◌++◌, String,
  str_eq, length, take, is_some, map, if◌then◌else◌,
}
use wemixvisor.Base.Int.{ℤ, pos, ◌-ℤ◌, ltb_ℤ}
use wemixvisor.Base.GoMap
use wemixvisor.Base.GoMap.{GoMap}
use wemixvisor.Base.Sort.{remove_first}
pub mod Active
pub mod Defaults
mod Checks

pub record Floats (F : Type 0) : Type 0 where
  pub of_int : ℤ → F
  pub lt : F → F → Bool
  pub le : F → F → Bool
  pub eq : F → F → Bool

pub record System (F : Type 0) : Type 0 where
  pub cpu_usage : F
  pub memory_usage : F
  pub disk_usage : F

pub record Snapshot (F : Type 0) : Type 0 where
  pub system : Option (System F)
  pub node_height : Option ℤ
  pub proposals_voting : Option ℤ

pub record AlertRule (F : Type 0) : Type 0 where
  pub name : String
  pub metric : String
  pub condition : String
  pub threshold : F
  pub duration : ℤ
  pub message : String
  pub channels : List String
  pub enabled : Bool
  pub last_eval : Option ℤ
  pub last_fired : Option ℤ

pub record Alert (F : Type 0) : Type 0 where
  pub id : String
  pub name : String
  pub message : String
  pub metric : String
  pub value : F
  pub threshold : F
  pub timestamp : ℤ
  pub resolved_at : Option ℤ

-- what a channel was asked to send
pub data Notice (F : Type 0) : Type 0 where
  fired resolved : Alert F → Notice F

pub record AlertManager (F : Type 0) : Type 0 where
  pub rules : List (AlertRule F)
  -- the channels by name, and whether each is enabled
  pub channels : GoMap Bool
  pub alerts : GoMap (Alert F)
  pub sent : List (String × Notice F)
  pub retention : ℤ

unfoldable pub new_alert_manager : {F : Type 0} → GoMap Bool → ℤ → AlertManager F
new_alert_manager channels retention = record {
  rules = [];
  channels = channels;
  alerts = [];
  sent = [];
  retention = retention;
}

module _ {F : Type 0} (f : Floats F) (id_of : String → ℤ → String) where
  unfoldable pub add_rule : AlertRule F → AlertManager F → AlertManager F
  add_rule r m = record m { rules = m.rules ++ r ∷ [] }

  abbrev has_name : String → AlertRule F → Bool
  has_name name r = str_eq r.name name

  unfoldable pub has_rule : String → List (AlertRule F) → Bool
  has_rule name [] = false
  has_rule name (r ∷ rules) = has_name name r || has_rule name rules

  -- the flag tells that the rule was found
  unfoldable pub remove_rule : String → AlertManager F → AlertManager F × Bool
  remove_rule name m =
      if has_rule name m.rules
      then (record m { rules = remove_first (has_name name) m.rules }, true)
      else (m, false)

  abbrev pub system_value : (System F → F) → Option (System F) → F
  system_value field none = f.of_int (pos 0)
  system_value field (some s) = field s

  abbrev pub int_value : Option ℤ → F
  int_value none = f.of_int (pos 0)
  int_value (some n) = f.of_int n

  unfoldable pub get_metric_value : String → Snapshot F → F
  get_metric_value metric s =
      if str_eq metric "cpu_usage"
      then system_value (λ x. x.cpu_usage) s.system
      else if str_eq metric "memory_usage"
      then system_value (λ x. x.memory_usage) s.system
      else if str_eq metric "disk_usage"
      then system_value (λ x. x.disk_usage) s.system
      else if str_eq metric "node_height"
      then int_value s.node_height
      else if str_eq metric "proposals_voting"
      then int_value s.proposals_voting
      else f.of_int (pos 0)

  unfoldable pub check_condition : String → F → F → Bool
  check_condition condition value threshold =
      if str_eq condition ">" || str_eq condition "gt"
      then f.lt threshold value
      else if str_eq condition ">=" || str_eq condition "gte"
      then f.le threshold value
      else if str_eq condition "<" || str_eq condition "lt"
      then f.lt value threshold
      else if str_eq condition "<=" || str_eq condition "lte"
      then f.le value threshold
      else if str_eq condition "==" || str_eq condition "eq"
      then f.eq value threshold
      else if str_eq condition "!=" || str_eq condition "ne"
      then not (f.eq value threshold)
      else false

  abbrev is_on : Option Bool → Bool
  is_on none = false
  is_on (some on) = on

  unfoldable pub send_notifications : Notice F → List String → AlertManager F → AlertManager F
  send_notifications n [] m = m
  send_notifications n (c ∷ names) m =
      send_notifications n names
        (if is_on (GoMap.lookup c m.channels) then record m { sent = m.sent ++ (c, n) ∷ [] } else m)

  abbrev pub alert_of : ℤ → AlertRule F → F → Alert F
  alert_of now r value = record {
    id = id_of r.name now;
    name = r.name;
    message = r.message;
    metric = r.metric;
    value = value;
    threshold = r.threshold;
    timestamp = now;
    resolved_at = none;
  }

  abbrev pub should_alert : AlertRule F → Snapshot F → Bool
  should_alert r s = check_condition r.condition (get_metric_value r.metric s) r.threshold

  -- the alert is new, and stored before it is sent
  unfoldable pub fire : ℤ → AlertRule F → F → AlertManager F → AlertManager F
  fire now r value m =
      let a = alert_of now r value in
      send_notifications (fired a) r.channels (record m { alerts = GoMap.insert r.name a m.alerts })

  unfoldable pub resolve : ℤ → AlertRule F → Alert F → AlertManager F → AlertManager F
  resolve now r a m =
      send_notifications (resolved (record a { resolved_at = some now })) r.channels
        (record m { alerts = GoMap.delete r.name m.alerts })

  -- `evaluateRule`: the manager and the rule afterwards
  unfoldable pub evaluate_rule :
      ℤ → Snapshot F → AlertRule F → AlertManager F → AlertManager F × AlertRule F
  evaluate_rule now s r m =
      let r' = record r { last_eval = some now } in
      if should_alert r s
      then elim (GoMap.lookup r.name m.alerts) [
        | some a ↦ (m, r')
        | none ↦ (fire now r (get_metric_value r.metric s) m, record r' { last_fired = some now })
      ]
      else elim (GoMap.lookup r.name m.alerts) [ some a ↦ (resolve now r a m, r') | none ↦ (m, r') ]

  -- the loop of `evaluateRules`, and the rules as it leaves them
  unfoldable pub evaluate_all :
      ℤ → Snapshot F → List (AlertRule F) → AlertManager F → AlertManager F × List (AlertRule F)
  evaluate_all now s [] m = (m, [])
  evaluate_all now s (r ∷ rules) m =
      let (m', r') = if r.enabled then evaluate_rule now s r m else (m, r) in
      let (m'', rules') = evaluate_all now s rules m' in (m'', r' ∷ rules')

  abbrev is_old : ℤ → ℤ → Alert F → Bool
  is_old now retention a = elim a.resolved_at [ none ↦ false | some t ↦ ltb_ℤ retention (now -ℤ t) ]

  -- the loop of `cleanupAlerts`
  unfoldable pub drop_old : ℤ → ℤ → GoMap (Alert F) → GoMap (Alert F)
  drop_old now retention [] = []
  drop_old now retention ((name, a) ∷ alerts) =
      let rest = drop_old now retention alerts in
      if is_old now retention a then rest else (name, a) ∷ rest

  unfoldable pub cleanup_alerts : ℤ → AlertManager F → AlertManager F
  cleanup_alerts now m = record m { alerts = drop_old now m.retention m.alerts }

  -- `none` for a snapshot that is nil
  unfoldable pub evaluate_rules : ℤ → Option (Snapshot F) → AlertManager F → AlertManager F
  evaluate_rules now none m = m
  evaluate_rules now (some s) m =
      let (m', rules) = evaluate_all now s m.rules m in
      cleanup_alerts now (record m' { rules = rules })

  abbrev is_unresolved : Alert F → Bool
  is_unresolved a = not (is_some a.resolved_at)

  unfoldable pub unresolved : GoMap (Alert F) → List (Alert F)
  unresolved [] = []
  unresolved ((name, a) ∷ alerts) =
      if is_unresolved a then a ∷ unresolved alerts else unresolved alerts

  unfoldable pub get_active_alerts : AlertManager F → List (Alert F)
  get_active_alerts m = unresolved m.alerts

  unfoldable pub get_alert_history : ℕ → AlertManager F → List (Alert F)
  get_alert_history limit m =
      let all = map (λ e. e.1) m.alerts in
      if ltb 0 limit && ltb limit (length all) then take limit all else all

  -- what `InitializeDefaultRules` adds
  abbrev pub default_rule : String → String → String → ℕ → ℕ → String → List String → AlertRule F
  default_rule name metric condition threshold minutes message channels = record {
    name = name;
    metric = metric;
    condition = condition;
    threshold = f.of_int (pos threshold);
    duration = pos (minutes * 60_000_000_000);
    message = message;
    channels = channels;
    enabled = true;
    last_eval = none;
    last_fired = none;
  }

  abbrev pub default_rules : List (AlertRule F)
  default_rules =
      default_rule "high_cpu_usage" "cpu_usage" ">" 80 5 "CPU usage is above 80%" ("slack" ∷ [])
      ∷ default_rule "high_memory_usage" "memory_usage" ">" 90 5 "Memory usage is above 90%"
          ("slack" ∷ [])
      ∷ default_rule "disk_space_low" "disk_usage" ">" 85 10 "Disk usage is above 85%"
          ("email" ∷ "slack" ∷ [])
      ∷ default_rule "node_not_syncing" "node_syncing" "==" 0 15 "Node is not syncing"
          ("slack" ∷ "email" ∷ [])
      ∷ []

  unfoldable pub add_rules : List (AlertRule F) → AlertManager F → AlertManager F
  unfolding add_rule
  add_rules [] m = m
  add_rules (r ∷ rules) m = add_rules rules (add_rule r m)

  unfoldable pub initialize_default_rules : AlertManager F → AlertManager F
  unfolding add_rules
  initialize_default_rules m = add_rules default_rules m
