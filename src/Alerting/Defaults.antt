-- ===== src/Alerting/Defaults.antt =====
-- The default rules: the one on the synchronisation of the node names a metric that is not known.
use wemixvisor.Base.{
  ◌≡◌, refl, ◌∙◌, some, Bool, true, [], ◌∷◌, Distinct, String, str_dec, is_some, map, contains,
}
use wemixvisor.Base.Int.{ℤ, pos}
use wemixvisor.Base.GoMap
use wemixvisor.Base.GoMap.{GoMap}
use wemixvisor.Alerting.{
  Floats, Snapshot, new_alert_manager, add_rule, add_rules, default_rule, default_rules,
  initialize_default_rules, evaluate_rules, should_alert, check_condition, get_metric_value,
}
use wemixvisor.Alerting.Active.{evaluate_rules-IsExact}

module _ {F : Type 0} (f : Floats F) (id_of : String → ℤ → String) where
  default_rules-Distinct : Distinct (map (λ r. r.name) (default_rules f id_of))
  unfolding contains str_dec
  default_rules-Distinct = (refl, (refl, (refl, (refl, tt))))

  not_syncing_condition :
      (s : Snapshot F)
      → f.eq (f.of_int (pos 0)) (f.of_int (pos 0)) ≡ true
      → should_alert f id_of
          (default_rule f id_of "node_not_syncing" "node_syncing" "==" 0 15 "Node is not syncing"
            ("slack" ∷ "email" ∷ []))
          s
        ≡ true
  unfolding check_condition get_metric_value str_dec
  not_syncing_condition s h = h

  -- At the first evaluation with any snapshot, whatever it says of the node, the default rules raise
  -- the alert that the node is not syncing, provided that the number 0 is equal to itself.
  pub default_rules-not_syncing :
      (now : ℤ) (s : Snapshot F) (channels : GoMap Bool) (retention : ℤ)
      → f.eq (f.of_int (pos 0)) (f.of_int (pos 0)) ≡ true
      → is_some (
          GoMap.lookup "node_not_syncing"
            (evaluate_rules f id_of now
              (some s)
              (initialize_default_rules f id_of (new_alert_manager channels retention))).alerts)
        ≡ true
  unfolding initialize_default_rules add_rules add_rule new_alert_manager
  default_rules-not_syncing now s channels retention h =
      let m = initialize_default_rules f id_of (new_alert_manager channels retention) in
      let (kept, (cpu, (memory, (disk, (syncing, rest))))) =
        evaluate_rules-IsExact f id_of now s m tt default_rules-Distinct in
      syncing refl ∙ not_syncing_condition s h
