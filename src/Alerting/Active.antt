-- ===== src/Alerting/Active.antt =====
-- Which alerts are active after an evaluation of the rules.
use wemixvisor.Base.{
  ◌≡◌, refl, sym, ap, ◌∙◌, none, some, Bool, true, false, List, [], ◌∷◌, All, String, ◌++◌, str_dec,
  ite, is_some, arith, Bool-cases, Option-cases, inl, inr, contains, Distinct, map,
}
use mathlib.Core.Path.{subst}
use wemixvisor.Base.Int.{ℤ}
use wemixvisor.Base.GoMap
use wemixvisor.Base.GoMap.{GoMap}
use wemixvisor.Alerting.{
  Floats, Snapshot, AlertRule, Alert, AlertManager, Notice, fired, resolved, send_notifications,
  should_alert, alert_of, fire, resolve, evaluate_rule, evaluate_all, drop_old, cleanup_alerts,
  evaluate_rules, get_metric_value,
}

ite_self : (k : String) (x y : Bool) → ite (str_dec k k) x y ≡ x
ite_self k x y = ground arith

module _ {F : Type 0} (f : Floats F) (id_of : String → ℤ → String) where
  alerts-send :
      (n : Notice F) (names : List String) (m : AlertManager F)
      → (send_notifications f id_of n names m).alerts ≡ m.alerts
  unfolding send_notifications
  alerts-send n [] m = refl
  alerts-send n (c ∷ names) m = ground (
    arith,
    alerts-send n names m,
    alerts-send n names (record m { sent = m.sent ++ (c, n) ∷ [] }),
  )

  abbrev pub Unresolved : Alert F → Type 0
  Unresolved a = a.resolved_at ≡ none

  lookup-fire :
      (now : ℤ) (r : AlertRule F) (value : F) (m : AlertManager F) (j : String)
      → GoMap.lookup j (fire f id_of now r value m).alerts
        ≡ ite (str_dec r.name j) (some (alert_of f id_of now r value)) (GoMap.lookup j m.alerts)
  unfolding fire
  lookup-fire now r value m j =
      rw
        (alerts-send (fired (alert_of f id_of now r value)) r.channels
          (record m { alerts = GoMap.insert r.name (alert_of f id_of now r value) m.alerts }))
        (GoMap.lookup-insert j r.name (alert_of f id_of now r value) m.alerts)

  lookup-resolve :
      (now : ℤ) (r : AlertRule F) (a : Alert F) (m : AlertManager F) (j : String)
      → GoMap.lookup j (resolve f id_of now r a m).alerts
        ≡ ite (str_dec r.name j) none (GoMap.lookup j m.alerts)
  unfolding resolve
  lookup-resolve now r a m j =
      rw
        (alerts-send (resolved (record a { resolved_at = some now })) r.channels
          (record m { alerts = GoMap.delete r.name m.alerts }))
        (GoMap.lookup-delete j r.name m.alerts)

  same_key : (k j : String) (m : GoMap (Alert F)) → k ≡ j → GoMap.lookup j m ≡ GoMap.lookup k m
  same_key k j m e = rw e refl

  lookup-evaluate_rule :
      (now : ℤ) (s : Snapshot F) (r : AlertRule F) (m : AlertManager F) (j : String)
      → is_some (GoMap.lookup j (evaluate_rule f id_of now s r m).0.alerts)
        ≡ ite (str_dec r.name j) (should_alert f id_of r s) (is_some (GoMap.lookup j m.alerts))
  unfolding evaluate_rule
  lookup-evaluate_rule now s r m j =
      let value = get_metric_value f id_of r.metric s in
      let here = same_key r.name j m.alerts in
      elim (Bool-cases (should_alert f id_of r s)) [
        | inl b ↦ elim (Option-cases (GoMap.lookup r.name m.alerts)) [
          | inl o ↦ ground (arith, b, o, lookup-fire now r value m j)
          | inr (a, o) ↦ ground (arith, b, o, here)
        ]
        | inr b ↦ elim (Option-cases (GoMap.lookup r.name m.alerts)) [
          | inl o ↦ ground (arith, b, o, here)
          | inr (a, o) ↦ ground (arith, b, o, lookup-resolve now r a m j)
        ]
      ]

  lookup-evaluate_rule_other :
      (now : ℤ) (s : Snapshot F) (r : AlertRule F) (m : AlertManager F) (j : String)
      → (r.name ≡ j → ⊥)
      → GoMap.lookup j (evaluate_rule f id_of now s r m).0.alerts ≡ GoMap.lookup j m.alerts
  unfolding evaluate_rule
  lookup-evaluate_rule_other now s r m j ne =
      let value = get_metric_value f id_of r.metric s in
      elim (Bool-cases (should_alert f id_of r s)) [
        | inl b ↦ elim (Option-cases (GoMap.lookup r.name m.alerts)) [
          | inl o ↦ ground (arith, b, o, ne, lookup-fire now r value m j)
          | inr (a, o) ↦ ground (arith, b, o)
        ]
        | inr b ↦ elim (Option-cases (GoMap.lookup r.name m.alerts)) [
          | inl o ↦ ground (arith, b, o)
          | inr (a, o) ↦ ground (arith, b, o, ne, lookup-resolve now r a m j)
        ]
      ]

  own_name :
      (now : ℤ) (s : Snapshot F) (r : AlertRule F) (m : AlertManager F)
      → is_some (GoMap.lookup r.name (evaluate_rule f id_of now s r m).0.alerts)
        ≡ should_alert f id_of r s
  own_name now s r m =
      lookup-evaluate_rule now s r m r.name
      ∙ ite_self r.name (should_alert f id_of r s) (is_some (GoMap.lookup r.name m.alerts))

  lookup-evaluate_all :
      (now : ℤ) (s : Snapshot F) (rules : List (AlertRule F)) (m : AlertManager F) (j : String)
      → contains j (map (λ r. r.name) rules) ≡ false
      → GoMap.lookup j (evaluate_all f id_of now s rules m).0.alerts ≡ GoMap.lookup j m.alerts
  unfolding evaluate_all contains
  lookup-evaluate_all now s [] m j h = refl
  lookup-evaluate_all now s (r ∷ rules) m j h = elim (Bool-cases r.enabled) [
    | inl e ↦ ground (
      arith,
      e,
      h,
      lookup-evaluate_rule_other now s r m j,
      lookup-evaluate_all now s rules (evaluate_rule f id_of now s r m).0 j,
    )
    | inr e ↦ ground (arith, e, h, lookup-evaluate_all now s rules m j)
  ]

  -- The alert of an enabled rule is active just when its condition holds.
  abbrev pub IsExact : Snapshot F → GoMap (Alert F) → AlertRule F → Type 0
  IsExact s alerts r =
      r.enabled ≡ true → is_some (GoMap.lookup r.name alerts) ≡ should_alert f id_of r s

  AllExact-at :
      (s : Snapshot F) (rules : List (AlertRule F)) (a b : GoMap (Alert F))
      → a ≡ b
      → All (IsExact s b) rules
      → All (IsExact s a) rules
  AllExact-at s rules a b e h = subst (λ c. All (IsExact s c) rules) (sym e) h

  evaluate_all-on :
      (now : ℤ) (s : Snapshot F) (r : AlertRule F) (rules : List (AlertRule F)) (m : AlertManager F)
      → r.enabled ≡ true
      → (evaluate_all f id_of now s (r ∷ rules) m).0
        ≡ (evaluate_all f id_of now s rules (evaluate_rule f id_of now s r m).0).0
  unfolding evaluate_all
  evaluate_all-on now s r rules m e = ground (arith, e)

  evaluate_all-off :
      (now : ℤ) (s : Snapshot F) (r : AlertRule F) (rules : List (AlertRule F)) (m : AlertManager F)
      → r.enabled ≡ false
      → (evaluate_all f id_of now s (r ∷ rules) m).0 ≡ (evaluate_all f id_of now s rules m).0
  unfolding evaluate_all
  evaluate_all-off now s r rules m e = ground (arith, e)

  evaluate_all-IsExact :
      (now : ℤ) (s : Snapshot F) (rules : List (AlertRule F)) (m : AlertManager F)
      → Distinct (map (λ r. r.name) rules)
      → All (IsExact s (evaluate_all f id_of now s rules m).0.alerts) rules
  evaluate_all-IsExact now s [] m d = tt
  evaluate_all-IsExact now s (r ∷ rules) m (fresh, d) = elim (Bool-cases r.enabled) [
    | inl e ↦
        let m' = (evaluate_rule f id_of now s r m).0 in
        let later = ap is_some (lookup-evaluate_all now s rules m' r.name fresh) in
        let same = ap (λ (n : AlertManager F). n.alerts) (evaluate_all-on now s r rules m e) in
        (
          λ on. ap (λ a. is_some (GoMap.lookup r.name a)) same ∙ (later ∙ own_name now s r m),
          AllExact-at s rules (evaluate_all f id_of now s (r ∷ rules) m).0.alerts
              (evaluate_all f id_of now s rules m').0.alerts same
              (evaluate_all-IsExact now s rules m' d),
        )
    | inr e ↦
        let same = ap (λ (n : AlertManager F). n.alerts) (evaluate_all-off now s r rules m e) in
        (
          λ on. cc (on, e),
          AllExact-at s rules (evaluate_all f id_of now s (r ∷ rules) m).0.alerts
              (evaluate_all f id_of now s rules m).0.alerts same
              (evaluate_all-IsExact now s rules m d),
        )
  ]

  abbrev pub AllUnresolved : AlertManager F → Type 0
  AllUnresolved m = GoMap.AllValues Unresolved m.alerts

  fire-AllUnresolved :
      (now : ℤ) (r : AlertRule F) (value : F) (m : AlertManager F)
      → AllUnresolved m
      → AllUnresolved (fire f id_of now r value m)
  unfolding fire
  fire-AllUnresolved now r value m h =
      rw
        (alerts-send (fired (alert_of f id_of now r value)) r.channels
          (record m { alerts = GoMap.insert r.name (alert_of f id_of now r value) m.alerts }))
        (GoMap.insert-AllValues Unresolved r.name (alert_of f id_of now r value) m.alerts refl h)

  resolve-AllUnresolved :
      (now : ℤ) (r : AlertRule F) (a : Alert F) (m : AlertManager F)
      → AllUnresolved m
      → AllUnresolved (resolve f id_of now r a m)
  unfolding resolve
  resolve-AllUnresolved now r a m h =
      rw
        (alerts-send (resolved (record a { resolved_at = some now })) r.channels
          (record m { alerts = GoMap.delete r.name m.alerts }))
        (GoMap.delete-AllValues Unresolved r.name m.alerts h)

  evaluate_rule-AllUnresolved :
      (now : ℤ) (s : Snapshot F) (r : AlertRule F) (m : AlertManager F)
      → AllUnresolved m
      → AllUnresolved (evaluate_rule f id_of now s r m).0
  unfolding evaluate_rule
  evaluate_rule-AllUnresolved now s r m h =
      let value = get_metric_value f id_of r.metric s in
      elim (Bool-cases (should_alert f id_of r s)) [
        | inl b ↦ elim (Option-cases (GoMap.lookup r.name m.alerts)) [
          | inl o ↦ rw (b, o, evaluate_rule) (fire-AllUnresolved now r value m h)
          | inr (a, o) ↦ rw (b, o, evaluate_rule) h
        ]
        | inr b ↦ elim (Option-cases (GoMap.lookup r.name m.alerts)) [
          | inl o ↦ rw (b, o, evaluate_rule) h
          | inr (a, o) ↦ rw (b, o, evaluate_rule) (resolve-AllUnresolved now r a m h)
        ]
      ]

  evaluate_all-AllUnresolved :
      (now : ℤ) (s : Snapshot F) (rules : List (AlertRule F)) (m : AlertManager F)
      → AllUnresolved m
      → AllUnresolved (evaluate_all f id_of now s rules m).0
  unfolding evaluate_all
  evaluate_all-AllUnresolved now s [] m h = h
  evaluate_all-AllUnresolved now s (r ∷ rules) m h = elim (Bool-cases r.enabled) [
    | inl e ↦ rw (evaluate_all-on now s r rules m e) (
        evaluate_all-AllUnresolved now s rules (evaluate_rule f id_of now s r m).0
          (evaluate_rule-AllUnresolved now s r m h))
    | inr e ↦ rw (evaluate_all-off now s r rules m e) (evaluate_all-AllUnresolved now s rules m h)
  ]

  drop_old-Unresolved :
      (now retention : ℤ) (alerts : GoMap (Alert F))
      → GoMap.AllValues Unresolved alerts
      → drop_old f id_of now retention alerts ≡ alerts
  unfolding drop_old
  drop_old-Unresolved now retention [] h = refl
  drop_old-Unresolved now retention ((name, a) ∷ alerts) (h, hs) =
      ground (arith, h, drop_old-Unresolved now retention alerts hs)

  alerts-evaluate_rules :
      (now : ℤ) (s : Snapshot F) (m : AlertManager F)
      → AllUnresolved m
      → (evaluate_rules f id_of now (some s) m).alerts
        ≡ (evaluate_all f id_of now s m.rules m).0.alerts
  unfolding evaluate_rules cleanup_alerts
  alerts-evaluate_rules now s m h =
      drop_old-Unresolved now _ (evaluate_all f id_of now s m.rules m).0.alerts
        (evaluate_all-AllUnresolved now s m.rules m h)

  -- If no stored alert is resolved, an evaluation of the rules leaves that so, and if the names of
  -- the rules are distinct, then the alert of each enabled rule is active just when its condition
  -- holds for the snapshot, whatever was active before.
  pub evaluate_rules-IsExact :
      (now : ℤ) (s : Snapshot F) (m : AlertManager F)
      → AllUnresolved m
      → Distinct (map (λ r. r.name) m.rules)
      → AllUnresolved (evaluate_rules f id_of now (some s) m)
        × All (IsExact s (evaluate_rules f id_of now (some s) m).alerts) m.rules
  evaluate_rules-IsExact now s m h d =
      let same = alerts-evaluate_rules now s m h in
      (
        subst (λ c. GoMap.AllValues Unresolved c) (sym same)
            (evaluate_all-AllUnresolved now s m.rules m h),
        AllExact-at s m.rules (evaluate_rules f id_of now (some s) m).alerts
            (evaluate_all f id_of now s m.rules m).0.alerts same
            (evaluate_all-IsExact now s m.rules m d),
      )

  -- If no stored alert is resolved, an evaluation of the rules leaves what is stored under a name
  -- that no rule has as it is: the same alert, unresolved, or none.
  pub evaluate_rules_orphan :
      (now : ℤ) (s : Snapshot F) (m : AlertManager F) (name : String)
      → AllUnresolved m
      → contains name (map (λ r. r.name) m.rules) ≡ false
      → GoMap.lookup name (evaluate_rules f id_of now (some s) m).alerts
        ≡ GoMap.lookup name m.alerts
  evaluate_rules_orphan now s m name h fresh =
      rw (alerts-evaluate_rules now s m h) (lookup-evaluate_all now s m.rules m name fresh)
