-- ===== src/Batch/Progress.antt =====
-- What a plan says about a height: the next upgrade, the upgrade at a height, and the status.
use wemixvisor.Base.{
  ◌+◌, ◌≡◌, ◌≢◌, refl, String, Option, none, some, List, [], ◌∷◌, length, All, In, All-In, arith,
  Bool-cases, inl, inr, ◌⊎◌, str_eq, if◌then◌else◌,
}
use wemixvisor.Base.Int.{ℤ, ◌<ℤ◌, ◌≤ℤ◌, ltb_ℤ}
use wemixvisor.Types.{UpgradeInfo}
use wemixvisor.Batch.{
  UpgradePlan, PlanStatus, get_next_upgrade, get_upgrade_by_height, count_upgrades, get_plan_status,
}
use wemixvisor.Batch.Plans.{IsIncreasing}

-- In a plan whose heights strictly go up, the next upgrade is in the plan and above the current
-- height, and every upgrade of the plan is either reached already or not below it.
pub get_next_upgrade_least :
    (us : List UpgradeInfo) (current : ℤ) (u : UpgradeInfo)
    → IsIncreasing us
    → get_next_upgrade us current ≡ some u
    → In u us
      × (current <ℤ u.height)
      × ((v : UpgradeInfo) → In v us → (v.height ≤ℤ current) ⊎ (u.height ≤ℤ v.height))
unfolding get_next_upgrade
get_next_upgrade_least [] current u up h = cc
get_next_upgrade_least (w ∷ us) current u up h = elim (Bool-cases (ltb_ℤ current w.height)) [
  | inl e ↦
      let same : w ≡ u = ground arith in
      (
        inl same,
        ground arith,
        λ v m. elim m [
          | inl here ↦ inr (rw (← same, ← here) (omega arith))
          | inr later ↦
              inr (rw (← same) (ground (arith, All-In (λ x. w.height <ℤ x.height) v us up.0 later)))
        ],
      )
  | inr e ↦
      let (m, above, least) = get_next_upgrade_least us current u up.1 (ground arith) in
      (
        inr m,
        above,
        λ v k. elim k [ inl here ↦ inl (rw (← here) (ground arith)) | inr later ↦ least v later ],
      )
]

above_absent :
    (us : List UpgradeInfo) (h : ℤ)
    → All (λ v. h <ℤ v.height) us
    → get_upgrade_by_height us h ≡ none
unfolding get_upgrade_by_height
above_absent [] h a = refl
above_absent (u ∷ us) h a = ground (arith, above_absent us h a.1)

-- In a plan whose heights strictly go up, the upgrade at the height of one of its upgrades is that
-- upgrade.
pub get_upgrade_by_height_self :
    (us : List UpgradeInfo) (u : UpgradeInfo)
    → IsIncreasing us
    → In u us
    → get_upgrade_by_height us u.height ≡ some u
unfolding get_upgrade_by_height
get_upgrade_by_height_self [] u up m = absurd m
get_upgrade_by_height_self (w ∷ us) u up (inl e) = ground arith
get_upgrade_by_height_self (w ∷ us) u up (inr m) =
    ground (
      arith,
      get_upgrade_by_height_self us u up.1 m,
      All-In (λ v. w.height <ℤ v.height) u us up.0 m,
    )

count_upgrades_total :
    (us : List UpgradeInfo) (current : ℤ) (s : PlanStatus)
    → (count_upgrades us current s).completed + (count_upgrades us current s).pending
      ≡ s.completed + s.pending + length us
unfolding count_upgrades
count_upgrades_total [] current s = omega arith
count_upgrades_total (u ∷ us) current s = ground (
  arith,
  count_upgrades_total us current (record s { completed = s.completed + 1 }),
  count_upgrades_total us current (record s {
    pending = s.pending + 1;
    active = if str_eq s.active "" then u.name else s.active;
  }),
)

abbrev pub name_or_empty : Option UpgradeInfo → String
name_or_empty none = ""
name_or_empty (some u) = u.name

count_upgrades_active :
    (us : List UpgradeInfo) (current : ℤ) (s : PlanStatus)
    → All (λ u. u.name ≢ "") us
    → (count_upgrades us current s).active
      ≡ (if str_eq s.active "" then name_or_empty (get_next_upgrade us current) else s.active)
unfolding count_upgrades get_next_upgrade
count_upgrades_active [] current s n = ground arith
count_upgrades_active (u ∷ us) current s n = ground (
  arith,
  count_upgrades_active us current (record s { completed = s.completed + 1 }) n.1,
  count_upgrades_active us current
      (record s {
        pending = s.pending + 1;
        active = if str_eq s.active "" then u.name else s.active;
      })
      n.1,
)

-- For a plan whose upgrades all have a name, the status counts every upgrade once, as completed
-- or as pending, and names as active the upgrade that is next at the height (no name, if there is
-- none).
pub get_plan_status-next :
    (plan : UpgradePlan) (current : ℤ)
    → All (λ u. u.name ≢ "") plan.upgrades
    → ((get_plan_status plan current).completed + (get_plan_status plan current).pending
        ≡ length plan.upgrades)
      × ((get_plan_status plan current).active
          ≡ name_or_empty (get_next_upgrade plan.upgrades current))
unfolding get_plan_status
get_plan_status-next plan current n =
    let s : PlanStatus = record { completed = 0; pending = 0; active = "" } in
    (
      omega (arith, count_upgrades_total plan.upgrades current s),
      ground (arith, count_upgrades_active plan.upgrades current s n),
    )
