-- ===== src/Batch.antt =====
-- Batch upgrade plans (internal/batch/batch.go). Saving a plan, writing an upgrade file and
-- ensuring a binary are work of the file system and the downloader, and enter as arguments; the
-- clock, the plan's file name and logging are left out.
use wemixvisor.Base.{
  ℕ, suc, ◌+◌, String, Option, none, some, Bool, true, false, List, [], ◌∷◌, length, contains,
  str_eq, if◌then◌else◌,
}
use wemixvisor.Base.Int.{ℤ, pos, ltb_ℤ, leb_ℤ, eq_ℤ}
use wemixvisor.Base.Sort.{sort}
use wemixvisor.Types.{UpgradeInfo}
pub mod Plans
pub mod Progress
pub mod Execution
mod Checks

pub record UpgradePlan : Type 0 where
  pub version : String
  pub name : String
  pub description : String
  pub upgrades : List UpgradeInfo

pub data PlanError : Type 0 where
  no_name : ℕ → PlanError
  bad_height duplicate_name : String → PlanError
  not_increasing save_failed nil_plan unnamed_plan no_upgrades : PlanError
  wrong_order : String → String → PlanError
  binary_failed write_failed : String → PlanError

abbrev pub lower : UpgradeInfo → UpgradeInfo → Bool
lower a b = ltb_ℤ a.height b.height

-- the height conflict with the upgrade before, if there is one
abbrev conflicts : Option UpgradeInfo → UpgradeInfo → Bool
conflicts none u = false
conflicts (some before) u = leb_ℤ u.height before.height

-- the validation loop of `CreatePlan`, at index `i` behind the upgrade `before`
unfoldable pub check_upgrades : ℕ → Option UpgradeInfo → List UpgradeInfo → Option PlanError
check_upgrades i before [] = none
check_upgrades i before (u ∷ us) =
    let rest = check_upgrades (suc i) (some u) us in
    if str_eq u.name ""
    then some (no_name i)
    else if leb_ℤ u.height (pos 0)
    then some (bad_height u.name)
    else if conflicts before u
    then some not_increasing
    else rest

pub data CreateResult : Type 0 where
  ok : UpgradePlan → CreateResult
  err : PlanError → CreateResult

-- `saves` tells whether `SavePlan` succeeds for a plan.
unfoldable pub create_plan :
    (UpgradePlan → Bool) → String → String → List UpgradeInfo → CreateResult
create_plan saves name description upgrades =
    let us = sort lower upgrades in
    let plan : UpgradePlan = record {
      version = "1.0";
      name = name;
      description = description;
      upgrades = us;
    } in
    elim (check_upgrades 0 none us) [
      | some e ↦ err e
      | none ↦ if saves plan then ok plan else err save_failed
    ]

-- the duplicate check of `ValidatePlan`, with the names seen so far
unfoldable pub find_duplicate : List String → List UpgradeInfo → Option PlanError
find_duplicate names [] = none
find_duplicate names (u ∷ us) =
    if contains u.name names
    then some (duplicate_name u.name)
    else find_duplicate (u.name ∷ names) us

-- the order check of `ValidatePlan`
unfoldable pub find_disorder : List UpgradeInfo → Option PlanError
find_disorder [] = none
find_disorder (u ∷ []) = none
find_disorder (u ∷ v ∷ us) =
    let rest = find_disorder (v ∷ us) in
    if leb_ℤ v.height u.height then some (wrong_order v.name u.name) else rest

unfoldable pub validate_plan : Option UpgradePlan → Option PlanError
validate_plan none = some nil_plan
validate_plan (some plan) = if str_eq plan.name "" then some unnamed_plan else elim plan.upgrades [
  | [] ↦ some no_upgrades
  | u ∷ us ↦ elim (find_duplicate [] (u ∷ us)) [ some e ↦ some e | none ↦ find_disorder (u ∷ us) ]
]

unfoldable pub get_next_upgrade : List UpgradeInfo → ℤ → Option UpgradeInfo
get_next_upgrade [] current = none
get_next_upgrade (u ∷ us) current =
    if ltb_ℤ current u.height then some u else get_next_upgrade us current

unfoldable pub get_upgrade_by_height : List UpgradeInfo → ℤ → Option UpgradeInfo
get_upgrade_by_height [] h = none
get_upgrade_by_height (u ∷ us) h = if eq_ℤ u.height h then some u else get_upgrade_by_height us h

pub record PlanStatus : Type 0 where
  pub completed : ℕ
  pub pending : ℕ
  pub active : String

-- the loop of `GetPlanStatus`
unfoldable pub count_upgrades : List UpgradeInfo → ℤ → PlanStatus → PlanStatus
count_upgrades [] current s = s
count_upgrades (u ∷ us) current s = count_upgrades us current (
    if leb_ℤ u.height current then record s { completed = s.completed + 1 } else record s {
      pending = s.pending + 1;
      active = if str_eq s.active "" then u.name else s.active;
    })

unfoldable pub get_plan_status : UpgradePlan → ℤ → PlanStatus
get_plan_status plan current =
    count_upgrades plan.upgrades current (record { completed = 0; pending = 0; active = "" })

-- The loop of `PrepareBatchUpgrade`: the state of the downloader is passed along.
module _ {D : Type 0} (ensure : String → D → D × Bool) where
  unfoldable pub prepare_batch_upgrade : List UpgradeInfo → D → D × Option PlanError
  prepare_batch_upgrade [] d = (d, none)
  prepare_batch_upgrade (u ∷ us) d = elim ((ensure u.name d).1) [
    | true ↦ prepare_batch_upgrade us (ensure u.name d).0
    | false ↦ ((ensure u.name d).0, some (binary_failed u.name))
  ]

-- `ExecutePlan`: the state of the file system is passed along.
module _ {F : Type 0} (write_upgrade_info : UpgradeInfo → F → F × Bool) where
  unfoldable pub write_all : List UpgradeInfo → F → F × Option PlanError
  write_all [] f = (f, none)
  write_all (u ∷ us) f = elim ((write_upgrade_info u f).1) [
    | true ↦ write_all us (write_upgrade_info u f).0
    | false ↦ ((write_upgrade_info u f).0, some (write_failed u.name))
  ]

  unfoldable pub execute_plan : UpgradePlan → F → F × Option PlanError
  execute_plan plan f = elim (validate_plan (some plan)) [
    | some e ↦ (f, some e)
    | none ↦ write_all plan.upgrades f
  ]
