-- ===== src/Batch/Checks.antt =====
-- Tests of the batch plans, and their theorems at concrete inputs.
use mathlib.Core.List.{Perm}
use wemixvisor.Base.{
  ◌↔◌, Distinct, none, ◌≡◌, ◌≢◌, refl, String, some, true, Bool, List, [], ◌∷◌, All, arith, str_dec,
  contains,
}
use text.Mathlib.TextEquality.{eq_iff}
use wemixvisor.Base.Int.{ℤ, pos, ◌<ℤ◌}
use wemixvisor.Base.Sort.{sort}
use wemixvisor.Types.{UpgradeInfo}
use wemixvisor.Batch.{
  wrong_order, UpgradePlan, ok, err, not_increasing, duplicate_name, check_upgrades, create_plan,
  find_duplicate, find_disorder, validate_plan, get_next_upgrade, get_upgrade_by_height,
  count_upgrades, get_plan_status, write_all, execute_plan,
}
use wemixvisor.Batch.Plans.{IsIncreasing, names_of, create_plan_sound, validate_plan-create_plan}

program : Unit {0}
unfolding check_upgrades create_plan find_duplicate find_disorder validate_plan get_next_upgrade
    get_upgrade_by_height count_upgrades get_plan_status write_all execute_plan contains str_dec
    sort
program = tt

abbrev at : String → ℤ → UpgradeInfo
at n h = record { name = n; height = h; info = "" }

abbrev plan_of : List UpgradeInfo → UpgradePlan
plan_of us = record { version = "1.0"; name = "spring"; description = ""; upgrades = us }

abbrev given : List UpgradeInfo
given = at "b" (pos 20) ∷ at "a" (pos 10) ∷ []

abbrev ordered : List UpgradeInfo
ordered = at "a" (pos 10) ∷ at "b" (pos 20) ∷ []

created : create_plan (λ p. true) "spring" "" given ≡ ok (plan_of ordered)
unfolding program
created = refl

same_height :
    create_plan (λ p. true) "spring" "" (at "b" (pos 10) ∷ at "a" (pos 10) ∷ [])
    ≡ err not_increasing
unfolding program
same_height = refl

-- A name that stands twice is accepted by the creation and refused by the validation.
twice_created :
    create_plan (λ p. true) "spring" "" (at "a" (pos 10) ∷ at "a" (pos 20) ∷ [])
    ≡ ok (plan_of (at "a" (pos 10) ∷ at "a" (pos 20) ∷ []))
unfolding program
twice_created = refl

twice_invalid :
    validate_plan (some (plan_of (at "a" (pos 10) ∷ at "a" (pos 20) ∷ [])))
    ≡ some (duplicate_name "a")
unfolding program
twice_invalid = refl

ordered-IsIncreasing : IsIncreasing ordered
ordered-IsIncreasing = omega arith

ordered_named : All (λ u. u.name ≢ "") ordered
ordered_named = (ground (arith, eq_iff "a" ""), (ground (arith, eq_iff "b" ""), tt))

create_plan_sound_example :
    Perm ordered given
    × IsIncreasing ordered
    × All (λ u. (u.name ≢ "") × (pos 0 <ℤ u.height)) ordered
create_plan_sound_example =
    create_plan_sound (λ p. true) "spring" "" given (plan_of ordered) created

validate_plan-create_plan_example :
    ((validate_plan (some (plan_of ordered)) ≡ none)
      ↔ ((◌≢◌ {A = String} "spring" "") × (ordered ≢ []) × Distinct (names_of ordered)))
    × ((a b : String) → validate_plan (some (plan_of ordered)) ≢ some (wrong_order a b))
validate_plan-create_plan_example =
    validate_plan-create_plan (λ p. true) "spring" "" given (plan_of ordered) created

-- the files as the list of what was written, the last one first
abbrev log : UpgradeInfo → List UpgradeInfo → List UpgradeInfo × Bool
log u f = (u ∷ f, true)
