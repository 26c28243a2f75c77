-- ===== src/Batch/Plans.antt =====
-- Which plans are created, and which of them are valid.
use wemixvisor.Base.{
  ℕ, suc, ◌≡◌, ◌≢◌, ◌↔◌, sym, refl, String, Option, none, some, Bool, true, false, List, [], ◌∷◌,
  All, arith, contains, Distinct,
}
use wemixvisor.Base.Int.{pos, ◌<ℤ◌}
use wemixvisor.Base.Sort.{sort, sort-perm}
use mathlib.Core.List.{Perm}
use wemixvisor.Types.{UpgradeInfo}
use wemixvisor.Batch.{
  UpgradePlan, ok, lower, check_upgrades, create_plan, find_duplicate, find_disorder, validate_plan,
  wrong_order,
}

-- The heights go up from one upgrade to the next.
abbrev pub IsIncreasing : List UpgradeInfo → Type 0
IsIncreasing [] = Unit
IsIncreasing (u ∷ us) = All (λ v. u.height <ℤ v.height) us × IsIncreasing us

abbrev Behind : Option UpgradeInfo → UpgradeInfo → Type 0
Behind none u = Unit
Behind (some before) u = before.height <ℤ u.height

Behind-trans :
    (u : UpgradeInfo) (us : List UpgradeInfo) (b : Option UpgradeInfo)
    → Behind b u
    → All (λ v. u.height <ℤ v.height) us
    → All (Behind b) us
Behind-trans u [] b h k = tt
Behind-trans u (v ∷ us) none h k = (tt, Behind-trans u us none h k.1)
Behind-trans u (v ∷ us) (some w) h k = (omega (arith, k.0), Behind-trans u us (some w) h k.1)

check_upgrades_sound :
    (i : ℕ) (before : Option UpgradeInfo) (us : List UpgradeInfo)
    → check_upgrades i before us ≡ none
    → All (λ u. (u.name ≢ "") × (pos 0 <ℤ u.height)) us × IsIncreasing us × All (Behind before) us
unfolding check_upgrades
check_upgrades_sound i before [] h = (tt, tt, tt)
check_upgrades_sound i none (u ∷ us) h =
    let (good, up, behind) = check_upgrades_sound (suc i) (some u) us (ground arith) in
    (((ground arith, ground arith), good), (behind, up), (tt, Behind-trans u us none tt behind))
check_upgrades_sound i (some b) (u ∷ us) h =
    let (good, up, behind) = check_upgrades_sound (suc i) (some u) us (ground arith) in
    let first : b.height <ℤ u.height = ground arith in
    (
      ((ground arith, ground arith), good),
      (behind, up),
      (first, Behind-trans u us (some b) first behind),
    )

-- A plan that is created holds the given upgrades, rearranged so that the heights strictly go up;
-- every upgrade has a name and a positive height.
pub create_plan_sound :
    (saves : UpgradePlan → Bool) (name description : String) (us : List UpgradeInfo)
    (plan : UpgradePlan)
    → create_plan saves name description us ≡ ok plan
    → Perm plan.upgrades us
      × IsIncreasing plan.upgrades
      × All (λ u. (u.name ≢ "") × (pos 0 <ℤ u.height)) plan.upgrades
unfolding create_plan
create_plan_sound saves name description us plan h =
    let us' = sort lower us in
    let made : plan.upgrades ≡ us' = ground arith in
    let (good, up, behind) = check_upgrades_sound 0 none us' (ground arith) in
    (rw made (sort-perm lower us), rw made up, rw made good)

abbrev pub names_of : List UpgradeInfo → List String
names_of [] = []
names_of (u ∷ us) = u.name ∷ names_of us

find_duplicate_sound :
    (seen : List String) (us : List UpgradeInfo)
    → find_duplicate seen us ≡ none
    → ((k : String) → contains k seen ≡ true → contains k (names_of us) ≡ false)
      × Distinct (names_of us)
unfolding find_duplicate contains
find_duplicate_sound seen [] h = (λ k c. refl, tt)
find_duplicate_sound seen (u ∷ us) h =
    let (apart, distinct) = find_duplicate_sound (u.name ∷ seen) us (ground arith) in
    (λ k c. ground (arith, apart k), (ground (arith, apart u.name), distinct))

find_disorder_sound : (us : List UpgradeInfo) → find_disorder us ≡ none → IsIncreasing us
unfolding find_disorder
find_disorder_sound [] h = tt
find_disorder_sound (u ∷ []) h = (tt, tt)
find_disorder_sound (u ∷ v ∷ us) h =
    let rest = find_disorder_sound (v ∷ us) (ground arith) in
    let first : u.height <ℤ v.height = ground arith in
    ((first, Behind-trans v us (some u) first rest.0), rest)

-- A plan that passes the validation has a name, has upgrades, no two of them have the same name,
-- and their heights strictly go up.
pub validate_plan_sound :
    (plan : UpgradePlan)
    → validate_plan (some plan) ≡ none
    → (plan.name ≢ "")
      × (plan.upgrades ≢ [])
      × Distinct (names_of plan.upgrades)
      × IsIncreasing plan.upgrades
unfolding validate_plan
validate_plan_sound plan h = (
  ground arith,
  ground arith,
  (find_duplicate_sound [] plan.upgrades (ground arith)).1,
  find_disorder_sound plan.upgrades (ground arith),
)

find_disorder-none : (us : List UpgradeInfo) → IsIncreasing us → find_disorder us ≡ none
unfolding find_disorder
find_disorder-none [] h = refl
find_disorder-none (u ∷ []) h = refl
find_disorder-none (u ∷ v ∷ us) h = ground (arith, find_disorder-none (v ∷ us) h.1)

name-create_plan :
    (saves : UpgradePlan → Bool) (name description : String) (us : List UpgradeInfo)
    (plan : UpgradePlan)
    → create_plan saves name description us ≡ ok plan
    → plan.name ≡ name
unfolding create_plan
name-create_plan saves name description us plan h = ground arith

find_duplicate-none :
    (seen : List String) (us : List UpgradeInfo)
    → ((k : String) → contains k seen ≡ true → contains k (names_of us) ≡ false)
    → Distinct (names_of us)
    → find_duplicate seen us ≡ none
unfolding find_duplicate contains
find_duplicate-none seen [] apart d = refl
find_duplicate-none seen (u ∷ us) apart d = ground (
  arith,
  apart u.name,
  d.0,
  find_duplicate-none (u.name ∷ seen) us (λ k c. ground (arith, apart k, d.0)) d.1,
)

find_duplicate-order :
    (seen : List String) (us : List UpgradeInfo) (a b : String)
    → find_duplicate seen us ≢ some (wrong_order a b)
unfolding find_duplicate
find_duplicate-order seen [] a b e = cc e
find_duplicate-order seen (u ∷ us) a b e =
    ground (arith, find_duplicate-order (u.name ∷ seen) us a b)

-- A plan with a name, with upgrades of different names and with heights that go up passes.
validate_plan-none :
    (plan : UpgradePlan)
    → plan.name ≢ ""
    → plan.upgrades ≢ []
    → Distinct (names_of plan.upgrades)
    → IsIncreasing plan.upgrades
    → validate_plan (some plan) ≡ none
unfolding validate_plan contains
validate_plan-none plan named some_upgrades d up = ground (
  arith,
  named,
  some_upgrades,
  find_duplicate-none [] plan.upgrades (λ k c. cc c) d,
  find_disorder-none plan.upgrades up,
)

validate_plan-order :
    (plan : UpgradePlan) (a b : String)
    → IsIncreasing plan.upgrades
    → validate_plan (some plan) ≢ some (wrong_order a b)
unfolding validate_plan
validate_plan-order plan a b up e =
    ground (arith, find_duplicate-order [] plan.upgrades a b, find_disorder-none plan.upgrades up)

-- A plan that was created passes the validation just when its name is not empty, it has upgrades,
-- and no two of them have the same name, none of which the creation looks for; and the validation
-- never finds its heights out of order.
pub validate_plan-create_plan :
    (saves : UpgradePlan → Bool) (name description : String) (us : List UpgradeInfo)
    (plan : UpgradePlan)
    → create_plan saves name description us ≡ ok plan
    → ((validate_plan (some plan) ≡ none)
        ↔ ((name ≢ "") × (plan.upgrades ≢ []) × Distinct (names_of plan.upgrades)))
      × ((a b : String) → validate_plan (some plan) ≢ some (wrong_order a b))
validate_plan-create_plan saves name description us plan h =
    let (_, up, _) = create_plan_sound saves name description us plan h in
    let named = name-create_plan saves name description us plan h in
    (
      (
        λ ok.
            let (n, some_upgrades, d, _) = validate_plan_sound plan ok in
            (rw (sym named) n, some_upgrades, d),
        λ p. validate_plan-none plan (rw named p.0) p.1 p.2 up,
      ),
      λ a b. validate_plan-order plan a b up,
    )
