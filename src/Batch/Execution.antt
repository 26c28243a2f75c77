-- ===== src/Batch/Execution.antt =====
-- Executing a plan, and preparing its binaries.
use wemixvisor.Base.{
  ◌≡◌, refl, none, some, Bool, List, [], ◌∷◌, arith, Option-cases, Bool-cases, inl, inr,
}
use wemixvisor.Types.{UpgradeInfo}
use wemixvisor.Batch.{UpgradePlan, validate_plan, write_all, execute_plan}

module _ {F : Type 0} (write_upgrade_info : UpgradeInfo → F → F × Bool) where
  -- the files after the upgrades were written one after the other
  abbrev pub written : List UpgradeInfo → F → F
  written [] f = f
  written (u ∷ us) f = written us (write_upgrade_info u f).0

  write_all_ok :
      (us : List UpgradeInfo) (f : F)
      → (write_all write_upgrade_info us f).1 ≡ none
      → (write_all write_upgrade_info us f).0 ≡ written us f
  unfolding write_all
  write_all_ok [] f h = refl
  write_all_ok (u ∷ us) f h = elim (Bool-cases ((write_upgrade_info u f).1)) [
    | inl e ↦ rw (e, write_all) (write_all_ok us (write_upgrade_info u f).0 (ground (arith, h)))
    | inr e ↦ absurd (ground (arith, h))
  ]

  -- If the execution of a plan reports no error, the plan was valid and the files of all its
  -- upgrades were written, in the order of the plan.
  pub execute_plan_sound :
      (plan : UpgradePlan) (f : F)
      → (execute_plan write_upgrade_info plan f).1 ≡ none
      → (validate_plan (some plan) ≡ none)
        × ((execute_plan write_upgrade_info plan f).0 ≡ written plan.upgrades f)
  unfolding execute_plan
  execute_plan_sound plan f h = elim (Option-cases (validate_plan (some plan))) [
    | inl e ↦ (e, rw (e, execute_plan) (write_all_ok plan.upgrades f (rw (e, execute_plan) at h)))
    | inr (x, e) ↦ absurd (ground (arith, h))
  ]
