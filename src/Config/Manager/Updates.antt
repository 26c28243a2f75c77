-- ===== src/Config/Manager/Updates.antt =====
-- What an update of the configuration leaves behind, on every branch.
use wemixvisor.Base.{
  ◌≡◌, refl, sym, Option, none, some, Bool, arith, Option-cases, Bool-cases, inl, inr,
}
use mathlib.Core.Path.{subst}
use wemixvisor.Config.{Config}
use wemixvisor.Config.Validator.{Verdict, accepted, nil_config, refused}
use wemixvisor.Config.Manager.{
  WemixvisorConfig, NodeConfig, Manager, UpdateError, split_config, save_config, save_or_restore,
  update_field, finish_update, update_config, field_not_set,
}

abbrev pub Result : Type 0
Result = Manager × Option UpdateError

module _ (validate : Option Config → Verdict) (saves : WemixvisorConfig → NodeConfig → Bool) where
  abbrev pub IsExact : (Config → Option Config) → Manager → Result → Type 0
  IsExact set_field m (after, some e) =
      (after.merged_config ≡ m.merged_config) × (after.saved ≡ m.saved)
  IsExact set_field m (after, none) =
      (set_field m.merged_config ≡ some after.merged_config)
      × ((validate (some after.merged_config) ≡ accepted)
          × (after.saved ≡ some (after.wemixvisor_config, after.node_config)))

  save_or_restore-IsExact :
      (set_field : Config → Option Config) (m after : Manager)
      → set_field m.merged_config ≡ some after.merged_config
      → validate (some after.merged_config) ≡ accepted
      → after.saved ≡ m.saved
      → IsExact set_field m (save_or_restore validate saves m.merged_config after)
  unfolding save_or_restore save_config
  save_or_restore-IsExact set_field m after set valid same =
      elim (Bool-cases (saves after.wemixvisor_config after.node_config)) [
        | inl e ↦ rw e (set, (valid, refl))
        | inr e ↦ rw e (refl, same)
      ]

  finish_update-IsExact :
      (set_field : Config → Option Config) (m after : Manager) (v : Verdict)
      → set_field m.merged_config ≡ some after.merged_config
      → validate (some after.merged_config) ≡ v
      → after.saved ≡ m.saved
      → IsExact set_field m (finish_update validate saves m.merged_config v after)
  unfolding finish_update
  finish_update-IsExact set_field m after accepted set valid same =
      save_or_restore-IsExact set_field m after set valid same
  finish_update-IsExact set_field m after nil_config set valid same = (refl, same)
  finish_update-IsExact set_field m after (refused errors) set valid same = (refl, same)

  with_field : Manager → Config → Manager
  with_field m c = split_config (record m { merged_config = c })

  update_config-unset :
      (set_field : Config → Option Config) (m : Manager)
      → set_field m.merged_config ≡ none
      → update_config validate saves set_field m ≡ (m, some field_not_set)
  unfolding update_config update_field
  update_config-unset set_field m e = ground (arith, e)

  update_config-set :
      (set_field : Config → Option Config) (m : Manager) (c : Config)
      → set_field m.merged_config ≡ some c
      → update_config validate saves set_field m
        ≡ finish_update validate saves m.merged_config (validate (some c)) (with_field m c)
  unfolding update_config update_field split_config with_field
  update_config-set set_field m c e = ground (arith, e)

  -- An update of a field that fails, at the field, the validation or the file, leaves the merged
  -- configuration and the file as they were. One that succeeds has the merged configuration that
  -- setting the field gives, which the validator accepts, and the file has both parts.
  pub update_config-IsExact :
      (set_field : Config → Option Config) (m : Manager)
      → IsExact set_field m (update_config validate saves set_field m)
  unfolding with_field split_config
  update_config-IsExact set_field m = elim (Option-cases (set_field m.merged_config)) [
    | inl e ↦ subst (IsExact set_field m) (sym (update_config-unset set_field m e)) (refl, refl)
    | inr (c, e) ↦
        subst (IsExact set_field m) (sym (update_config-set set_field m c e))
          (finish_update-IsExact set_field m (with_field m c) (validate (some c)) e refl refl)
  ]
