-- ===== src/Wbft/Checks.antt =====
-- Runs of the coordinator, and its theorems at concrete inputs.
use wemixvisor.Base.{
  ◌≡◌, ◌↔◌, ◌≤◌, ◌⊎◌, refl, inl, inr, Option, some, none, List, [], ◌∷◌, ◌++◌, In, All, true, false,
  Bool, str_dec,
}
use wemixvisor.Base.Int.{ℤ, pos}
use wemixvisor.Types.{UpgradeInfo}
use wemixvisor.Batch.{UpgradePlan, get_next_upgrade, validate_plan, find_duplicate, find_disorder}
use wemixvisor.Wbft.{
  ConsensusState, Coordinator, load_plan, prepare_upgrade, approach, on_state, on_states,
  monitor_and_coordinate, completed, wait_for_participation, count_rounds,
}
use wemixvisor.Wbft.Preparation.{IsEarly, on_states-IsEarly, on_states-written}

abbrev upgrade : UpgradeInfo
upgrade = record { name = "v2"; height = pos 100; info = "" }

abbrev plan : UpgradePlan
plan = record { version = "1.0"; name = "spring"; description = ""; upgrades = upgrade ∷ [] }

abbrev at : ℤ → ConsensusState
at h = record {
  height = h;
  round = pos 0;
  is_validator = true;
  is_syncing = false;
  catching_up = false;
}

abbrev in_round : ℤ → Option ConsensusState
in_round r = some (record (at (pos 100)) { round = r })

abbrev idle : Coordinator
idle = record {
  validator_mode = true;
  active_plan = some plan;
  written = [];
  triggered = [];
  participated = [];
}

abbrev seen : List (Option ConsensusState × List (Option ConsensusState))
seen =
    (some (at (pos 50)), [])
    ∷ (none, [])
    ∷ (some (at (pos 95)), [])
    ∷ (some (at (pos 100)), [])
    ∷ []

prepares_only :
    monitor_and_coordinate (λ u. true) true (some (pos 50)) seen idle
    ≡ completed (record idle { written = (pos 95, upgrade) ∷ [] })
unfolding monitor_and_coordinate on_states on_state approach prepare_upgrade get_next_upgrade
prepares_only = refl

loads : (load_plan (some plan) idle).1 ≡ true
unfolding load_plan validate_plan find_duplicate find_disorder str_dec wemixvisor.Base.contains
loads = refl

on_states-IsEarly_example :
    ((on_states (λ u. true) plan seen idle).0.triggered ≡ [])
    × All (IsEarly plan) (on_states (λ u. true) plan seen idle).0.written
on_states-IsEarly_example = on_states-IsEarly (λ u. true) plan seen idle refl

far_away : (on_states (λ u. true) plan ((some (at (pos 50)), []) ∷ []) idle).1 ≡ false
unfolding on_states on_state approach get_next_upgrade
far_away = refl

next_is_upgrade : get_next_upgrade plan.upgrades (pos 95) ≡ some upgrade
unfolding get_next_upgrade
next_is_upgrade = refl

on_states-written_example :
    In
      (pos 95, upgrade)
      (on_states
        (λ u. true)
        plan
        (((some (at (pos 50)), []) ∷ []) ++ (some (at (pos 95)), []) ∷ (none, []) ∷ [])
        idle).0.written
on_states-written_example =
    on_states-written (λ u. true) plan ((some (at (pos 50)), []) ∷ []) ((none, []) ∷ [])
      (at (pos 95)) [] upgrade idle far_away next_is_upgrade refl refl

participates_thrice :
    wait_for_participation
      (at (pos 100))
      (in_round (pos 1) ∷ none ∷ in_round (pos 1) ∷ in_round (pos 2) ∷ [])
    ≡ true
unfolding wait_for_participation count_rounds
participates_thrice = refl
