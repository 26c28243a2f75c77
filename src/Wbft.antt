-- ===== src/Wbft.antt =====
-- The coordinator of internal/wbft/coordinator.go, and the two waits of internal/wbft/client.go that
-- it uses. The answers of the RPC client are arguments, `none` for an error; a list of answers is
-- what the ticks until the timeout bring. The writes of the upgrade file and the calls of
-- `triggerUpgrade`, which only logs, are kept in the state. Logging is left out.
use wemixvisor.Base.{
  ℕ, suc, ◌+◌, Option, none, some, Bool, true, false, not, ◌&&◌, ◌||◌, List, [], ◌∷◌, ◌++◌, is_some,
  leb, if◌then◌else◌, String,
}
use wemixvisor.Base.Int.{ℤ, pos, ◌-ℤ◌, ltb_ℤ, leb_ℤ}
use wemixvisor.Types.{UpgradeInfo}
use wemixvisor.Batch.{UpgradePlan, get_next_upgrade, validate_plan}
pub mod Preparation
pub mod Waiting
mod Checks

pub record ConsensusState : Type 0 where
  pub height : ℤ
  pub round : ℤ
  pub is_validator : Bool
  pub is_syncing : Bool
  pub catching_up : Bool

pub record Coordinator : Type 0 where
  pub validator_mode : Bool
  pub active_plan : Option UpgradePlan
  -- the upgrade infos that were written, with the height at which this was done
  pub written : List (ℤ × UpgradeInfo)
  pub triggered : List UpgradeInfo
  pub participated : List Bool

-- `loaded` is what the batch manager reads from the file
unfoldable pub load_plan : Option UpgradePlan → Coordinator → Coordinator × Bool
load_plan loaded c = elim loaded [
  | none ↦ (c, false)
  | some plan ↦
      if is_some (validate_plan (some plan))
      then (c, false)
      else (record c { active_plan = some plan }, true)
]

-- `Client.CheckReadiness`; the second argument is the answer of `IsValidator`
unfoldable pub check_readiness : Bool → Option ConsensusState → Option Bool → Bool
check_readiness validator_mode none answer = false
check_readiness validator_mode (some s) answer =
    not (s.is_syncing || s.catching_up) && (not validator_mode || is_some answer)

-- the loop of `waitForConsensusParticipation`, with the rounds counted so far
unfoldable pub count_rounds : ConsensusState → ℕ → List (Option ConsensusState) → Bool
count_rounds s n [] = false
count_rounds s n (none ∷ answers) = count_rounds s n answers
count_rounds s n (some t ∷ answers) =
    let later = count_rounds s (suc n) answers in
    let same = count_rounds s n answers in
    if t.is_validator && ltb_ℤ s.round t.round
    then (if leb 3 (suc n) then true else later)
    else same

unfoldable pub wait_for_participation : ConsensusState → List (Option ConsensusState) → Bool
wait_for_participation s answers = if s.is_validator then count_rounds s 0 answers else true

-- the loop of `Client.WaitForHeight`
unfoldable pub wait_for_height : ℤ → List (Option ℤ) → Bool
wait_for_height target [] = false
wait_for_height target (none ∷ answers) = wait_for_height target answers
wait_for_height target (some h ∷ answers) =
    let later = wait_for_height target answers in if leb_ℤ target h then true else later

unfoldable pub wait_for_upgrade_height : UpgradeInfo → Option ℤ → List (Option ℤ) → Bool
wait_for_upgrade_height u none answers = false
wait_for_upgrade_height u (some h) answers =
    if leb_ℤ (u.height -ℤ h) (pos 0) then true else wait_for_height u.height answers

module _ (write_ok : UpgradeInfo → Bool) where
  -- The validator check of `prepareUpgrade` only logs.
  unfoldable pub prepare_upgrade : ℤ → UpgradeInfo → Coordinator → Coordinator
  prepare_upgrade height u c =
      if write_ok u then record c { written = c.written ++ (height, u) ∷ [] } else c

  unfoldable pub trigger_upgrade : UpgradeInfo → Coordinator → Coordinator
  trigger_upgrade u c = record c { triggered = c.triggered ++ u ∷ [] }

  -- what `MonitorAndCoordinate` does at a state with a next upgrade
  unfoldable pub approach :
      List (Option ConsensusState) → ConsensusState → UpgradeInfo → Coordinator → Coordinator
  approach answers s u c =
      let blocks = u.height -ℤ s.height in
      let near = leb_ℤ blocks (pos 100) && ltb_ℤ (pos 0) blocks && leb_ℤ blocks (pos 10) in
      let prepared = if near then prepare_upgrade s.height u c else c in
      let waited = record prepared {
        participated = prepared.participated ++ wait_for_participation s answers ∷ [];
      } in
      if leb_ℤ u.height s.height
      then trigger_upgrade u (if c.validator_mode then waited else prepared)
      else prepared

  -- one state received by the loop of `MonitorAndCoordinate`; the flag tells that it returns
  unfoldable pub on_state :
      UpgradePlan
      → Option ConsensusState × List (Option ConsensusState)
      → Coordinator
      → Coordinator × Bool
  on_state plan (none, answers) c = (c, false)
  on_state plan (some s, answers) c = elim (get_next_upgrade plan.upgrades s.height) [
    | none ↦ (c, true)
    | some u ↦ (approach answers s u c, false)
  ]

  unfoldable pub on_states :
      UpgradePlan
      → List (Option ConsensusState × List (Option ConsensusState))
      → Coordinator
      → Coordinator × Bool
  on_states plan [] c = (c, false)
  on_states plan (s ∷ states) c =
      let (c', done) = on_state plan s c in
      let rest = on_states plan states c' in if done then (c', true) else rest

  pub data Outcome : Type 0 where
    no_plan not_ready no_height : Outcome
    -- the context ends before the plan does
    cancelled completed : Coordinator → Outcome

  unfoldable pub monitor_and_coordinate :
      Bool
      → Option ℤ
      → List (Option ConsensusState × List (Option ConsensusState))
      → Coordinator
      → Outcome
  monitor_and_coordinate ready height states c = elim c.active_plan [
    | none ↦ no_plan
    | some plan ↦
        if not ready
        then not_ready
        else if not (is_some height)
        then no_height
        else let (c', done) = on_states plan states c in if done then completed c' else cancelled c'
  ]
