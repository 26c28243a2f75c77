-- ===== src/Orchestrator.antt =====
-- The upgrade orchestrator of internal/orchestrator/orchestrator.go over the `NodeManager` interface
-- of internal/orchestrator/interfaces.go. A node manager is a parameter: its state and what `Stop`
-- and `Start` make of it. A channel receive of `monitorHeights` is a call of `on_height`; the upgrades that
-- other goroutines schedule while it executes are an argument. The contexts are left out.
use wemixvisor.Base.{
  ◌≡◌, Option, none, some, Bool, true, false, List, [], ◌∷◌, String, str_eq, if◌then◌else◌,
}
use wemixvisor.Base.Int.{ℤ, pos, ltb_ℤ, leb_ℤ}
use wemixvisor.Height.{HeightMonitor, subscribe}
use wemixvisor.Types.{UpgradeInfo}
use wemixvisor.Watcher.{FileWatcher, clear_update_flag}
pub mod Heights
pub mod Nodes
pub mod Files
mod Checks

-- The flags tell whether the call succeeds.
pub record NodeManager (N : Type 0) : Type 0 where
  pub stop_node : N → N × Bool
  pub start_node : List String → N → N × Bool

pub record Orchestrator (N : Type 0) : Type 0 where
  pub node : N
  pub pending_upgrade : Option UpgradeInfo
  pub upgrading : Bool
  pub started : Bool

pub data UpgradeError : Type 0 where
  in_progress empty_name height_not_positive height_exceeded : UpgradeError
  stop_failed switch_failed start_failed : UpgradeError

-- The flag tells whether the orchestrator was started.
unfoldable pub start :
    {N : Type 0} → HeightMonitor → Orchestrator N → HeightMonitor × Orchestrator N × Bool
start m o = if o.started then (m, o, false) else (subscribe m, record o { started = true }, true)

unfoldable pub schedule_upgrade : {N : Type 0} → UpgradeInfo → Orchestrator N → Orchestrator N
schedule_upgrade u o = record o { pending_upgrade = some u }

-- one tick of `watchUpgradeConfigs`
unfoldable pub watch_tick :
    {N : Type 0} → FileWatcher → Orchestrator N → FileWatcher × Orchestrator N
watch_tick w o =
    if w.needs_update
    then elim w.current_info [
      | none ↦ (w, o)
      | some u ↦ (clear_update_flag w, schedule_upgrade u o)
    ]
    else (w, o)

unfoldable pub validate_upgrade : UpgradeInfo → ℤ → Option UpgradeError
validate_upgrade u current =
    if str_eq u.name ""
    then some empty_name
    else if leb_ℤ u.height (pos 0)
    then some height_not_positive
    else if ltb_ℤ u.height current
    then some height_exceeded
    else none

unfoldable pub switch_binary : String → Bool
switch_binary name = true

module _ {N : Type 0} (M : NodeManager N) where
  -- the steps of `executeUpgrade` between the two writes of its flag
  unfoldable pub execute_steps : UpgradeInfo → ℤ → N → N × Option UpgradeError
  execute_steps u current n = elim (validate_upgrade u current) [
    | some e ↦ (n, some e)
    | none ↦
        let (stopped, stop_ok) = M.stop_node n in
        let (running, start_ok) = M.start_node [] stopped in
        if stop_ok
        then if switch_binary u.name
          then if start_ok then (running, none) else (running, some start_failed)
          else (stopped, some switch_failed)
        else (stopped, some stop_failed)
  ]

  unfoldable pub execute_upgrade :
      UpgradeInfo → ℤ → Orchestrator N → Orchestrator N × Option UpgradeError
  execute_upgrade u current o =
      let (n, e) = execute_steps u current o.node in
      if o.upgrading then (o, some in_progress) else (record o { node = n; upgrading = false }, e)

  unfoldable pub rollback : Orchestrator N → Orchestrator N × Option UpgradeError
  rollback o =
      let (n, ok) = M.start_node [] o.node in
      if switch_binary "genesis"
      then (record o { node = n }, if ok then none else some start_failed)
      else (o, some switch_failed)

  unfoldable pub schedule_all : List UpgradeInfo → Orchestrator N → Orchestrator N
  schedule_all [] o = o
  schedule_all (u ∷ us) o = schedule_all us (schedule_upgrade u o)

  -- A height that `monitorHeights` receives; `during` is what is scheduled while the upgrade executes.
  unfoldable pub on_height : List UpgradeInfo → ℤ → Orchestrator N → Orchestrator N
  on_height during h o = elim o.pending_upgrade [
    | none ↦ o
    | some u ↦
        let (executed, e) = execute_upgrade u h o in
        let finished : Orchestrator N = elim e [
          | none ↦ executed
          | some x ↦ (rollback executed).0
        ] in
        if o.upgrading
        then o
        else if leb_ℤ u.height h
        then record (schedule_all during finished) { pending_upgrade = none }
        else o
  ]

  unfoldable pub on_heights : List (ℤ × List UpgradeInfo) → Orchestrator N → Orchestrator N
  on_heights [] o = o
  on_heights ((h, during) ∷ rest) o = on_heights rest (on_height during h o)
