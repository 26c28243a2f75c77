-- ===== src/Governance/Monitor.antt =====
-- The governance monitor of internal/governance/monitor.go: what the three loops do at each tick.
-- The answers of the RPC client and the write of the upgrade file are arguments; the notifications
-- are kept as the list of the calls of the notifier. Logging is left out. `triggerUpgrade` writes
-- the name and the height of an upgrade to the file that the upgrade file watcher reads.
use wemixvisor.Base.{
  ℕ, String, Option, none, some, Bool, true, false, List, [], ◌∷◌, ◌++◌, str_eq, is_some,
  if◌then◌else◌, ◌&&◌,
}
use wemixvisor.Base.Int.{ℤ, leb_ℤ}
use wemixvisor.Base.GoMap.{GoMap}
use wemixvisor.Governance.{
  ProposalType, ProposalStatus, UpgradeStatus, UpgradeInfo, BinaryInfo, Proposal,
}
use wemixvisor.Governance.Proposals.{
  ProposalTracker, fetch_latest, get_active, update_voting_status,
}
use wemixvisor.Governance.Scheduler.{
  Scheduler, SchedulerError, is_upgrade, is_scheduled, schedule_upgrade, get_queue, update_status,
  assign,
}
pub mod Voting
pub mod Queue
pub mod Validation
mod Checks

pub data Notification : Type 0 where
  new_proposal : String → Notification
  upgrade_scheduled : String → Notification
  upgrade_triggered : String → ℤ → Notification

pub record Monitor : Type 0 where
  pub tracker : ProposalTracker
  pub scheduler : Scheduler
  pub notifications : List Notification
  pub upgrade_file : Option (String × ℤ)

pub data ProposalError : Type 0 where
  missing_info no_height not_in_future : ProposalError
  missing_url missing_checksum : String → ProposalError

unfoldable pub check_binaries : GoMap BinaryInfo → Option ProposalError
check_binaries [] = none
check_binaries ((platform, b) ∷ m) =
    let rest = check_binaries m in
    if str_eq b.url ""
    then some (missing_url platform)
    else if str_eq b.checksum ""
    then some (missing_checksum platform)
    else rest

-- `height` is what `GetCurrentHeight` returns, `none` for an error. A monitor that was started has a
-- client.
unfoldable pub validate_upgrade_proposal : Option ℤ → Proposal → Option ProposalError
validate_upgrade_proposal height p = elim p.upgrade_info [
  | none ↦ some missing_info
  | some u ↦ elim height [
    | none ↦ some no_height
    | some current ↦
        if leb_ℤ p.upgrade_height current then some not_in_future else check_binaries u.binaries
  ]
]

unfoldable pub notify : Notification → Monitor → Monitor
notify n m = record m { notifications = m.notifications ++ n ∷ [] }

-- the loop of `checkNewProposals`; the validation of a proposal is only logged
unfoldable pub notify_new : List Proposal → Monitor → Monitor
notify_new [] m = m
notify_new (p ∷ ps) m =
    notify_new ps (if is_upgrade p.kind then notify (new_proposal p.id) m else m)

unfoldable pub check_new_proposals :
    ℤ → (ProposalStatus → Option (List Proposal)) → Monitor → Monitor
check_new_proposals now client m =
    let (t, found) = fetch_latest now client m.tracker in
    notify_new found (record m { tracker = t })

abbrev pub is_passed : ProposalStatus → Bool
is_passed ProposalStatus.passed = true
is_passed _ = false

-- the name in `proposal.UpgradeInfo`, which a scheduled proposal has
abbrev upgrade_name : Proposal → String
upgrade_name p = elim p.upgrade_info [ none ↦ "" | some u ↦ u.name ]

-- `Check if proposal passed`
unfoldable pub schedule_passed : ℤ → Proposal → Monitor → Monitor
schedule_passed now p m =
    let (s, error) = schedule_upgrade now p m.scheduler in
    let m' = record m { scheduler = s } in
    if is_passed p.status && is_upgrade p.kind
    then (if is_some error then m' else notify (upgrade_scheduled (upgrade_name p)) m')
    else m

-- the loop of `checkVotingProgress`; `get_proposal` is the client's answer for an id
unfoldable pub check_voting : ℤ → (String → Option Proposal) → List Proposal → Monitor → Monitor
check_voting now get_proposal [] m = m
check_voting now get_proposal (p ∷ ps) m =
    let (t, ok) = update_voting_status p.id (get_proposal p.id) m.tracker in
    let m' = record m { tracker = t } in
    check_voting now get_proposal ps (if ok then schedule_passed now p m' else m')

unfoldable pub check_voting_progress : ℤ → (String → Option Proposal) → Monitor → Monitor
check_voting_progress now get_proposal m = check_voting now get_proposal (get_active m.tracker) m

abbrev pub notify_triggered : UpgradeInfo → Monitor → Monitor
notify_triggered u m = notify (upgrade_triggered u.name u.height) m

-- `triggerUpgrade`; `write_ok` tells whether the file can be written
unfoldable pub trigger_upgrade : (UpgradeInfo → Bool) → UpgradeInfo → Monitor → Monitor × Bool
trigger_upgrade write_ok u m =
    if write_ok u
    then (notify_triggered u (record m { upgrade_file = some (u.name, u.height) }), true)
    else (m, false)

-- an upgrade that is due, in the loop of `processUpgradeQueue`
unfoldable pub process_due : ℤ → (UpgradeInfo → Bool) → ℕ → Monitor → Monitor
process_due now write_ok p m =
    let u = m.scheduler.heap p in
    let (m', ok) = trigger_upgrade write_ok u m in
    let status = if ok then UpgradeStatus.in_progress else UpgradeStatus.failed in
    let m'' = if ok then notify_triggered u m' else m' in
    let s = assign p (record u { status = status }) m.scheduler in
    record m'' { scheduler = (update_status now u.name status s).0 }

abbrev pub is_due : ℤ → UpgradeInfo → Bool
is_due current u = leb_ℤ u.height current && is_scheduled u.status

unfoldable pub process_queue : ℤ → ℤ → (UpgradeInfo → Bool) → List ℕ → Monitor → Monitor
process_queue now current write_ok [] m = m
process_queue now current write_ok (p ∷ ps) m =
    process_queue now current write_ok ps
      (if is_due current (m.scheduler.heap p) then process_due now write_ok p m else m)

-- the flag tells that there was an error
unfoldable pub process_upgrade_queue :
    ℤ → Option ℤ → (UpgradeInfo → Bool) → Monitor → Monitor × Bool
process_upgrade_queue now height write_ok m = elim height [
  | none ↦ (m, false)
  | some current ↦ (process_queue now current write_ok (get_queue m.scheduler) m, true)
]
