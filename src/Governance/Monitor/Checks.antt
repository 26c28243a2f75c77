-- ===== src/Governance/Monitor/Checks.antt =====
-- Runs of the monitor, and its theorems at concrete inputs.
use wemixvisor.Base.{
  ◌≡◌, ◌+◌, length, refl, inl, String, Option, some, none, List, [], ◌∷◌, In, true, false, str_dec,
  str_eq,
}
use wemixvisor.Base.Int.{ℤ, pos, ◌<ℤ◌}
use wemixvisor.Base.GoMap
use wemixvisor.Base.Heap.{write}
use wemixvisor.Base.Sort.{sort}
use wemixvisor.Governance.{Proposal, ProposalType, ProposalStatus, UpgradeInfo, UpgradeStatus}
use wemixvisor.Governance.Proposals.{
  new_proposal_tracker, update_proposal_categories, track, track_all, fetch_all, fetch_latest,
  update_voting_status, get_active,
}
use wemixvisor.Governance.Proposals.Partition.{fetch, call, run}
use wemixvisor.Governance.Scheduler.{
  Scheduler, SchedulerError, get_upgrade, new_scheduler, schedule_upgrade, upgrade_of,
  validate_upgrade, validate_binaries, store_upgrade, sort_scheduled_queue, get_queue,
}
use wemixvisor.Governance.Monitor.{
  Monitor, upgrade_triggered, is_due, process_upgrade_queue, process_queue, process_due,
  trigger_upgrade, notify, check_voting_progress, check_voting, schedule_passed,
  validate_upgrade_proposal, check_binaries,
}
use wemixvisor.Governance.Monitor.Queue.{process_upgrade_queue-NotDue}
use wemixvisor.Governance.Monitor.Voting.{Unchanged, check_voting_progress-scheduler}
use wemixvisor.Governance.Monitor.Validation.{validated_scheduled}

abbrev info : String → ℤ → UpgradeInfo
info n h = record {
  name = n;
  height = h;
  info = "";
  binaries =
      ("linux", record { url = "u"; checksum = "c"; platform = "linux"; arch = "amd64" }) ∷ [];
  upgrade_url = "";
  checksum_url = "";
  status = UpgradeStatus.scheduled;
  scheduled_time = pos 0;
  started_time = none;
  completed_time = none;
}

abbrev proposal : String → ℤ → ProposalStatus → Proposal
proposal n h st = record {
  id = n;
  title = n;
  kind = ProposalType.upgrade;
  status = st;
  submit_time = pos 1;
  voting_end_time = pos 2;
  upgrade_height = h;
  upgrade_info = some (info n h);
}

-- one proposal in voting
abbrev client : ProposalStatus → Option (List Proposal)
client ProposalStatus.voting = some (proposal "v2" (pos 100) ProposalStatus.voting ∷ [])
client _ = none

-- asked again, the client says that it passed
abbrev answer : String → Option Proposal
answer id = some (proposal id (pos 100) ProposalStatus.passed)

abbrev scheduler_of : Scheduler
scheduler_of = new_scheduler (λ i. info "" (pos 0))

abbrev scheduled_one : Scheduler
scheduled_one =
    (schedule_upgrade (pos 5) (proposal "v2" (pos 100) ProposalStatus.passed) scheduler_of).0

abbrev monitor : Scheduler → Monitor
monitor s = record {
  tracker = run (λ now id. answer id) (fetch (pos 3) client ∷ []) new_proposal_tracker;
  scheduler = s;
  notifications = [];
  upgrade_file = none;
}

triggers_upgrade :
    (process_upgrade_queue
      (pos 9)
      (some (pos 100))
      (λ u. true)
      (monitor scheduled_one)).0.notifications
    ≡ upgrade_triggered "v2" (pos 100) ∷ upgrade_triggered "v2" (pos 100) ∷ []
unfolding process_upgrade_queue process_queue process_due trigger_upgrade notify get_queue
    new_scheduler schedule_upgrade upgrade_of validate_upgrade validate_binaries store_upgrade
    sort_scheduled_queue write sort str_dec GoMap.lookup GoMap.insert
triggers_upgrade = refl

misses_passed_proposal :
    (check_voting_progress (pos 9) answer (monitor scheduler_of)).scheduler.scheduled_queue ≡ []
unfolding check_voting_progress check_voting schedule_passed get_active update_voting_status run
    call fetch_latest fetch_all track_all track new_scheduler new_proposal_tracker
    update_proposal_categories sort str_dec GoMap.lookup GoMap.insert GoMap.delete
misses_passed_proposal = refl

one_queued : In 0 (get_queue scheduled_one)
unfolding get_queue new_scheduler schedule_upgrade upgrade_of validate_upgrade validate_binaries
    store_upgrade sort_scheduled_queue write sort str_dec GoMap.lookup
one_queued = inl refl

process_upgrade_queue-NotDue_example :
    is_due (pos 100) (
      (process_upgrade_queue
          (pos 9)
          (some (pos 100))
          (λ u. true)
          (monitor scheduled_one)).0.scheduler.heap
        0)
    ≡ false
process_upgrade_queue-NotDue_example =
    process_upgrade_queue-NotDue (pos 9) (λ u. true) (pos 100) (monitor scheduled_one) 0 one_queued

check_voting_progress-scheduler_example :
    Unchanged (monitor scheduler_of) (check_voting_progress (pos 9) answer (monitor scheduler_of))
check_voting_progress-scheduler_example =
    check_voting_progress-scheduler (λ now id. answer id) (fetch (pos 3) client ∷ []) (pos 9) answer
      (monitor scheduler_of) refl

passes_validation :
    validate_upgrade_proposal (some (pos 50)) (proposal "v2" (pos 100) ProposalStatus.voting) ≡ none
unfolding validate_upgrade_proposal check_binaries str_dec
passes_validation = refl

name_set : str_eq "v2" "" ≡ false
unfolding str_dec
name_set = refl

name_free : GoMap.lookup "v2" scheduler_of.upgrades ≡ none
unfolding new_scheduler GoMap.lookup
name_free = refl

abbrev after_schedule : Scheduler × Option SchedulerError
after_schedule =
    schedule_upgrade (pos 9) (proposal "v2" (pos 100) ProposalStatus.voting) scheduler_of

validated_scheduled_example :
    (after_schedule.1 ≡ none)
    × ((v : UpgradeInfo) × (get_upgrade "v2" after_schedule.0 ≡ some v)
        × (v.height ≡ pos 100)
        × (pos 50 <ℤ v.height)
        × (v.name ≡ "v2")
        × (v.binaries ≡ (info "v2" (pos 100)).binaries)
        × (v.info ≡ "")
        × (v.status ≡ UpgradeStatus.scheduled))
    × (length after_schedule.0.scheduled_queue ≡ length scheduler_of.scheduled_queue + 1)
validated_scheduled_example =
    validated_scheduled (pos 9) (pos 50) (proposal "v2" (pos 100) ProposalStatus.voting)
      (info "v2" (pos 100)) scheduler_of refl refl passes_validation name_set name_free refl
