-- ===== src/Governance/Scheduler/Checks.antt =====
-- Tests of the scheduler, and its theorems at concrete inputs.
use wemixvisor.Base.{ℕ, ◌+◌, ◌≡◌, refl, String, some, none, List, [], ◌∷◌, In, length, str_dec}
use wemixvisor.Base.Int.{ℤ, pos, negsuc, ◌≤ℤ◌}
use wemixvisor.Base.GoMap
use wemixvisor.Base.Heap.{write}
use wemixvisor.Base.Sort.{sort, remove_first}
use wemixvisor.Governance.{Proposal, ProposalType, ProposalStatus, UpgradeInfo, UpgradeStatus}
use wemixvisor.Governance.Scheduler.{
  Scheduler, SchedulerError, new_scheduler, schedule_upgrade, upgrade_of, validate_upgrade,
  validate_binaries, get_upgrade, get_next_upgrade, move_to_completed, assign, apply_status,
  update_status, cancel_upgrade, is_upgrade_ready, cleanup_old, store_upgrade, sort_scheduled_queue,
  drop_old,
}
use wemixvisor.Governance.Scheduler.Order.{
  InOrder, Request, schedule, serve, serve_all, serve_all-InOrder, is_upgrade_ready-least,
}
use wemixvisor.Governance.Scheduler.Outcomes.{
  IsSchedulable, schedule_upgrade_sound, height-schedule_upgrade,
}

program : Unit {0}
unfolding new_scheduler schedule_upgrade upgrade_of validate_upgrade validate_binaries get_upgrade
    move_to_completed assign apply_status update_status cancel_upgrade is_upgrade_ready cleanup_old
    store_upgrade sort_scheduled_queue drop_old serve serve_all write sort remove_first str_dec
    get_next_upgrade GoMap.lookup GoMap.insert GoMap.delete
program = tt

abbrev blank : UpgradeInfo
blank = record {
  name = "";
  height = pos 0;
  info = "";
  binaries = [];
  upgrade_url = "";
  checksum_url = "";
  status = UpgradeStatus.scheduled;
  scheduled_time = pos 0;
  started_time = none;
  completed_time = none;
}

abbrev info_of : String → ℤ → UpgradeInfo
info_of n h = record {
  name = n;
  height = h;
  info = "";
  binaries = [];
  upgrade_url = "";
  checksum_url = "";
  status = UpgradeStatus.scheduled;
  scheduled_time = pos 0;
  started_time = none;
  completed_time = none;
}

abbrev proposal : String → ℤ → ℤ → Proposal
proposal n h claimed = record {
  id = n;
  title = n;
  kind = ProposalType.upgrade;
  status = ProposalStatus.passed;
  submit_time = pos 0;
  voting_end_time = pos 0;
  upgrade_height = h;
  upgrade_info = some (info_of n claimed);
}

abbrev empty : Scheduler
empty = new_scheduler (λ i. blank)

abbrev requests : List Request
requests =
    schedule (pos 1) (proposal "v2" (pos 200) (pos 200))
    ∷ schedule (pos 2) (proposal "v1" (pos 100) (pos 100))
    ∷ []

abbrev two : Scheduler
two = serve_all requests empty

two_sorted : two.scheduled_queue ≡ 1 ∷ 0 ∷ []
unfolding program
two_sorted = refl

ready_at : is_upgrade_ready (pos 150) two ≡ some 1
unfolding program
ready_at = refl

abbrev done : Scheduler
done = (update_status (pos 5) "v1" UpgradeStatus.completed two).0

done_queues : (done.scheduled_queue ≡ 0 ∷ []) × (done.completed_queue ≡ 1 ∷ [])
unfolding program done
done_queues = (refl, refl)

refused :
    (schedule_upgrade (pos 3) (proposal "v1" (pos 300) (pos 300)) two).1
    ≡ some SchedulerError.already_scheduled
unfolding program
refused = refl

serve_all-InOrder_example : InOrder two
serve_all-InOrder_example = serve_all-InOrder requests (λ i. blank)

is_upgrade_ready-least_example :
    ((two.heap 1).height ≤ℤ pos 150)
    × ((two.heap 1).status ≡ UpgradeStatus.scheduled)
    × ((q : ℕ) → In q two.scheduled_queue → (two.heap 1).height ≤ℤ (two.heap q).height)
is_upgrade_ready-least_example =
    is_upgrade_ready-least (pos 150) 1 two serve_all-InOrder_example ready_at

schedule_upgrade_sound_example :
    (u : UpgradeInfo) × (ProposalType.upgrade ≡ ProposalType.upgrade)
    × (some (info_of "v3" (pos 7)) ≡ some u)
    × IsSchedulable u two
    × (get_upgrade u.name (schedule_upgrade (pos 3) (proposal "v3" (pos 7) (pos 7)) two).0
        ≡ some (upgrade_of (pos 3) (proposal "v3" (pos 7) (pos 7)) u))
    × (length (schedule_upgrade (pos 3) (proposal "v3" (pos 7) (pos 7)) two).0.scheduled_queue
        ≡ length two.scheduled_queue + 1)
unfolding program
schedule_upgrade_sound_example =
    schedule_upgrade_sound (pos 3) (proposal "v3" (pos 7) (pos 7)) two refl refl

-- a proposal of height -5 whose info says 7
height-schedule_upgrade_example :
    (v : UpgradeInfo) × (get_upgrade "v3"
        (schedule_upgrade (pos 3) (proposal "v3" (negsuc 4) (pos 7)) two).0
      ≡ some v)
    × (v.height ≡ negsuc 4)
unfolding program
height-schedule_upgrade_example =
    height-schedule_upgrade (pos 3) (proposal "v3" (negsuc 4) (pos 7)) (info_of "v3" (pos 7)) two
      refl refl refl
