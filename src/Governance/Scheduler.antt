-- ===== src/Governance/Scheduler.antt =====
-- The upgrade scheduler of internal/governance/scheduler.go. The map, the two queues and the current
-- upgrade share their upgrades by pointer, so a status change shows in all of them: `heap` holds
-- the objects. `time.Now()` is the argument `now`. Loading and saving the state are placeholders
-- in the source, and logging is left out.
use wemixvisor.Base.{
  ℕ, suc, String, Option, none, some, Bool, true, false, List, [], ◌∷◌, ◌++◌, str_eq, length,
  is_some, if◌then◌else◌, ◌&&◌,
}
use wemixvisor.Base.Int.{ℤ, pos, ◌-ℤ◌, ltb_ℤ, leb_ℤ}
use wemixvisor.Base.GoMap
use wemixvisor.Base.GoMap.{GoMap}
use wemixvisor.Base.Sort.{sort, remove_first}
use wemixvisor.Base.Heap.{write}
use wemixvisor.Governance.{ProposalType, UpgradeStatus, UpgradeInfo, BinaryInfo, Proposal}
pub mod Order
pub mod Outcomes
mod Checks

pub data SchedulerError : Type 0 where
  not_an_upgrade missing_info empty_name already_scheduled invalid_height not_found : SchedulerError
  cannot_cancel : SchedulerError
  missing_url missing_checksum : String → SchedulerError

pub record Scheduler : Type 0 where
  pub heap : ℕ → UpgradeInfo
  pub next : ℕ
  pub upgrades : GoMap ℕ
  pub scheduled_queue : List ℕ
  pub completed_queue : List ℕ
  pub current_upgrade : Option ℕ
  pub enabled : Bool
  pub min_upgrade_delay : ℤ
  pub validation_enabled : Bool

unfoldable pub new_scheduler : (ℕ → UpgradeInfo) → Scheduler
new_scheduler heap = record {
  heap = heap;
  next = 0;
  upgrades = [];
  scheduled_queue = [];
  completed_queue = [];
  current_upgrade = none;
  enabled = true;
  min_upgrade_delay = pos 600_000_000_000;
  validation_enabled = true;
}

unfoldable pub stop : Scheduler → Scheduler
stop s = record s { enabled = false }

unfoldable pub set_enabled : Bool → Scheduler → Scheduler
set_enabled b s = record s { enabled = b }

unfoldable pub set_min_upgrade_delay : ℤ → Scheduler → Scheduler
set_min_upgrade_delay d s = record s { min_upgrade_delay = d }

unfoldable pub set_validation_enabled : Bool → Scheduler → Scheduler
set_validation_enabled b s = record s { validation_enabled = b }

unfoldable pub validate_binaries : GoMap BinaryInfo → Option SchedulerError
validate_binaries [] = none
validate_binaries ((platform, b) ∷ m) =
    let rest = validate_binaries m in
    if str_eq b.url ""
    then some (missing_url platform)
    else if str_eq b.checksum ""
    then some (missing_checksum platform)
    else rest

unfoldable pub validate_upgrade : UpgradeInfo → Scheduler → Option SchedulerError
validate_upgrade u s =
    if str_eq u.name ""
    then some empty_name
    else if is_some (GoMap.lookup u.name s.upgrades)
    then some already_scheduled
    else if leb_ℤ u.height (pos 0)
    then some invalid_height
    else validate_binaries u.binaries

abbrev pub height_less : (ℕ → UpgradeInfo) → ℕ → ℕ → Bool
height_less heap i j = ltb_ℤ (heap i).height (heap j).height

unfoldable pub sort_scheduled_queue : Scheduler → Scheduler
sort_scheduled_queue s = record s { scheduled_queue = sort (height_less s.heap) s.scheduled_queue }

abbrev pub is_upgrade : ProposalType → Bool
is_upgrade ProposalType.upgrade = true
is_upgrade _ = false

-- the upgrade that is stored for a proposal
unfoldable pub upgrade_of : ℤ → Proposal → UpgradeInfo → UpgradeInfo
upgrade_of now p info = record {
  name = info.name;
  height = p.upgrade_height;
  info = info.info;
  binaries = info.binaries;
  upgrade_url = info.upgrade_url;
  checksum_url = info.checksum_url;
  status = UpgradeStatus.scheduled;
  scheduled_time = now;
  started_time = none;
  completed_time = none;
}

-- `Store the upgrade` and `Sort queue by height`
unfoldable pub store_upgrade : UpgradeInfo → Scheduler → Scheduler
store_upgrade u s = sort_scheduled_queue (record s {
  heap = write s.heap s.next u;
  next = suc s.next;
  upgrades = GoMap.insert u.name s.next s.upgrades;
  scheduled_queue = s.scheduled_queue ++ s.next ∷ [];
})

unfoldable pub schedule_upgrade : ℤ → Proposal → Scheduler → Scheduler × Option SchedulerError
schedule_upgrade now p s =
    if is_upgrade p.kind
    then elim p.upgrade_info [
      | none ↦ (s, some missing_info)
      | some info ↦ elim (if s.validation_enabled then validate_upgrade info s else none) [
        | some e ↦ (s, some e)
        | none ↦ (store_upgrade (upgrade_of now p info) s, none)
      ]
    ]
    else (s, some not_an_upgrade)

unfoldable pub get_upgrade : String → Scheduler → Option UpgradeInfo
get_upgrade name s = elim (GoMap.lookup name s.upgrades) [ none ↦ none | some p ↦ some (s.heap p) ]

unfoldable pub get_queue : Scheduler → List ℕ
get_queue s = s.scheduled_queue

unfoldable pub get_current_upgrade : Scheduler → Option ℕ
get_current_upgrade s = s.current_upgrade

unfoldable pub get_next_upgrade : Scheduler → Option ℕ
get_next_upgrade s = elim s.scheduled_queue [ [] ↦ none | p ∷ q ↦ some p ]

-- `sort.Slice` of the completed queue: newest first, those with no completion time last.
abbrev pub newer : Option ℤ → Option ℤ → Bool
newer none b = false
newer (some a) none = true
newer (some a) (some b) = ltb_ℤ b a

abbrev pub completed_newer : (ℕ → UpgradeInfo) → ℕ → ℕ → Bool
completed_newer heap i j = newer (heap i).completed_time (heap j).completed_time

unfoldable pub move_to_completed : ℕ → Scheduler → Scheduler
move_to_completed p s = record s {
  scheduled_queue = remove_first (λ q. str_eq (s.heap q).name (s.heap p).name) s.scheduled_queue;
  completed_queue = sort (completed_newer s.heap) (s.completed_queue ++ p ∷ []);
}

abbrev or_now : ℤ → Option ℤ → Option ℤ
or_now now none = some now
or_now now (some t) = some t

-- a change of the object behind a pointer
unfoldable pub assign : ℕ → UpgradeInfo → Scheduler → Scheduler
assign p u s = record s { heap = write s.heap p u }

unfoldable pub finish : ℤ → ℕ → UpgradeStatus → Scheduler → Scheduler
finish now p st s =
    let u = s.heap p in
    let s' = assign p (record u { status = st; completed_time = or_now now u.completed_time }) s in
    move_to_completed p (record s' { current_upgrade = none })

-- the switch of `UpdateStatus`
unfoldable pub apply_status : ℤ → ℕ → UpgradeStatus → Scheduler → Scheduler
unfolding finish
apply_status now p UpgradeStatus.in_progress s =
    let u = s.heap p in
    let u' = record u {
      status = UpgradeStatus.in_progress;
      started_time = or_now now u.started_time;
    } in
    record (assign p u' s) { current_upgrade = some p }
apply_status now p UpgradeStatus.completed s = finish now p UpgradeStatus.completed s
apply_status now p UpgradeStatus.failed s = finish now p UpgradeStatus.failed s
apply_status now p UpgradeStatus.cancelled s = finish now p UpgradeStatus.cancelled s
apply_status now p UpgradeStatus.scheduled s =
    let u = s.heap p in assign p (record u { status = UpgradeStatus.scheduled }) s
apply_status now p (UpgradeStatus.other t) s =
    let u = s.heap p in assign p (record u { status = UpgradeStatus.other t }) s

unfoldable pub update_status :
    ℤ → String → UpgradeStatus → Scheduler → Scheduler × Option SchedulerError
update_status now name st s = elim (GoMap.lookup name s.upgrades) [
  | none ↦ (s, some not_found)
  | some p ↦ (apply_status now p st s, none)
]

abbrev is_in_progress : UpgradeStatus → Bool
is_in_progress UpgradeStatus.in_progress = true
is_in_progress _ = false

unfoldable pub cancel_upgrade : ℤ → String → Scheduler → Scheduler × Option SchedulerError
cancel_upgrade now name s = elim (GoMap.lookup name s.upgrades) [
  | none ↦ (s, some not_found)
  | some p ↦
      let u = s.heap p in
      let u' = record u { status = UpgradeStatus.cancelled; completed_time = some now } in
      if is_in_progress u.status
      then (s, some cannot_cancel)
      else (move_to_completed p (assign p u' s), none)
]

abbrev pub is_scheduled : UpgradeStatus → Bool
is_scheduled UpgradeStatus.scheduled = true
is_scheduled _ = false

unfoldable pub first_ready : ℤ → (ℕ → UpgradeInfo) → List ℕ → Option ℕ
first_ready current heap [] = none
first_ready current heap (p ∷ q) =
    if leb_ℤ (heap p).height current && is_scheduled (heap p).status then some p else none

unfoldable pub is_upgrade_ready : ℤ → Scheduler → Option ℕ
unfolding first_ready
is_upgrade_ready current s = first_ready current s.heap s.scheduled_queue

abbrev is_old : ℤ → Option ℤ → Bool
is_old cutoff none = false
is_old cutoff (some t) = ltb_ℤ t cutoff

-- the loop of `CleanupOld`: the upgrades map and the completed queue that are left
unfoldable pub drop_old : ℤ → (ℕ → UpgradeInfo) → List ℕ → GoMap ℕ → GoMap ℕ × List ℕ
drop_old cutoff heap [] m = (m, [])
drop_old cutoff heap (p ∷ q) m =
    let old = is_old cutoff (heap p).completed_time in
    let (m', q') = drop_old cutoff heap q (if old then GoMap.delete (heap p).name m else m) in
    (m', if old then q' else p ∷ q')

unfoldable pub cleanup_old : ℤ → ℤ → Scheduler → Scheduler
cleanup_old now max_age s =
    let (m, q) = drop_old (now -ℤ max_age) s.heap s.completed_queue s.upgrades in
    record s { upgrades = m; completed_queue = q }
