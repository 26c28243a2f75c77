-- ===== src/Governance/Scheduler/Outcomes.antt =====
-- What each request of the scheduler can lead to: the errors, and the stored upgrade.
use wemixvisor.Base.{
  ℕ, ◌+◌, ◌≡◌, ◌≢◌, refl, ap, String, Option, none, some, true, false, [], ◌∷◌, ◌++◌, All, arith,
  Option-cases, inl, inr, ◌⊎◌, length, length-append, if◌then◌else◌,
}
use wemixvisor.Base.Int.{ℤ, pos, ◌<ℤ◌}
use wemixvisor.Base.GoMap
use wemixvisor.Base.GoMap.{GoMap}
use wemixvisor.Base.Heap.{write, write_self}
use wemixvisor.Base.Sort.{length-sort}
use wemixvisor.Governance.{Proposal, ProposalType, UpgradeInfo, UpgradeStatus, BinaryInfo}
use wemixvisor.Governance.Scheduler.{
  Scheduler, SchedulerError, completed_newer, sort_scheduled_queue, store_upgrade, schedule_upgrade,
  upgrade_of, validate_upgrade, validate_binaries, get_upgrade, move_to_completed, assign,
  update_status, cancel_upgrade, is_upgrade, height_less, apply_status, finish,
}

-- an upgrade that may be scheduled
pub record IsSchedulable (u : UpgradeInfo) (s : Scheduler) : Type 0 where
  pub named : u.name ≢ ""
  pub unknown : GoMap.lookup u.name s.upgrades ≡ none
  pub positive : pos 0 <ℤ u.height
  pub binaries : All (λ b. ((b.1).url ≢ "") × ((b.1).checksum ≢ "")) u.binaries

validate_binaries_sound :
    (m : GoMap BinaryInfo)
    → validate_binaries m ≡ none
    → All (λ b. ((b.1).url ≢ "") × ((b.1).checksum ≢ "")) m
unfolding validate_binaries
validate_binaries_sound [] h = tt
validate_binaries_sound ((platform, b) ∷ m) h = ground (arith, validate_binaries_sound m)

validate_upgrade_sound :
    (u : UpgradeInfo) (s : Scheduler) → validate_upgrade u s ≡ none → IsSchedulable u s
unfolding validate_upgrade
validate_upgrade_sound u s h = record {
  named = ground arith;
  unknown = ground arith;
  positive = ground arith;
  binaries = validate_binaries_sound u.binaries (ground arith);
}

pub record Stored (now : ℤ) (p : Proposal) (s : Scheduler) : Type 0 where
  pub info : UpgradeInfo
  pub kind : p.kind ≡ ProposalType.upgrade
  pub carried : p.upgrade_info ≡ some info
  pub checked : s.validation_enabled ≡ true → validate_upgrade info s ≡ none
  pub stored : schedule_upgrade now p s ≡ (store_upgrade (upgrade_of now p info) s, none)

pub get_upgrade-store_upgrade :
    (u : UpgradeInfo) (s : Scheduler) → get_upgrade u.name (store_upgrade u s) ≡ some u
unfolding get_upgrade store_upgrade sort_scheduled_queue
get_upgrade-store_upgrade u s =
    ground (arith, GoMap.lookup-insert u.name u.name s.next s.upgrades, write_self s.heap s.next u)

pub length-store_upgrade :
    (u : UpgradeInfo) (s : Scheduler)
    → length (store_upgrade u s).scheduled_queue ≡ length s.scheduled_queue + 1
unfolding store_upgrade sort_scheduled_queue
length-store_upgrade u s = omega (
  arith,
  length-sort (height_less (write s.heap s.next u)) (s.scheduled_queue ++ s.next ∷ []),
  length-append s.scheduled_queue (s.next ∷ []),
)

kind_cases :
    (k : ProposalType)
    → ((is_upgrade k ≡ true) × (k ≡ ProposalType.upgrade)) ⊎ (is_upgrade k ≡ false)
kind_cases ProposalType.upgrade = inl (refl, refl)
kind_cases _ = inr refl

pub schedule_upgrade_cases :
    (now : ℤ) (p : Proposal) (s : Scheduler)
    → ((e : SchedulerError) × (schedule_upgrade now p s ≡ (s, some e))) ⊎ Stored now p s
unfolding schedule_upgrade
schedule_upgrade_cases now p s = elim (kind_cases p.kind) [
  | inr e ↦ inl (SchedulerError.not_an_upgrade, rw (e, schedule_upgrade))
  | inl (e, k) ↦ elim (Option-cases p.upgrade_info) [
    | inl n ↦ inl (SchedulerError.missing_info, rw (e, n, schedule_upgrade))
    | inr (info, i) ↦
        elim (Option-cases (if s.validation_enabled then validate_upgrade info s else none)) [
          | inl c ↦ inr (record {
            info = info;
            kind = k;
            carried = i;
            checked = λ on. ground arith;
            stored = ground arith;
          })
          | inr (x, c) ↦ inl (x, ground arith)
        ]
  ]
]

-- With validation on, a proposal that is scheduled is an upgrade proposal, carries an upgrade
-- whose name is not empty and not taken and whose height is positive, and every binary has a URL
-- and a checksum. Afterwards `GetUpgrade` under the name gives the scheduled upgrade, and the queue
-- has one more entry.
pub schedule_upgrade_sound :
    (now : ℤ) (p : Proposal) (s : Scheduler)
    → s.validation_enabled ≡ true
    → (schedule_upgrade now p s).1 ≡ none
    → (u : UpgradeInfo) × (p.kind ≡ ProposalType.upgrade)
      × (p.upgrade_info ≡ some u)
      × IsSchedulable u s
      × (get_upgrade u.name (schedule_upgrade now p s).0 ≡ some (upgrade_of now p u))
      × (length (schedule_upgrade now p s).0.scheduled_queue ≡ length s.scheduled_queue + 1)
unfolding upgrade_of
schedule_upgrade_sound now p s on h = elim (schedule_upgrade_cases now p s) [
  | inl (e, q) ↦ absurd (cc (ap (λ (r : Scheduler × Option SchedulerError). r.1) q))
  | inr t ↦ (
    t.info,
    t.kind,
    t.carried,
    validate_upgrade_sound t.info s (t.checked on),
    rw t.stored (get_upgrade-store_upgrade (upgrade_of now p t.info) s),
    rw t.stored (length-store_upgrade (upgrade_of now p t.info) s),
  )
]

-- The height that is checked is the one of the upgrade info, and the height that is scheduled is
-- the one of the proposal: whatever height the proposal has, an upgrade info that passes the
-- validation puts it into the scheduler.
pub height-schedule_upgrade :
    (now : ℤ) (p : Proposal) (u : UpgradeInfo) (s : Scheduler)
    → p.kind ≡ ProposalType.upgrade
    → p.upgrade_info ≡ some u
    → validate_upgrade u s ≡ none
    → (v : UpgradeInfo) × (get_upgrade u.name (schedule_upgrade now p s).0 ≡ some v)
      × (v.height ≡ p.upgrade_height)
unfolding schedule_upgrade upgrade_of
height-schedule_upgrade now p u s k i c =
    let e : is_upgrade p.kind ≡ true = rw k in
    let ok : (if s.validation_enabled then validate_upgrade u s else none) ≡ none = ground arith in
    (upgrade_of now p u, ground (arith, get_upgrade-store_upgrade (upgrade_of now p u) s), refl)

-- Cancelling a known upgrade that is not in progress succeeds even if the upgrade has ended
-- before: it is appended to the completed queue once more, and its status becomes cancelled.
pub cancel_upgrade_again :
    (now : ℤ) (name : String) (p : ℕ) (s : Scheduler)
    → GoMap.lookup name s.upgrades ≡ some p
    → (s.heap p).status ≢ UpgradeStatus.in_progress
    → ((cancel_upgrade now name s).1 ≡ none)
      × (length (cancel_upgrade now name s).0.completed_queue ≡ length s.completed_queue + 1)
      × (((cancel_upgrade now name s).0.heap p).status ≡ UpgradeStatus.cancelled)
unfolding cancel_upgrade move_to_completed assign
cancel_upgrade_again now name p s h ne =
    let u : UpgradeInfo = record (s.heap p) {
      status = UpgradeStatus.cancelled;
      completed_time = some now;
    } in
    ground (
      arith,
      length-sort (completed_newer (write s.heap p u)) (s.completed_queue ++ p ∷ []),
      length-append s.completed_queue (p ∷ []),
      write_self s.heap p u,
    )

-- Any update of a known upgrade to a final status clears the current upgrade, also when another
-- upgrade is the one in progress.
pub current_upgrade-update_status :
    (now : ℤ) (name : String) (p : ℕ) (st : UpgradeStatus) (s : Scheduler)
    → GoMap.lookup name s.upgrades ≡ some p
    → (st ≡ UpgradeStatus.completed) ⊎ (st ≡ UpgradeStatus.failed) ⊎ (st ≡ UpgradeStatus.cancelled)
    → ((update_status now name st s).0.current_upgrade ≡ none)
      × (((update_status now name st s).0.heap p).status ≡ st)
unfolding update_status apply_status finish move_to_completed assign write
current_upgrade-update_status now name p st s h final = ground arith
