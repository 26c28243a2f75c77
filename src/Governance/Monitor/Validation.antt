-- ===== src/Governance/Monitor/Validation.antt =====
-- The validation of new proposals by the monitor and the one by the scheduler.
use wemixvisor.Base.{
  ◌≡◌, ◌+◌, length, refl, none, some, false, [], ◌∷◌, arith, str_eq, inl, inr, Bool-cases,
}
use wemixvisor.Base.Int.{ℤ, pos, ◌<ℤ◌, leb_ℤ}
use wemixvisor.Base.GoMap
use wemixvisor.Base.GoMap.{GoMap}
use wemixvisor.Governance.{ProposalType, UpgradeInfo, UpgradeStatus, BinaryInfo, Proposal}
use wemixvisor.Governance.Scheduler.{
  Scheduler, validate_binaries, validate_upgrade, schedule_upgrade, store_upgrade, upgrade_of,
  get_upgrade,
}
use wemixvisor.Governance.Scheduler.Outcomes.{get_upgrade-store_upgrade, length-store_upgrade}
use wemixvisor.Governance.Monitor.{check_binaries, validate_upgrade_proposal}

check_binaries-validate :
    (m : GoMap BinaryInfo) → check_binaries m ≡ none → validate_binaries m ≡ none
unfolding check_binaries validate_binaries
check_binaries-validate [] h = refl
check_binaries-validate ((platform, b) ∷ m) h = ground (arith, h, check_binaries-validate m)

validated :
    (current : ℤ) (p : Proposal) (u : UpgradeInfo)
    → p.upgrade_info ≡ some u
    → validate_upgrade_proposal (some current) p ≡ none
    → (current <ℤ p.upgrade_height) × (check_binaries u.binaries ≡ none)
unfolding validate_upgrade_proposal
validated current p u e h = (ground (arith, h, e), ground (arith, h, e))

validate_upgrade_ok :
    (u : UpgradeInfo) (s : Scheduler)
    → str_eq u.name "" ≡ false
    → GoMap.lookup u.name s.upgrades ≡ none
    → leb_ℤ u.height (pos 0) ≡ false
    → validate_binaries u.binaries ≡ none
    → validate_upgrade u s ≡ none
unfolding validate_upgrade
validate_upgrade_ok u s h k l b = rw (h, k, l) b

schedule_upgrade_ok :
    (now : ℤ) (p : Proposal) (u : UpgradeInfo) (s : Scheduler)
    → p.kind ≡ ProposalType.upgrade
    → p.upgrade_info ≡ some u
    → validate_upgrade u s ≡ none
    → schedule_upgrade now p s ≡ (store_upgrade (upgrade_of now p u) s, none)
unfolding schedule_upgrade
schedule_upgrade_ok now p u s k e v = elim (Bool-cases s.validation_enabled) [
  | inl on ↦ ground (arith, on, k, e, v)
  | inr off ↦ ground (arith, off, k, e, v)
]

-- An upgrade proposal that the monitor's validation lets pass at some height is accepted by the
-- scheduler, if its upgrade has a name that is not taken and a positive height. Afterwards
-- `GetUpgrade` gives an upgrade of that name and with the same binaries and info, which is
-- scheduled for the height of the proposal, above the height of the validation; and the queue has
-- one more entry.
pub validated_scheduled :
    (now current : ℤ) (p : Proposal) (u : UpgradeInfo) (s : Scheduler)
    → p.kind ≡ ProposalType.upgrade
    → p.upgrade_info ≡ some u
    → validate_upgrade_proposal (some current) p ≡ none
    → str_eq u.name "" ≡ false
    → GoMap.lookup u.name s.upgrades ≡ none
    → leb_ℤ u.height (pos 0) ≡ false
    → ((schedule_upgrade now p s).1 ≡ none)
      × ((v : UpgradeInfo) × (get_upgrade u.name (schedule_upgrade now p s).0 ≡ some v)
          × (v.height ≡ p.upgrade_height)
          × (current <ℤ v.height)
          × (v.name ≡ u.name)
          × (v.binaries ≡ u.binaries)
          × (v.info ≡ u.info)
          × (v.status ≡ UpgradeStatus.scheduled))
      × (length (schedule_upgrade now p s).0.scheduled_queue ≡ length s.scheduled_queue + 1)
unfolding upgrade_of
validated_scheduled now current p u s k e v named free positive =
    let (future, binaries) = validated current p u e v in
    let done =
      schedule_upgrade_ok now p u s k e (
        validate_upgrade_ok u s named free positive
          (check_binaries-validate u.binaries binaries)) in
    (
      rw done refl,
      (
        upgrade_of now p u,
        rw done (get_upgrade-store_upgrade (upgrade_of now p u) s),
        refl,
        future,
        refl,
        refl,
        refl,
        refl,
      ),
      rw done (length-store_upgrade (upgrade_of now p u) s),
    )
