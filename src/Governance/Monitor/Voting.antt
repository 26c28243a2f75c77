-- ===== src/Governance/Monitor/Voting.antt =====
-- `checkVotingProgress` looks at the status that a proposal had before it was updated.
use wemixvisor.Base.{
  ◌≡◌, refl, String, Option, Bool, true, false, List, [], ◌∷◌, All, if◌then◌else◌, ap,
}
use wemixvisor.Base.Int.{ℤ}
use wemixvisor.Governance.{Proposal, ProposalStatus}
use wemixvisor.Governance.Proposals.{
  new_proposal_tracker, update_voting_status, get_active, is_proposal_active,
}
use wemixvisor.Governance.Proposals.Partition.{Call, run}
use wemixvisor.Governance.Proposals.Active.{run-AllActive, get_active-All}
use wemixvisor.Governance.Monitor.{
  Monitor, is_passed, schedule_passed, check_voting, check_voting_progress,
}

active-passed : (st : ProposalStatus) → is_proposal_active st ≡ true → is_passed st ≡ false
active-passed ProposalStatus.submitted h = refl
active-passed ProposalStatus.voting h = refl
active-passed ProposalStatus.passed h = cc h
active-passed ProposalStatus.rejected h = refl
active-passed ProposalStatus.failed h = refl
active-passed ProposalStatus.expired h = refl
active-passed (ProposalStatus.other s) h = refl

schedule_passed-active :
    (now : ℤ) (p : Proposal) (m : Monitor)
    → is_proposal_active p.status ≡ true
    → schedule_passed now p m ≡ m
unfolding schedule_passed
schedule_passed-active now p m h = rw (active-passed p.status h) refl

step_active :
    (now : ℤ) (p : Proposal) (m : Monitor) (ok : Bool)
    → is_proposal_active p.status ≡ true
    → (if ok then schedule_passed now p m else m) ≡ m
step_active now p m true h = schedule_passed-active now p m h
step_active now p m false h = refl

abbrev pub Unchanged : Monitor → Monitor → Type 0
Unchanged m m' = (m'.scheduler ≡ m.scheduler) × (m'.notifications ≡ m.notifications)

-- the monitor with the tracker updated for one proposal
abbrev updated : (String → Option Proposal) → Proposal → Monitor → Monitor
updated get_proposal p m = record m {
  tracker = (update_voting_status p.id (get_proposal p.id) m.tracker).0;
}

check_voting-step :
    (now : ℤ) (get_proposal : String → Option Proposal) (p : Proposal) (ps : List Proposal)
    (m : Monitor)
    → is_proposal_active p.status ≡ true
    → check_voting now get_proposal (p ∷ ps) m
      ≡ check_voting now get_proposal ps (updated get_proposal p m)
unfolding check_voting
check_voting-step now get_proposal p ps m h = ap (check_voting now get_proposal ps) (
    step_active now p (updated get_proposal p m)
      (update_voting_status p.id (get_proposal p.id) m.tracker).1 h)

check_voting_nil :
    (now : ℤ) (get_proposal : String → Option Proposal) (m : Monitor)
    → check_voting now get_proposal [] m ≡ m
unfolding check_voting
check_voting_nil now get_proposal m = refl

check_voting-active :
    (now : ℤ) (get_proposal : String → Option Proposal) (ps : List Proposal) (m : Monitor)
    → All (λ p. is_proposal_active p.status ≡ true) ps
    → Unchanged m (check_voting now get_proposal ps m)
check_voting-active now get_proposal [] m h = rw (check_voting_nil now get_proposal m) (refl, refl)
check_voting-active now get_proposal (p ∷ ps) m h =
    rw (check_voting-step now get_proposal p ps m h.0)
      (check_voting-active now get_proposal ps (updated get_proposal p m) h.1)

-- Whatever calls filled the tracker and whatever the client answers, a round of
-- checkVotingProgress schedules no upgrade and sends no notification.
pub check_voting_progress-scheduler :
    (get_proposal : ℤ → String → Option Proposal) (cs : List Call) (now : ℤ)
    (answers : String → Option Proposal) (m : Monitor)
    → m.tracker ≡ run get_proposal cs new_proposal_tracker
    → Unchanged m (check_voting_progress now answers m)
unfolding check_voting_progress
check_voting_progress-scheduler get_proposal cs now answers m h =
    check_voting-active now answers (get_active m.tracker) m
      (get_active-All m.tracker (rw h (run-AllActive get_proposal cs)))
