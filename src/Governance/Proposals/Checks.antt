-- ===== src/Governance/Proposals/Checks.antt =====
-- Tests of the tracker, and its theorems at concrete inputs.
use wemixvisor.Base.{
  Distinct, contains, ◌&&◌, not, ◌≡◌, refl, String, Option, some, none, List, [], ◌∷◌, All, In,
  str_dec, contains, is_some,
}
use wemixvisor.Base.Int.{ℤ, pos}
use wemixvisor.Base.GoMap
use wemixvisor.Base.GoMap.{IsMap}
use wemixvisor.Base.Sort.{sort}
use wemixvisor.Governance.{Proposal, ProposalType, ProposalStatus}
use wemixvisor.Governance.Proposals.{
  ProposalTracker, new_proposal_tracker, update_proposal_categories, track, track_all, fetch_all,
  fetch_latest, update_voting_status, drop_expired, cleanup_old, get_active, get_by_id,
}
use wemixvisor.Governance.Proposals.Partition.{IsPartition, fetch, poll, call, run, run-IsPartition}
use wemixvisor.Governance.Proposals.Fetching.{fetch_latest_complete, or_else, last_with, ids_of}

program : Unit {0}
unfolding new_proposal_tracker update_proposal_categories track track_all fetch_all fetch_latest
    update_voting_status drop_expired cleanup_old get_active get_by_id call run sort str_dec
    contains GoMap.lookup GoMap.insert GoMap.delete
program = tt

abbrev proposal : String → ProposalStatus → ℤ → Proposal
proposal id status t = record {
  id = id;
  title = id;
  kind = ProposalType.text;
  status = status;
  submit_time = t;
  voting_end_time = t;
  upgrade_height = pos 0;
  upgrade_info = none;
}

abbrev client : ProposalStatus → Option (List Proposal)
client ProposalStatus.voting =
    some
      (proposal "a" ProposalStatus.voting (pos 1) ∷ proposal "b" ProposalStatus.voting (pos 2) ∷ [])
client ProposalStatus.passed = some (proposal "c" ProposalStatus.passed (pos 3) ∷ [])
client _ = none

-- on a request the client says that the proposal was rejected
abbrev answer : ℤ → String → Option Proposal
answer now id = some (proposal id ProposalStatus.rejected (pos 4))

abbrev fetched : ProposalTracker
fetched = run answer (fetch (pos 10) client ∷ []) new_proposal_tracker

abbrev polled : ProposalTracker
polled = run answer (fetch (pos 10) client ∷ poll (pos 11) "a" ∷ []) new_proposal_tracker

newest_first :
    get_active fetched
    ≡ proposal "b" ProposalStatus.voting (pos 2) ∷ proposal "a" ProposalStatus.voting (pos 1) ∷ []
unfolding program
newest_first = refl

polled_active : get_active polled ≡ proposal "b" ProposalStatus.voting (pos 2) ∷ []
unfolding program
polled_active = refl

run-IsPartition_example : IsPartition polled
run-IsPartition_example =
    run-IsPartition answer (λ now id p e. cc) (fetch (pos 10) client ∷ poll (pos 11) "a" ∷ [])

abbrev refetched : ProposalTracker × List Proposal
refetched = fetch_latest (pos 20) client polled

fetch_latest_complete_example :
    ((j : String)
      → GoMap.lookup j refetched.0.proposals
        ≡ or_else (last_with j (fetch_all client)) (GoMap.lookup j polled.proposals))
    × All (λ p. In p (fetch_all client)) refetched.1
    × Distinct (ids_of refetched.1)
    × ((j : String)
        → contains j (ids_of refetched.1) ≡ (
            not (is_some (GoMap.lookup j polled.proposals))
            && contains j (ids_of (fetch_all client))))
fetch_latest_complete_example = fetch_latest_complete (pos 20) client polled
