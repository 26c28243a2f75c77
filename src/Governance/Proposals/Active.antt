-- ===== src/Governance/Proposals/Active.antt =====
-- Every proposal in the active map is submitted or in voting, after any calls.
use wemixvisor.Base.{◌≡◌, refl, String, Option, none, some, true, List, [], ◌∷◌, All, if_both}
use wemixvisor.Base.Int.{ℤ, ltb_ℤ}
use wemixvisor.Base.GoMap
use wemixvisor.Base.GoMap.{GoMap}
use wemixvisor.Base.Sort.{sort-All}
use wemixvisor.Governance.{Proposal, ProposalStatus}
use wemixvisor.Governance.Proposals.{
  ProposalTracker, new_proposal_tracker, is_proposal_active, add_category, add_active,
  add_completed, update_proposal_categories, track, track_all, fetch_all, fetch_latest,
  sync_proposals, start, sync, update_voting_status, drop_proposal, drop_expired, cleanup_old, stop,
  set_max_proposal_age, get_active, newest, values,
}
use wemixvisor.Governance.Proposals.Partition.{
  Call, fetch, resync, restart, poll, clean, halt, set_age, call, run,
}

abbrev IsActive : Proposal → Type 0
IsActive p = is_proposal_active p.status ≡ true

abbrev pub AllActive : ProposalTracker → Type 0
AllActive t = GoMap.AllValues IsActive t.active_proposals

add_category-AllActive :
    (st : ProposalStatus) (p : Proposal) (t : ProposalTracker)
    → p.status ≡ st
    → AllActive t
    → AllActive (add_category st p t)
unfolding add_category add_active add_completed
add_category-AllActive ProposalStatus.submitted p t e h =
    GoMap.insert-AllValues IsActive p.id p t.active_proposals (rw e refl) h
add_category-AllActive ProposalStatus.voting p t e h =
    GoMap.insert-AllValues IsActive p.id p t.active_proposals (rw e refl) h
add_category-AllActive ProposalStatus.passed p t e h = h
add_category-AllActive ProposalStatus.rejected p t e h = h
add_category-AllActive ProposalStatus.failed p t e h = h
add_category-AllActive ProposalStatus.expired p t e h = h
add_category-AllActive (ProposalStatus.other s) p t e h = h

track-AllActive :
    (id : String) (p : Proposal) (t : ProposalTracker) → AllActive t → AllActive (track id p t)
unfolding track update_proposal_categories
track-AllActive id p t h =
    add_category-AllActive p.status p _ refl
      (GoMap.delete-AllValues IsActive p.id t.active_proposals h)

track_all-AllActive :
    (ps : List Proposal) (t : ProposalTracker) (found : List Proposal)
    → AllActive t
    → AllActive (track_all ps t found).0
unfolding track_all
track_all-AllActive [] t found h = h
track_all-AllActive (p ∷ ps) t found h =
    track_all-AllActive ps (track p.id p t) _ (track-AllActive p.id p t h)

fetch_latest-AllActive :
    (now : ℤ) (client : ProposalStatus → Option (List Proposal)) (t : ProposalTracker)
    → AllActive t
    → AllActive (fetch_latest now client t).0
unfolding fetch_latest
fetch_latest-AllActive now client t h = track_all-AllActive (fetch_all client) t [] h

pub update_voting_status-AllActive :
    (id : String) (answer : Option Proposal) (t : ProposalTracker)
    → AllActive t
    → AllActive (update_voting_status id answer t).0
unfolding update_voting_status
update_voting_status-AllActive id none t h = h
update_voting_status-AllActive id (some p) t h = track-AllActive id p t h

drop_expired-AllActive :
    (cutoff : ℤ) (m : GoMap Proposal) (t : ProposalTracker)
    → AllActive t
    → AllActive (drop_expired cutoff m t)
unfolding drop_expired drop_proposal
drop_expired-AllActive cutoff [] t h = h
drop_expired-AllActive cutoff ((id, p) ∷ m) t h =
    drop_expired-AllActive cutoff m _
      (if_both AllActive (ltb_ℤ p.voting_end_time cutoff) {x = drop_proposal id t} {y = t} h h)

sync_proposals-AllActive :
    (now : ℤ) (client : ProposalStatus → Option (List Proposal)) (t : ProposalTracker)
    → AllActive t
    → AllActive (sync_proposals now client t)
unfolding sync_proposals
sync_proposals-AllActive now client t h =
    if_both AllActive t.enable_auto_sync {y = t} (fetch_latest-AllActive now client t h) h

module _ (get_proposal : ℤ → String → Option Proposal) where
  call-AllActive :
      (c : Call) (t : ProposalTracker) → AllActive t → AllActive (call get_proposal c t)
  unfolding call sync start stop set_max_proposal_age cleanup_old
  call-AllActive (fetch now client) t h = fetch_latest-AllActive now client t h
  call-AllActive (resync now client none) t h = fetch_latest-AllActive now client t h
  call-AllActive (resync now client (some height)) t h = fetch_latest-AllActive now client t h
  call-AllActive (restart now client) t h = sync_proposals-AllActive now client _ h
  call-AllActive (poll now id) t h = update_voting_status-AllActive id (get_proposal now id) t h
  call-AllActive (clean now) t h = drop_expired-AllActive _ t.completed_proposals t h
  call-AllActive halt t h = h
  call-AllActive (set_age d) t h = h

  run-AllActive_from :
      (cs : List Call) (t : ProposalTracker) → AllActive t → AllActive (run get_proposal cs t)
  unfolding run
  run-AllActive_from [] t h = h
  run-AllActive_from (c ∷ cs) t h =
      run-AllActive_from cs (call get_proposal c t) (call-AllActive c t h)

  pub run-AllActive : (cs : List Call) → AllActive (run get_proposal cs new_proposal_tracker)
  unfolding new_proposal_tracker
  run-AllActive cs = run-AllActive_from cs new_proposal_tracker tt

values-All : (m : GoMap Proposal) → GoMap.AllValues IsActive m → All IsActive (values m)
values-All [] h = tt
values-All ((k, p) ∷ m) h = (h.0, values-All m h.1)

pub get_active-All :
    (t : ProposalTracker)
    → AllActive t
    → All (λ p. is_proposal_active p.status ≡ true) (get_active t)
unfolding get_active
get_active-All t h =
    sort-All newest IsActive (values t.active_proposals) (values-All t.active_proposals h)
