-- ===== src/Governance/Proposals/Partition.antt =====
-- The active and the completed proposals are the tracked ones of those statuses, after any calls.
use wemixvisor.Base.{
  ◌≡◌, refl, String, Option, none, some, Bool, true, List, [], ◌∷◌, ite, str_dec, arith,
  Option-cases, Bool-cases, inl, inr, contains, All, if◌then◌else◌,
}
use wemixvisor.Base.Int.{ℤ, ltb_ℤ, ◌-ℤ◌}
use wemixvisor.Base.GoMap
use wemixvisor.Base.GoMap.{GoMap}
use wemixvisor.Governance.{Proposal, ProposalStatus}
use wemixvisor.Governance.Proposals.{
  ProposalTracker, new_proposal_tracker, is_proposal_active, is_proposal_completed,
  update_proposal_categories, track, track_all, fetch_all, fetch_latest, sync_proposals, start,
  sync, update_voting_status, drop_proposal, drop_expired, cleanup_old, stop, set_max_proposal_age,
}

abbrev pub keep : (ProposalStatus → Bool) → Option Proposal → Option Proposal
keep f none = none
keep f (some p) = if f p.status then some p else none

pub record IsPartition (t : ProposalTracker) : Type 0 where
  pub active :
      (id : String)
      → GoMap.lookup id t.active_proposals ≡ keep is_proposal_active (GoMap.lookup id t.proposals)
  pub completed :
      (id : String)
      → GoMap.lookup id t.completed_proposals
        ≡ keep is_proposal_completed (GoMap.lookup id t.proposals)

track_active :
    (p : Proposal) (t : ProposalTracker) (j : String)
    → GoMap.lookup j (track p.id p t).active_proposals
      ≡ ite (str_dec p.id j) (keep is_proposal_active (some p)) (GoMap.lookup j t.active_proposals)
unfolding track update_proposal_categories
track_active p t j = ground (
  arith,
  GoMap.lookup-insert j p.id p (GoMap.delete p.id t.active_proposals),
  GoMap.lookup-delete j p.id t.active_proposals,
)

track_completed :
    (p : Proposal) (t : ProposalTracker) (j : String)
    → GoMap.lookup j (track p.id p t).completed_proposals
      ≡ ite
          (str_dec p.id j)
          (keep is_proposal_completed (some p))
          (GoMap.lookup j t.completed_proposals)
unfolding track update_proposal_categories
track_completed p t j = ground (
  arith,
  GoMap.lookup-insert j p.id p (GoMap.delete p.id t.completed_proposals),
  GoMap.lookup-delete j p.id t.completed_proposals,
)

pub track_proposals :
    (id : String) (p : Proposal) (t : ProposalTracker) (j : String)
    → GoMap.lookup j (track id p t).proposals
      ≡ ite (str_dec id j) (some p) (GoMap.lookup j t.proposals)
unfolding track update_proposal_categories
track_proposals id p t j = ground (arith, GoMap.lookup-insert j id p t.proposals)

pub track-IsPartition :
    (p : Proposal) (t : ProposalTracker) → IsPartition t → IsPartition (track p.id p t)
track-IsPartition p t v = record {
  active = λ j. ground (arith, track_active p t j, track_proposals p.id p t j, v.active j);
  completed = λ j. ground (arith, track_completed p t j, track_proposals p.id p t j, v.completed j);
}

track_all-IsPartition :
    (ps : List Proposal) (t : ProposalTracker) (found : List Proposal)
    → IsPartition t
    → IsPartition (track_all ps t found).0
unfolding track_all
track_all-IsPartition [] t found v = v
track_all-IsPartition (p ∷ ps) t found v =
    track_all-IsPartition ps (track p.id p t) _ (track-IsPartition p t v)

fetch_latest-IsPartition :
    (now : ℤ) (client : ProposalStatus → Option (List Proposal)) (t : ProposalTracker)
    → IsPartition t
    → IsPartition (fetch_latest now client t).0
unfolding fetch_latest
fetch_latest-IsPartition now client t v =
    let h = track_all-IsPartition (fetch_all client) t [] v in
    record { active = h.active; completed = h.completed }

drop_proposal-IsPartition :
    (id : String) (t : ProposalTracker)
    → GoMap.lookup id t.active_proposals ≡ none
    → IsPartition t
    → IsPartition (drop_proposal id t)
unfolding drop_proposal
drop_proposal-IsPartition id t h v = record {
  active = λ j. ground (arith, GoMap.lookup-delete j id t.proposals, v.active j);
  completed = λ j. ground (
    arith,
    GoMap.lookup-delete j id t.proposals,
    GoMap.lookup-delete j id t.completed_proposals,
    v.completed j,
  );
}

drop_expired-IsPartition :
    (cutoff : ℤ) (m : GoMap Proposal) (t : ProposalTracker)
    → All (λ e. GoMap.lookup (e.0) t.active_proposals ≡ none) m
    → IsPartition t
    → IsPartition (drop_expired cutoff m t)
unfolding drop_expired drop_proposal
drop_expired-IsPartition cutoff [] t h v = v
drop_expired-IsPartition cutoff ((id, p) ∷ m) t h v =
    elim (Bool-cases (ltb_ℤ p.voting_end_time cutoff)) [
      | inl e ↦ rw e (
          drop_expired-IsPartition cutoff m (drop_proposal id t) h.1
            (drop_proposal-IsPartition id t h.0 v))
      | inr e ↦ rw e (drop_expired-IsPartition cutoff m t h.1 v)
    ]

-- No key of the completed map is a key of the active one.
completed_inactive :
    (m : GoMap Proposal) (t : ProposalTracker)
    → IsPartition t
    → ((j : String)
        → contains j (GoMap.keys m) ≡ true
        → contains j (GoMap.keys t.completed_proposals) ≡ true)
    → All (λ e. GoMap.lookup (e.0) t.active_proposals ≡ none) m
unfolding contains
completed_inactive [] t v sub = tt
completed_inactive ((id, p) ∷ m) t v sub = (
  ground (arith, sub id, GoMap.contains-keys id t.completed_proposals, v.active id, v.completed id),
  completed_inactive m t v (λ j h. sub j (ground arith)),
)

cleanup_old-IsPartition :
    (now : ℤ) (t : ProposalTracker) → IsPartition t → IsPartition (cleanup_old now t)
unfolding cleanup_old
cleanup_old-IsPartition now t v =
    drop_expired-IsPartition (now -ℤ t.max_proposal_age) t.completed_proposals t
      (completed_inactive t.completed_proposals t v (λ j h. h)) v

pub data Call : Type 0 where
  fetch : ℤ → (ProposalStatus → Option (List Proposal)) → Call
  resync : ℤ → (ProposalStatus → Option (List Proposal)) → Option ℤ → Call
  restart : ℤ → (ProposalStatus → Option (List Proposal)) → Call
  poll : ℤ → String → Call
  clean : ℤ → Call
  halt : Call
  set_age : ℤ → Call

-- `get_proposal` is the client's answer to a request for one proposal at a given time.
module _ (get_proposal : ℤ → String → Option Proposal) where
  unfoldable pub call : Call → ProposalTracker → ProposalTracker
  call (fetch now client) t = (fetch_latest now client t).0
  call (resync now client height) t = sync now client height t
  call (restart now client) t = start now client t
  call (poll now id) t = (update_voting_status id (get_proposal now id) t).0
  call (clean now) t = cleanup_old now t
  call halt t = stop t
  call (set_age d) t = set_max_proposal_age d t

  unfoldable pub run : List Call → ProposalTracker → ProposalTracker
  unfolding call
  run [] t = t
  run (c ∷ cs) t = run cs (call c t)

  -- The client answers a request for an id with the proposal of that id.
  module _
      (own : (now : ℤ) (id : String) (p : Proposal)
        → get_proposal now id ≡ some p
        → p.id ≡ id) where
    poll-IsPartition :
        (now : ℤ) (id : String) (t : ProposalTracker)
        → IsPartition t
        → IsPartition (update_voting_status id (get_proposal now id) t).0
    unfolding update_voting_status
    poll-IsPartition now id t v = elim (Option-cases (get_proposal now id)) [
      | inl e ↦ rw (e, update_voting_status) v
      | inr (p, e) ↦ rw (e, update_voting_status, ← own now id p e) (track-IsPartition p t v)
    ]

    call-IsPartition : (c : Call) (t : ProposalTracker) → IsPartition t → IsPartition (call c t)
    unfolding call sync start sync_proposals stop set_max_proposal_age
    call-IsPartition (fetch now client) t v = fetch_latest-IsPartition now client t v
    call-IsPartition (resync now client none) t v = fetch_latest-IsPartition now client t v
    call-IsPartition (resync now client (some h)) t v =
        let w = fetch_latest-IsPartition now client t v in
        record { active = w.active; completed = w.completed }
    call-IsPartition (restart now client) t v =
        fetch_latest-IsPartition now client _
          (record { active = v.active; completed = v.completed })
    call-IsPartition (poll now id) t v = poll-IsPartition now id t v
    call-IsPartition (clean now) t v = cleanup_old-IsPartition now t v
    call-IsPartition halt t v = record { active = v.active; completed = v.completed }
    call-IsPartition (set_age d) t v = record { active = v.active; completed = v.completed }

    run-IsPartition_from :
        (cs : List Call) (t : ProposalTracker) → IsPartition t → IsPartition (run cs t)
    unfolding run
    run-IsPartition_from [] t v = v
    run-IsPartition_from (c ∷ cs) t v = run-IsPartition_from cs (call c t) (call-IsPartition c t v)

    -- After any calls on a new tracker, if the client answers a request for an id with the proposal
    -- of that id, the active map holds exactly the tracked proposals that are submitted or in
    -- voting, and the completed map those that passed, were rejected, failed or expired.
    pub run-IsPartition : (cs : List Call) → IsPartition (run cs new_proposal_tracker)
    unfolding new_proposal_tracker GoMap.lookup
    run-IsPartition cs =
        run-IsPartition_from cs new_proposal_tracker
          (record { active = λ j. refl; completed = λ j. refl })
