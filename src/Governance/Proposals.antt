-- ===== src/Governance/Proposals.antt =====
-- The proposal tracker of internal/governance/proposals.go: all known proposals, and the active and
-- completed ones among them, each a map by id. What the client returns is an argument (`none` for
-- an error), and so is `time.Now()`. Logging is left out.
use wemixvisor.Base.{
  ℕ, suc, String, Option, none, some, Bool, true, false, List, [], ◌∷◌, ◌++◌, length, is_some, not,
  map, if◌then◌else◌,
}
use wemixvisor.Base.Int.{ℤ, pos, ◌-ℤ◌, ltb_ℤ}
use wemixvisor.Base.GoMap
use wemixvisor.Base.GoMap.{GoMap}
use wemixvisor.Base.Sort.{sort}
use wemixvisor.Governance.{ProposalType, ProposalStatus, Proposal}
pub mod Partition
pub mod Fetching
pub mod Active
mod Checks

pub record ProposalTracker : Type 0 where
  pub proposals : GoMap Proposal
  pub active_proposals : GoMap Proposal
  pub completed_proposals : GoMap Proposal
  pub last_sync_height : ℤ
  pub last_sync_time : ℤ
  pub sync_interval : ℤ
  pub max_proposal_age : ℤ
  pub enable_auto_sync : Bool

unfoldable pub new_proposal_tracker : ProposalTracker
new_proposal_tracker = record {
  proposals = [];
  active_proposals = [];
  completed_proposals = [];
  last_sync_height = pos 0;
  last_sync_time = pos 0;
  sync_interval = pos 30_000_000_000;
  max_proposal_age = pos 2_592_000_000_000_000;
  enable_auto_sync = true;
}

unfoldable pub stop : ProposalTracker → ProposalTracker
stop t = record t { enable_auto_sync = false }

unfoldable pub set_sync_interval : ℤ → ProposalTracker → ProposalTracker
set_sync_interval d t = record t { sync_interval = d }

unfoldable pub set_max_proposal_age : ℤ → ProposalTracker → ProposalTracker
set_max_proposal_age d t = record t { max_proposal_age = d }

abbrev pub is_proposal_active : ProposalStatus → Bool
is_proposal_active ProposalStatus.submitted = true
is_proposal_active ProposalStatus.voting = true
is_proposal_active _ = false

abbrev pub is_proposal_completed : ProposalStatus → Bool
is_proposal_completed ProposalStatus.passed = true
is_proposal_completed ProposalStatus.rejected = true
is_proposal_completed ProposalStatus.failed = true
is_proposal_completed ProposalStatus.expired = true
is_proposal_completed _ = false

add_active : Proposal → ProposalTracker → ProposalTracker
add_active p t = record t { active_proposals = GoMap.insert p.id p t.active_proposals }

add_completed : Proposal → ProposalTracker → ProposalTracker
add_completed p t = record t { completed_proposals = GoMap.insert p.id p t.completed_proposals }

-- the switch of `updateProposalCategories`
add_category : ProposalStatus → Proposal → ProposalTracker → ProposalTracker
unfolding add_active add_completed
add_category ProposalStatus.submitted p t = add_active p t
add_category ProposalStatus.voting p t = add_active p t
add_category ProposalStatus.passed p t = add_completed p t
add_category ProposalStatus.rejected p t = add_completed p t
add_category ProposalStatus.failed p t = add_completed p t
add_category ProposalStatus.expired p t = add_completed p t
add_category (ProposalStatus.other s) p t = t

unfoldable pub update_proposal_categories : Proposal → ProposalTracker → ProposalTracker
unfolding add_category
update_proposal_categories p t = add_category p.status p (record t {
  active_proposals = GoMap.delete p.id t.active_proposals;
  completed_proposals = GoMap.delete p.id t.completed_proposals;
})

-- `pt.proposals[id] = proposal` and the update of the categories
unfoldable pub track : String → Proposal → ProposalTracker → ProposalTracker
track id p t = update_proposal_categories p (record t { proposals = GoMap.insert id p t.proposals })

-- the loop of `FetchLatest` over what was fetched, and the proposals that it found new
unfoldable pub track_all :
    List Proposal → ProposalTracker → List Proposal → ProposalTracker × List Proposal
track_all [] t found = (t, found)
track_all (p ∷ ps) t found =
    track_all ps (track p.id p t)
      (if is_some (GoMap.lookup p.id t.proposals) then found else found ++ p ∷ [])

abbrev or_empty : Option (List Proposal) → List Proposal
or_empty none = []
or_empty (some ps) = ps

-- the fetch loop over the statuses: one that fails is skipped
unfoldable pub fetch_all : (ProposalStatus → Option (List Proposal)) → List Proposal
fetch_all client =
    or_empty (client ProposalStatus.submitted)
    ++ (or_empty (client ProposalStatus.voting)
        ++ (or_empty (client ProposalStatus.passed) ++ or_empty (client ProposalStatus.rejected)))

unfoldable pub fetch_latest :
    ℤ
    → (ProposalStatus → Option (List Proposal))
    → ProposalTracker
    → ProposalTracker × List Proposal
fetch_latest now client t =
    let (t', found) = track_all (fetch_all client) t [] in
    (record t' { last_sync_time = now }, found)

unfoldable pub sync_proposals :
    ℤ → (ProposalStatus → Option (List Proposal)) → ProposalTracker → ProposalTracker
sync_proposals now client t = if t.enable_auto_sync then (fetch_latest now client t).0 else t

unfoldable pub start :
    ℤ → (ProposalStatus → Option (List Proposal)) → ProposalTracker → ProposalTracker
start now client t = sync_proposals now client (record t { enable_auto_sync = true })

unfoldable pub sync :
    ℤ → (ProposalStatus → Option (List Proposal)) → Option ℤ → ProposalTracker → ProposalTracker
sync now client height t =
    let t' = (fetch_latest now client t).0 in
    elim height [ none ↦ t' | some h ↦ record t' { last_sync_height = h } ]

-- `GetProposal` of the client is the argument; the flag tells that it failed.
unfoldable pub update_voting_status :
    String → Option Proposal → ProposalTracker → ProposalTracker × Bool
update_voting_status id client t = elim client [ none ↦ (t, false) | some p ↦ (track id p t, true) ]

abbrev values : GoMap Proposal → List Proposal
values = map (λ e. e.1)

abbrev pub newest : Proposal → Proposal → Bool
newest a b = ltb_ℤ b.submit_time a.submit_time

unfoldable pub get_active : ProposalTracker → List Proposal
get_active t = sort newest (values t.active_proposals)

unfoldable pub get_all : ProposalTracker → List Proposal
get_all t = sort newest (values t.proposals)

unfoldable pub get_by_id : String → ProposalTracker → Option Proposal
get_by_id id t = GoMap.lookup id t.proposals

drop_proposal : String → ProposalTracker → ProposalTracker
drop_proposal id t = record t {
  proposals = GoMap.delete id t.proposals;
  completed_proposals = GoMap.delete id t.completed_proposals;
}

-- the loop of `CleanupOld` over the entries of the completed map
unfoldable pub drop_expired : ℤ → GoMap Proposal → ProposalTracker → ProposalTracker
unfolding drop_proposal
drop_expired cutoff [] t = t
drop_expired cutoff ((id, p) ∷ m) t =
    drop_expired cutoff m (if ltb_ℤ p.voting_end_time cutoff then drop_proposal id t else t)

unfoldable pub cleanup_old : ℤ → ProposalTracker → ProposalTracker
cleanup_old now t = drop_expired (now -ℤ t.max_proposal_age) t.completed_proposals t
