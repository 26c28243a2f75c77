-- ===== src/Governance/Proposals/Fetching.antt =====
-- What `FetchLatest` and `CleanupOld` do to the tracked proposals.
use wemixvisor.Base.{
  map, contains, Distinct, str_eq, ◌||◌, ◌&&◌, not, if_both, Bool-cases, ◌≡◌, refl, String, Option,
  none, some, Bool, true, false, List, [], ◌∷◌, ◌++◌, arith, inl, inr, is_some, All, All-append, In,
  if◌then◌else◌,
}
use wemixvisor.Base.Int.{ℤ, ltb_ℤ, ◌-ℤ◌}
use wemixvisor.Base.GoMap
use wemixvisor.Base.GoMap.{GoMap, IsMap}
use wemixvisor.Governance.{Proposal, ProposalStatus}
use wemixvisor.Governance.Proposals.{
  ProposalTracker, is_proposal_completed, track, track_all, fetch_all, fetch_latest, drop_proposal,
  drop_expired, cleanup_old,
}
use wemixvisor.Governance.Proposals.Partition.{IsPartition, track_proposals, keep}

abbrev pub ids_of : List Proposal → List String
ids_of = map (λ p. p.id)

abbrev pub or_else : Option Proposal → Option Proposal → Option Proposal
or_else none q = q
or_else (some p) q = some p

abbrev found_with : ProposalTracker → Proposal → List Proposal → List Proposal
found_with t p found = if is_some (GoMap.lookup p.id t.proposals) then found else found ++ p ∷ []

-- the last proposal of the list with this id
unfoldable pub last_with : String → List Proposal → Option Proposal
last_with j [] = none
last_with j (p ∷ ps) = or_else (last_with j ps) (if str_eq p.id j then some p else none)

lookup-track_all :
    (ps : List Proposal) (t : ProposalTracker) (found : List Proposal) (j : String)
    → GoMap.lookup j (track_all ps t found).0.proposals
      ≡ or_else (last_with j ps) (GoMap.lookup j t.proposals)
unfolding track_all last_with
lookup-track_all [] t found j = refl
lookup-track_all (p ∷ ps) t found j = ground (
  arith,
  lookup-track_all ps (track p.id p t) (found_with t p found) j,
  track_proposals p.id p t j,
)

contains-ids-append :
    (j : String) (found : List Proposal) (p : Proposal)
    → contains j (ids_of (found ++ p ∷ [])) ≡ (contains j (ids_of found) || str_eq p.id j)
unfolding contains
contains-ids-append j [] p = ground arith
contains-ids-append j (q ∷ found) p = ground (arith, contains-ids-append j found p)

Distinct-ids-append :
    (found : List Proposal) (p : Proposal)
    → contains p.id (ids_of found) ≡ false
    → Distinct (ids_of found)
    → Distinct (ids_of (found ++ p ∷ []))
unfolding contains
Distinct-ids-append [] p fresh d = (refl, tt)
Distinct-ids-append (q ∷ found) p fresh d =
    ground (arith, fresh, d, Distinct-ids-append found p, contains-ids-append q.id found p)

-- The proposals found so far are tracked, and have distinct ids.
abbrev AreFound : ProposalTracker → List Proposal → Type 0
AreFound t found =
    ((j : String) → contains j (ids_of found) ≡ true → is_some (GoMap.lookup j t.proposals) ≡ true)
    × Distinct (ids_of found)

track-AreFound :
    (p : Proposal) (t : ProposalTracker) (found : List Proposal)
    → AreFound t found
    → AreFound (track p.id p t) (found_with t p found)
track-AreFound p t found (known, d) = elim (Bool-cases (is_some (GoMap.lookup p.id t.proposals))) [
  | inl e ↦ rw e ((λ j c. ground (arith, known j, track_proposals p.id p t j)), d)
  | inr e ↦
      let fresh : contains p.id (ids_of found) ≡ false = ground (arith, known p.id, e) in
      rw e (
        (λ j c. ground (arith, known j, track_proposals p.id p t j, contains-ids-append j found p)),
        Distinct-ids-append found p fresh d,
      )
]

Distinct-track_all :
    (ps : List Proposal) (t : ProposalTracker) (found : List Proposal)
    → AreFound t found
    → Distinct (ids_of (track_all ps t found).1)
unfolding track_all
Distinct-track_all [] t found h = h.1
Distinct-track_all (p ∷ ps) t found h =
    Distinct-track_all ps (track p.id p t) (found_with t p found) (track-AreFound p t found h)

contains-track_all :
    (ps : List Proposal) (t : ProposalTracker) (found : List Proposal) (j : String)
    → contains j (ids_of (track_all ps t found).1) ≡ (
        contains j (ids_of found)
        || (not (is_some (GoMap.lookup j t.proposals)) && contains j (ids_of ps)))
unfolding track_all contains
contains-track_all [] t found j = ground arith
contains-track_all (p ∷ ps) t found j = ground (
  arith,
  contains-track_all ps (track p.id p t) found j,
  contains-track_all ps (track p.id p t) (found ++ p ∷ []) j,
  contains-ids-append j found p,
  track_proposals p.id p t j,
)

found_of :
    (all : List Proposal) (ps : List Proposal) (t : ProposalTracker) (found : List Proposal)
    → All (λ p. In p all) ps
    → All (λ p. In p all) found
    → All (λ p. In p all) (track_all ps t found).1
unfolding track_all
found_of all [] t found h k = k
found_of all (p ∷ ps) t found h k = found_of all ps (track p.id p t) (found_with t p found) h.1 (
    if_both (All (λ q. In q all)) (is_some (GoMap.lookup p.id t.proposals)) k
      (All-append (λ q. In q all) found (p ∷ []) k (h.0, tt)))

All-of_In :
    (P : Proposal → Type 0) (ps : List Proposal) → ((p : Proposal) → In p ps → P p) → All P ps
All-of_In P [] h = tt
All-of_In P (p ∷ ps) h = (h p (inl refl), All-of_In P ps (λ q m. h q (inr m)))

-- After a fetch the tracker has, under each id, the last proposal with this id that the client
-- returned for some status, and what it had before if there is none. The proposals that are
-- reported as new are among those returned; no two have the same id, and their ids are exactly
-- those that were returned and not tracked before.
pub fetch_latest_complete :
    (now : ℤ) (client : ProposalStatus → Option (List Proposal)) (t : ProposalTracker)
    → ((j : String)
        → GoMap.lookup j (fetch_latest now client t).0.proposals
          ≡ or_else (last_with j (fetch_all client)) (GoMap.lookup j t.proposals))
      × All (λ p. In p (fetch_all client)) (fetch_latest now client t).1
      × Distinct (ids_of (fetch_latest now client t).1)
      × ((j : String)
          → contains j (ids_of (fetch_latest now client t).1) ≡ (
              not (is_some (GoMap.lookup j t.proposals)) && contains j (ids_of (fetch_all client))))
unfolding fetch_latest contains
fetch_latest_complete now client t = (
  (λ j. lookup-track_all (fetch_all client) t [] j),
  found_of (fetch_all client) (fetch_all client) t []
      (All-of_In (λ p. In p (fetch_all client)) (fetch_all client) (λ p m. m)) tt,
  Distinct-track_all (fetch_all client) t [] ((λ j c. ground arith), tt),
  (λ j. contains-track_all (fetch_all client) t [] j),
)

-- the voting of a stored proposal ended before the cutoff
abbrev pub is_expired : ℤ → Option Proposal → Bool
is_expired cutoff none = false
is_expired cutoff (some p) = ltb_ℤ p.voting_end_time cutoff

drop_expired-lookup :
    (cutoff : ℤ) (m : GoMap Proposal) (t : ProposalTracker) (j : String)
    → IsMap m
    → GoMap.lookup j (drop_expired cutoff m t).proposals
      ≡ (if is_expired cutoff (GoMap.lookup j m) then none else GoMap.lookup j t.proposals)
unfolding drop_expired drop_proposal GoMap.lookup
drop_expired-lookup cutoff [] t j d = refl
drop_expired-lookup cutoff ((id, p) ∷ m) t j d = ground (
  arith,
  drop_expired-lookup cutoff m t j d.1,
  drop_expired-lookup cutoff m (drop_proposal id t) j d.1,
  GoMap.lookup-delete j id t.proposals,
  GoMap.contains-keys id m,
)

-- In a tracker whose maps partition the proposals, a cleanup forgets exactly the completed
-- proposals whose voting ended before the age limit, and leaves every other one as it was.
pub cleanup_old_exact :
    (now : ℤ) (t : ProposalTracker) (j : String)
    → IsPartition t
    → IsMap t.completed_proposals
    → GoMap.lookup j (cleanup_old now t).proposals ≡ (
        if is_expired
          (now -ℤ t.max_proposal_age)
          (keep is_proposal_completed (GoMap.lookup j t.proposals))
        then none
        else GoMap.lookup j t.proposals)
unfolding cleanup_old
cleanup_old_exact now t j v d =
    rw (drop_expired-lookup (now -ℤ t.max_proposal_age) t.completed_proposals t j d, v.completed j)
      refl
