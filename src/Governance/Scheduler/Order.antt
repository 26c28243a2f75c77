-- ===== src/Governance/Scheduler/Order.antt =====
-- The queue of the scheduler stays in the order of the heights.
use wemixvisor.Base.{
  ℕ, ◌≡◌, refl, sym, String, none, some, Bool, false, List, [], ◌∷◌, All, In, All-In, arith,
  Option-cases, Bool-cases, inl, inr, str_eq,
}
use mathlib.Core.Path.{subst}
use wemixvisor.Base.Int.{ℤ, ◌≤ℤ◌, ◌<ℤ◌, ltb_ℤ}
use wemixvisor.Base.GoMap
use wemixvisor.Base.Heap.{write, field-write}
use wemixvisor.Base.Sort.{IsSorted, sort-IsSorted, remove_first-IsSorted}
use wemixvisor.Governance.{Proposal, UpgradeInfo, UpgradeStatus}
use wemixvisor.Governance.Scheduler.Outcomes.{schedule_upgrade_cases}
use wemixvisor.Governance.Scheduler.{
  Scheduler, is_in_progress, height_less, new_scheduler, stop, set_enabled, set_min_upgrade_delay,
  set_validation_enabled, sort_scheduled_queue, store_upgrade, schedule_upgrade, upgrade_of,
  move_to_completed, assign, finish, apply_status, update_status, cancel_upgrade, is_upgrade_ready,
  first_ready, cleanup_old,
}

-- No queued upgrade stands before one of a smaller height.
abbrev pub InOrder : Scheduler → Type 0
InOrder s = IsSorted (height_less s.heap) s.scheduled_queue

abbrev by_height : (ℕ → ℤ) → ℕ → ℕ → Bool
by_height f i j = ltb_ℤ (f i) (f j)

-- Only the heights of the objects matter.
same_heights :
    (h h' : ℕ → UpgradeInfo) (q : List ℕ)
    → ◌≡◌ {A = ℕ → ℤ} (λ i. (h' i).height) (λ i. (h i).height)
    → IsSorted (height_less h) q
    → IsSorted (height_less h') q
same_heights h h' q e s = subst (λ f. IsSorted (by_height f) q) (sym e) s

sort_scheduled_queue-InOrder : (s : Scheduler) → InOrder (sort_scheduled_queue s)
unfolding sort_scheduled_queue
sort_scheduled_queue-InOrder s =
    sort-IsSorted (height_less s.heap) (λ a b h. ground arith) (λ a b c h k. ground arith)
      s.scheduled_queue

store_upgrade-InOrder : (u : UpgradeInfo) (s : Scheduler) → InOrder (store_upgrade u s)
unfolding store_upgrade
store_upgrade-InOrder u s = sort_scheduled_queue-InOrder _

assign-InOrder :
    (p : ℕ) (u : UpgradeInfo) (s : Scheduler)
    → u.height ≡ (s.heap p).height
    → InOrder s
    → InOrder (assign p u s)
unfolding assign
assign-InOrder p u s e h =
    same_heights s.heap (write s.heap p u) s.scheduled_queue
      (field-write (λ (x : UpgradeInfo). x.height) s.heap p u e) h

move_to_completed-InOrder : (p : ℕ) (s : Scheduler) → InOrder s → InOrder (move_to_completed p s)
unfolding move_to_completed
move_to_completed-InOrder p s h =
    remove_first-IsSorted (height_less s.heap) (λ q. str_eq (s.heap q).name (s.heap p).name)
      s.scheduled_queue h

finish-InOrder :
    (now : ℤ) (p : ℕ) (st : UpgradeStatus) (s : Scheduler) → InOrder s → InOrder (finish now p st s)
unfolding finish
finish-InOrder now p st s h = move_to_completed-InOrder p _ (assign-InOrder p _ s refl h)

apply_status-InOrder :
    (now : ℤ) (p : ℕ) (st : UpgradeStatus) (s : Scheduler)
    → InOrder s
    → InOrder (apply_status now p st s)
unfolding apply_status
apply_status-InOrder now p UpgradeStatus.in_progress s h = assign-InOrder p _ s refl h
apply_status-InOrder now p UpgradeStatus.completed s h =
    finish-InOrder now p UpgradeStatus.completed s h
apply_status-InOrder now p UpgradeStatus.failed s h = finish-InOrder now p UpgradeStatus.failed s h
apply_status-InOrder now p UpgradeStatus.cancelled s h =
    finish-InOrder now p UpgradeStatus.cancelled s h
apply_status-InOrder now p UpgradeStatus.scheduled s h = assign-InOrder p _ s refl h
apply_status-InOrder now p (UpgradeStatus.other t) s h = assign-InOrder p _ s refl h

pub data Request : Type 0 where
  schedule : ℤ → Proposal → Request
  update : ℤ → String → UpgradeStatus → Request
  cancel : ℤ → String → Request
  cleanup : ℤ → ℤ → Request
  enable : Bool → Request
  delay : ℤ → Request
  validation : Bool → Request
  shutdown : Request

unfoldable pub serve : Request → Scheduler → Scheduler
serve (schedule now p) s = (schedule_upgrade now p s).0
serve (update now name st) s = (update_status now name st s).0
serve (cancel now name) s = (cancel_upgrade now name s).0
serve (cleanup now age) s = cleanup_old now age s
serve (enable b) s = set_enabled b s
serve (delay d) s = set_min_upgrade_delay d s
serve (validation b) s = set_validation_enabled b s
serve shutdown s = stop s

unfoldable pub serve_all : List Request → Scheduler → Scheduler
unfolding serve
serve_all [] s = s
serve_all (r ∷ rs) s = serve_all rs (serve r s)

schedule_upgrade-InOrder :
    (now : ℤ) (p : Proposal) (s : Scheduler) → InOrder s → InOrder (schedule_upgrade now p s).0
schedule_upgrade-InOrder now p s h = elim (schedule_upgrade_cases now p s) [
  | inl (e, q) ↦ rw q h
  | inr t ↦ rw t.stored (store_upgrade-InOrder (upgrade_of now p t.info) s)
]

update_status-InOrder :
    (now : ℤ) (name : String) (st : UpgradeStatus) (s : Scheduler)
    → InOrder s
    → InOrder (update_status now name st s).0
unfolding update_status
update_status-InOrder now name st s h = elim (Option-cases (GoMap.lookup name s.upgrades)) [
  | inl e ↦ rw (e, update_status) h
  | inr (p, e) ↦ rw (e, update_status) (apply_status-InOrder now p st s h)
]

cancel_upgrade-InOrder :
    (now : ℤ) (name : String) (s : Scheduler) → InOrder s → InOrder (cancel_upgrade now name s).0
unfolding cancel_upgrade
cancel_upgrade-InOrder now name s h = elim (Option-cases (GoMap.lookup name s.upgrades)) [
  | inl e ↦ rw (e, cancel_upgrade) h
  | inr (p, e) ↦ elim (Bool-cases (is_in_progress (s.heap p).status)) [
    | inl busy ↦ rw (e, cancel_upgrade, busy) h
    | inr idle ↦
        rw (e, cancel_upgrade, idle)
          (move_to_completed-InOrder p _ (
            assign-InOrder p
              (record (s.heap p) { status = UpgradeStatus.cancelled; completed_time = some now }) s
              refl h))
  ]
]

-- Every request keeps the queue in the order of the heights.
pub serve-InOrder : (r : Request) (s : Scheduler) → InOrder s → InOrder (serve r s)
unfolding serve cleanup_old set_enabled set_min_upgrade_delay set_validation_enabled stop
serve-InOrder (schedule now p) s h = schedule_upgrade-InOrder now p s h
serve-InOrder (update now name st) s h = update_status-InOrder now name st s h
serve-InOrder (cancel now name) s h = cancel_upgrade-InOrder now name s h
serve-InOrder (cleanup now age) s h = h
serve-InOrder (enable b) s h = h
serve-InOrder (delay d) s h = h
serve-InOrder (validation b) s h = h
serve-InOrder shutdown s h = h

serve_all-InOrder_from : (rs : List Request) (s : Scheduler) → InOrder s → InOrder (serve_all rs s)
unfolding serve_all
serve_all-InOrder_from [] s h = h
serve_all-InOrder_from (r ∷ rs) s h = serve_all-InOrder_from rs (serve r s) (serve-InOrder r s h)

-- After any requests to a new scheduler the queue is in the order of the heights: no upgrade
-- stands before one of a smaller height.
pub serve_all-InOrder :
    (rs : List Request) (heap : ℕ → UpgradeInfo) → InOrder (serve_all rs (new_scheduler heap))
unfolding new_scheduler
serve_all-InOrder rs heap = serve_all-InOrder_from rs (new_scheduler heap) tt

ready_head :
    (current : ℤ) (heap : ℕ → UpgradeInfo) (p : ℕ) (l : List ℕ)
    → IsSorted (height_less heap) l
    → first_ready current heap l ≡ some p
    → ((heap p).height ≤ℤ current)
      × ((heap p).status ≡ UpgradeStatus.scheduled)
      × ((q : ℕ) → In q l → (heap p).height ≤ℤ (heap q).height)
unfolding first_ready
ready_head current heap p [] h e = cc
ready_head current heap p (r ∷ l) h e =
    let same : r ≡ p = ground arith in
    (
      ground arith,
      ground arith,
      λ q m. elim m [
        | inl here ↦ ground arith
        | inr later ↦ ground (arith, All-In (λ y. height_less heap y r ≡ false) q l h.0 later)
      ],
    )

-- In a queue that is in order, the upgrade that is ready at a height is scheduled, its height is
-- reached, and no queued upgrade has a smaller height.
pub is_upgrade_ready-least :
    (current : ℤ) (p : ℕ) (s : Scheduler)
    → InOrder s
    → is_upgrade_ready current s ≡ some p
    → ((s.heap p).height ≤ℤ current)
      × ((s.heap p).status ≡ UpgradeStatus.scheduled)
      × ((q : ℕ) → In q s.scheduled_queue → (s.heap p).height ≤ℤ (s.heap q).height)
unfolding is_upgrade_ready
is_upgrade_ready-least current p s h e = ready_head current s.heap p s.scheduled_queue h e

waiting_head :
    (current : ℤ) (heap : ℕ → UpgradeInfo) (l : List ℕ)
    → IsSorted (height_less heap) l
    → All (λ q. (heap q).status ≡ UpgradeStatus.scheduled) l
    → first_ready current heap l ≡ none
    → (q : ℕ) → In q l
    → current <ℤ (heap q).height
unfolding first_ready
waiting_head current heap [] h w e q m = absurd m
waiting_head current heap (r ∷ l) h w e q (inl here) = ground arith
waiting_head current heap (r ∷ l) h w e q (inr later) =
    ground (arith, All-In (λ y. height_less heap y r ≡ false) q l h.0 later)

-- If no upgrade is ready at a height, the queue is in order and its upgrades all have the status
-- scheduled, then the height of every queued upgrade is still to come: none is missed.
pub is_upgrade_ready-none :
    (current : ℤ) (s : Scheduler)
    → InOrder s
    → All (λ q. (s.heap q).status ≡ UpgradeStatus.scheduled) s.scheduled_queue
    → is_upgrade_ready current s ≡ none
    → (q : ℕ) → In q s.scheduled_queue
    → current <ℤ (s.heap q).height
unfolding is_upgrade_ready
is_upgrade_ready-none current s h w e q m = waiting_head current s.heap s.scheduled_queue h w e q m
