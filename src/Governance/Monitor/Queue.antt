-- ===== src/Governance/Monitor/Queue.antt =====
-- After a round of `processUpgradeQueue` no upgrade of the queue is left due.
use wemixvisor.Base.{
  ℕ, ◌≡◌, refl, some, Bool, true, false, List, [], ◌∷◌, arith, Bool-cases, Option-cases, inl, inr,
  In, if◌then◌else◌, String, ◌==◌, sym, ◌⊎◌,
}
use wemixvisor.Base.Int.{ℤ}
use wemixvisor.Base.GoMap
use wemixvisor.Base.Heap.{write, write_self}
use wemixvisor.Governance.{UpgradeStatus, UpgradeInfo}
use wemixvisor.Governance.Scheduler.{
  Scheduler, is_scheduled, update_status, apply_status, finish, assign, move_to_completed,
  get_queue,
}
use wemixvisor.Governance.Monitor.{
  Monitor, trigger_upgrade, process_due, is_due, process_queue, process_upgrade_queue,
}

abbrev Started : UpgradeInfo → Type 0
Started u = is_scheduled u.status ≡ false

abbrev pub started_status : Bool → UpgradeStatus
started_status ok = if ok then UpgradeStatus.in_progress else UpgradeStatus.failed

status-Started : (u : UpgradeInfo) (ok : Bool) → Started (record u { status = started_status ok })
status-Started u true = refl
status-Started u false = refl

-- The object is left alone, or it is not scheduled afterwards.
abbrev Touched : Scheduler → Scheduler → ℕ → Type 0
Touched s s' q = Started (s'.heap q) ⊎ (s'.heap q ≡ s.heap q)

apply_status-Touched :
    (now : ℤ) (p : ℕ) (ok : Bool) (s : Scheduler) (q : ℕ)
    → Touched s (apply_status now p (started_status ok) s) q
unfolding apply_status finish assign move_to_completed write
apply_status-Touched now p true s q = elim (Bool-cases (q == p)) [
  | inl e ↦ inl (ground (arith, e))
  | inr e ↦ inr (ground (arith, e))
]
apply_status-Touched now p false s q = elim (Bool-cases (q == p)) [
  | inl e ↦ inl (ground (arith, e))
  | inr e ↦ inr (ground (arith, e))
]

update_status-Touched :
    (now : ℤ) (name : String) (ok : Bool) (s : Scheduler) (q : ℕ)
    → Touched s (update_status now name (started_status ok) s).0 q
unfolding update_status
update_status-Touched now name ok s q = elim (Option-cases (GoMap.lookup name s.upgrades)) [
  | inl e ↦ rw (e, update_status) (inr refl)
  | inr (p, e) ↦ rw (e, update_status) (apply_status-Touched now p ok s q)
]

assign-Touched :
    (p : ℕ) (u : UpgradeInfo) (ok : Bool) (s : Scheduler) (q : ℕ)
    → Touched s (assign p (record u { status = started_status ok }) s) q
unfolding assign write
assign-Touched p u ok s q = elim (Bool-cases (q == p)) [
  | inl e ↦ inl (rw e (status-Started u ok))
  | inr e ↦ inr (rw e refl)
]

assign-Started :
    (p : ℕ) (u : UpgradeInfo) (ok : Bool) (s : Scheduler)
    → Started ((assign p (record u { status = started_status ok }) s).heap p)
unfolding assign
assign-Started p u ok s =
    rw (write_self s.heap p (record u { status = started_status ok })) (status-Started u ok)

Touched-Started :
    (s t : Scheduler) (q : ℕ) → Touched s t q → Started (s.heap q) → Started (t.heap q)
Touched-Started s t q (inl h) k = h
Touched-Started s t q (inr e) k = rw e k

Touched-trans : (s t u : Scheduler) (q : ℕ) → Touched s t q → Touched t u q → Touched s u q
Touched-trans s t u q h (inl k) = inl k
Touched-trans s t u q (inl h) (inr e) = inl (rw e h)
Touched-trans s t u q (inr d) (inr e) = inr (rw e d)

abbrev NotDue : ℤ → Scheduler → ℕ → Type 0
NotDue current s q = is_due current (s.heap q) ≡ false

Started-NotDue : (current : ℤ) (s : Scheduler) (q : ℕ) → Started (s.heap q) → NotDue current s q
Started-NotDue current s q h = ground (arith, h)

Touched-NotDue :
    (current : ℤ) (s t : Scheduler) (q : ℕ)
    → Touched s t q
    → NotDue current s q
    → NotDue current t q
Touched-NotDue current s t q (inl h) k = Started-NotDue current t q h
Touched-NotDue current s t q (inr e) k = rw e k

module _ (now : ℤ) (write_ok : UpgradeInfo → Bool) where
  -- the scheduler with the new status of the upgrade, and behind `UpdateStatus`
  abbrev marked : ℕ → Monitor → Scheduler
  marked p m =
      let u = m.scheduler.heap p in
      assign p (record u { status = started_status (write_ok u) }) m.scheduler

  abbrev updated : ℕ → Monitor → Scheduler
  updated p m =
      let u = m.scheduler.heap p in
      (update_status now u.name (started_status (write_ok u)) (marked p m)).0

  trigger_upgrade-ok :
      (u : UpgradeInfo) (m : Monitor) → (trigger_upgrade write_ok u m).1 ≡ write_ok u
  unfolding trigger_upgrade
  trigger_upgrade-ok u m = ground arith

  process_due-scheduler :
      (p : ℕ) (m : Monitor) → (process_due now write_ok p m).scheduler ≡ updated p m
  unfolding process_due
  process_due-scheduler p m = rw (trigger_upgrade-ok (m.scheduler.heap p) m) refl

  updated-Touched : (p : ℕ) (m : Monitor) (q : ℕ) → Touched (marked p m) (updated p m) q
  updated-Touched p m q =
      let u = m.scheduler.heap p in update_status-Touched now u.name (write_ok u) (marked p m) q

  process_due-Touched :
      (p : ℕ) (m : Monitor) (q : ℕ) → Touched m.scheduler (process_due now write_ok p m).scheduler q
  process_due-Touched p m q =
      let u = m.scheduler.heap p in
      rw (process_due-scheduler p m) (
        Touched-trans m.scheduler (marked p m) (updated p m) q
          (assign-Touched p u (write_ok u) m.scheduler q) (updated-Touched p m q))

  process_due-Started :
      (p : ℕ) (m : Monitor) → Started ((process_due now write_ok p m).scheduler.heap p)
  process_due-Started p m =
      let u = m.scheduler.heap p in
      rw (process_due-scheduler p m) (
        Touched-Started (marked p m) (updated p m) p (updated-Touched p m p)
          (assign-Started p u (write_ok u) m.scheduler))

  step : ℤ → ℕ → Monitor → Monitor
  step current p m = if is_due current (m.scheduler.heap p) then process_due now write_ok p m else m

  step-Touched :
      (current : ℤ) (p : ℕ) (m : Monitor) (q : ℕ)
      → Touched m.scheduler (step current p m).scheduler q
  unfolding step
  step-Touched current p m q = elim (Bool-cases (is_due current (m.scheduler.heap p))) [
    | inl e ↦ rw e (process_due-Touched p m q)
    | inr e ↦ rw e (inr refl)
  ]

  step-NotDue : (current : ℤ) (p : ℕ) (m : Monitor) → NotDue current (step current p m).scheduler p
  unfolding step
  step-NotDue current p m = elim (Bool-cases (is_due current (m.scheduler.heap p))) [
    | inl e ↦ rw e (
        Started-NotDue current (process_due now write_ok p m).scheduler p (process_due-Started p m))
    | inr e ↦ rw e e
  ]

  process_queue-step :
      (current : ℤ) (p : ℕ) (ps : List ℕ) (m : Monitor)
      → process_queue now current write_ok (p ∷ ps) m
        ≡ process_queue now current write_ok ps (step current p m)
  unfolding process_queue step
  process_queue-step current p ps m = refl

  process_queue-nil : (current : ℤ) (m : Monitor) → process_queue now current write_ok [] m ≡ m
  unfolding process_queue
  process_queue-nil current m = refl

  process_queue-Touched :
      (current : ℤ) (ps : List ℕ) (m : Monitor) (q : ℕ)
      → Touched m.scheduler (process_queue now current write_ok ps m).scheduler q
  process_queue-Touched current [] m q = rw (process_queue-nil current m) (inr refl)
  process_queue-Touched current (p ∷ ps) m q = rw (process_queue-step current p ps m) (
      Touched-trans m.scheduler (step current p m).scheduler
        (process_queue now current write_ok ps (step current p m)).scheduler q
        (step-Touched current p m q) (process_queue-Touched current ps (step current p m) q))

  process_queue-NotDue :
      (current : ℤ) (ps : List ℕ) (m : Monitor) (q : ℕ)
      → In q ps
      → NotDue current (process_queue now current write_ok ps m).scheduler q
  process_queue-NotDue current [] m q h = absurd h
  process_queue-NotDue current (p ∷ ps) m q (inl e) = rw (process_queue-step current p ps m) (
      Touched-NotDue current (step current p m).scheduler
        (process_queue now current write_ok ps (step current p m)).scheduler q
        (process_queue-Touched current ps (step current p m) q)
        (rw (sym e) (step-NotDue current p m)))
  process_queue-NotDue current (p ∷ ps) m q (inr h) =
      rw (process_queue-step current p ps m)
        (process_queue-NotDue current ps (step current p m) q h)

  -- When the height is known, a round of processUpgradeQueue leaves no upgrade of the queue due:
  -- each one whose height is reached has left the status `scheduled`, whether the file could be
  -- written or not.
  pub process_upgrade_queue-NotDue :
      (current : ℤ) (m : Monitor) (q : ℕ)
      → In q (get_queue m.scheduler)
      → is_due current ((process_upgrade_queue now (some current) write_ok m).0.scheduler.heap q)
        ≡ false
  unfolding process_upgrade_queue
  process_upgrade_queue-NotDue current m q h =
      process_queue-NotDue current (get_queue m.scheduler) m q h
