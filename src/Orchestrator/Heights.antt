-- ===== src/Orchestrator/Heights.antt =====
-- What the orchestrator does at the heights it receives.
use wemixvisor.Base.{
  ◌≡◌, ◌≢◌, refl, ap, ◌∙◌, none, some, false, List, [], ◌∷◌, ◌++◌, All, arith, Option-cases, inl,
  inr, if◌then◌else◌,
}
use wemixvisor.Base.Int.{ℤ, pos, ◌<ℤ◌, ◌≤ℤ◌}
use wemixvisor.Types.{UpgradeInfo}
use wemixvisor.Orchestrator.{
  NodeManager, Orchestrator, UpgradeError, schedule_upgrade, validate_upgrade, switch_binary,
  execute_steps, execute_upgrade, rollback, schedule_all, on_height, on_heights,
}

validate_exact :
    (u : UpgradeInfo) → u.name ≢ "" → pos 0 <ℤ u.height → validate_upgrade u u.height ≡ none
unfolding validate_upgrade
validate_exact u named positive = ground arith

validate_missed :
    (u : UpgradeInfo) (h : ℤ) → u.height <ℤ h → (e : UpgradeError) × (validate_upgrade u h ≡ some e)
unfolding validate_upgrade
validate_missed u h missed = elim (Option-cases (validate_upgrade u h)) [
  | inl e ↦ ground arith
  | inr e ↦ e
]

module _ {N : Type 0} (M : NodeManager N) where
  -- stop, then start; if one of them fails, start once more
  abbrev pub upgrade_node : N → N
  upgrade_node n =
      let (stopped, stop_ok) = M.stop_node n in
      let (running, start_ok) = M.start_node [] stopped in
      if stop_ok
      then if start_ok then running else (M.start_node [] running).0
      else (M.start_node [] stopped).0

  on_height_below :
      (during : List UpgradeInfo) (h : ℤ) (o : Orchestrator N) (u : UpgradeInfo)
      → o.pending_upgrade ≡ some u
      → h <ℤ u.height
      → on_height M during h o ≡ o
  unfolding on_height
  on_height_below during h o u p below = ground arith

  on_heights_below :
      (before rest : List (ℤ × List UpgradeInfo)) (o : Orchestrator N) (u : UpgradeInfo)
      → o.pending_upgrade ≡ some u
      → All (λ b. b.0 <ℤ u.height) before
      → on_heights M (before ++ rest) o ≡ on_heights M rest o
  unfolding on_heights
  on_heights_below [] rest o u p all = refl
  on_heights_below ((h, during) ∷ before) rest o u p (below, all) =
      ap (on_heights M (before ++ rest)) (on_height_below during h o u p below)
      ∙ on_heights_below before rest o u p all

  schedule_all_cleared :
      (during : List UpgradeInfo) (o : Orchestrator N)
      → record (schedule_all M during o) { pending_upgrade = none }
        ≡ record o { pending_upgrade = none }
  unfolding schedule_all schedule_upgrade
  schedule_all_cleared [] o = refl
  schedule_all_cleared (u ∷ during) o = schedule_all_cleared during (schedule_upgrade u o)

  -- the node after `executeUpgrade` and the rollback of a failure
  executed_node : UpgradeInfo → ℤ → N → N
  executed_node u h n =
      let (n', e) = execute_steps M u h n in elim e [ none ↦ n' | some x ↦ (M.start_node [] n').0 ]

  on_height_reached :
      (during : List UpgradeInfo) (h : ℤ) (o : Orchestrator N) (u : UpgradeInfo)
      → o.pending_upgrade ≡ some u
      → o.upgrading ≡ false
      → u.height ≤ℤ h
      → on_height M during h o
        ≡ record o { node = executed_node u h o.node; pending_upgrade = none }
  unfolding on_height execute_upgrade rollback switch_binary executed_node
  on_height_reached during h o u p idle reached =
      elim (Option-cases (execute_steps M u h o.node).1) [
        | inl e ↦ ground (
          arith,
          schedule_all_cleared during (record o { node = (execute_steps M u h o.node).0 }),
        )
        | inr (x, e) ↦ ground (
          arith,
          schedule_all_cleared during
              (record o { node = (M.start_node [] (execute_steps M u h o.node).0).0 }),
        )
      ]

  executed_exact :
      (u : UpgradeInfo) (n : N)
      → u.name ≢ ""
      → pos 0 <ℤ u.height
      → executed_node u u.height n ≡ upgrade_node n
  unfolding executed_node execute_steps switch_binary
  executed_exact u n named positive = ground (arith, validate_exact u named positive)

  executed_missed :
      (u : UpgradeInfo) (h : ℤ) (n : N)
      → u.height <ℤ h
      → executed_node u h n ≡ (M.start_node [] n).0
  unfolding executed_node execute_steps
  executed_missed u h n missed = ground (arith, validate_missed u h missed)

  on_height_idle :
      (during : List UpgradeInfo) (h : ℤ) (o : Orchestrator N)
      → o.pending_upgrade ≡ none
      → on_height M during h o ≡ o
  unfolding on_height
  on_height_idle during h o p = ground arith

  on_heights_idle :
      (hs : List (ℤ × List UpgradeInfo)) (o : Orchestrator N)
      → o.pending_upgrade ≡ none
      → on_heights M hs o ≡ o
  unfolding on_heights
  on_heights_idle [] o p = refl
  on_heights_idle ((h, during) ∷ rest) o p =
      ap (on_heights M rest) (on_height_idle during h o p) ∙ on_heights_idle rest o p

  on_heights_reached :
      (before rest : List (ℤ × List UpgradeInfo)) (during : List UpgradeInfo) (h : ℤ)
      (o : Orchestrator N) (u : UpgradeInfo)
      → o.pending_upgrade ≡ some u
      → o.upgrading ≡ false
      → All (λ b. b.0 <ℤ u.height) before
      → u.height ≤ℤ h
      → on_heights M (before ++ (h, during) ∷ rest) o
        ≡ record o { node = executed_node u h o.node; pending_upgrade = none }
  unfolding on_heights
  on_heights_reached before rest during h o u p idle all reached =
      on_heights_below before ((h, during) ∷ rest) o u p all
      ∙ ap (on_heights M rest) (on_height_reached during h o u p idle reached)
      ∙ on_heights_idle rest (record o { node = executed_node u h o.node; pending_upgrade = none })
          refl

  -- If no upgrade is under way, the upgrade height is among the heights received and all before it
  -- are lower, then the pending upgrade, which has a name and a positive height, is executed exactly
  -- once: the node is stopped and started, and started once more if either fails. Afterwards nothing
  -- is pending, whatever was scheduled meanwhile and whatever heights follow.
  pub on_heights_exact :
      (before rest : List (ℤ × List UpgradeInfo)) (during : List UpgradeInfo) (o : Orchestrator N)
      (u : UpgradeInfo)
      → o.pending_upgrade ≡ some u
      → o.upgrading ≡ false
      → u.name ≢ ""
      → pos 0 <ℤ u.height
      → All (λ b. b.0 <ℤ u.height) before
      → on_heights M (before ++ (u.height, during) ∷ rest) o
        ≡ record o { node = upgrade_node o.node; pending_upgrade = none }
  on_heights_exact before rest during o u p idle named positive all =
      on_heights_reached before rest during u.height o u p idle all (omega arith)
      ∙ ap (λ n. record o { node = n; pending_upgrade = none })
          (executed_exact u o.node named positive)

  -- If no upgrade is under way and the heights received skip the upgrade height, the upgrade is
  -- lost: at the first height above it the node is not stopped, only started once more, and
  -- afterwards nothing is pending.
  pub on_heights_missed :
      (before rest : List (ℤ × List UpgradeInfo)) (during : List UpgradeInfo) (h : ℤ)
      (o : Orchestrator N) (u : UpgradeInfo)
      → o.pending_upgrade ≡ some u
      → o.upgrading ≡ false
      → All (λ b. b.0 <ℤ u.height) before
      → u.height <ℤ h
      → on_heights M (before ++ (h, during) ∷ rest) o
        ≡ record o { node = (M.start_node [] o.node).0; pending_upgrade = none }
  on_heights_missed before rest during h o u p idle all missed =
      on_heights_reached before rest during h o u p idle all (omega arith)
      ∙ ap (λ n. record o { node = n; pending_upgrade = none }) (executed_missed u h o.node missed)
