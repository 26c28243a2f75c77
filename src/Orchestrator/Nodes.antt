-- ===== src/Orchestrator/Nodes.antt =====
-- The node manager as the orchestrator's `NodeManager`, and what an upgrade makes of a running node.
use wemixvisor.Base.{
  ◌≡◌, ◌≢◌, refl, ap, ◌∙◌, ℕ, none, some, true, false, not, List, [], ◌∷◌, ◌++◌, All,
}
use wemixvisor.Base.Int.{ℤ, pos, ◌<ℤ◌}
use wemixvisor.Types.{UpgradeInfo}
use wemixvisor.Node.{
  Manager, StartEnv, StopEnv, running, is_running, start, stop, send_stop_signal, has_failed,
  close_ch, cleanup_state, close_done_ch,
}
use wemixvisor.Node.Stops.{start_running, start_stopped, stop_running}
use wemixvisor.Orchestrator.{NodeManager, Orchestrator, on_heights}
use wemixvisor.Orchestrator.Heights.{upgrade_node, on_heights_exact, on_heights_missed}

abbrev pub node_manager : StopEnv → StartEnv → NodeManager Manager
node_manager stop_env start_env = record {
  stop_node = λ m. ((stop stop_env m).0, not (has_failed (stop stop_env m).1));
  start_node = λ args m. start start_env args m;
}

-- the node that a stop and a start without arguments leave
abbrev pub upgraded : ℕ → Manager → Manager
upgraded pid m = record m {
  state = running;
  process = some pid;
  node_args = [];
  done_ch = none;
  closed = close_ch m.done_ch m.closed;
}

upgrade_running :
    (stop_env : StopEnv) (start_env : StartEnv) (pid : ℕ) (m : Manager)
    → is_running m.state ≡ true
    → send_stop_signal stop_env ≡ true
    → start_env.has_path ≡ true
    → start_env.binary_found ≡ true
    → start_env.spawned ≡ some pid
    → upgrade_node (node_manager stop_env start_env) m ≡ upgraded pid m
unfolding cleanup_state close_done_ch
upgrade_running stop_env start_env pid m r s h b e =
    let (halted, ok) = stop_running stop_env m r s in
    rw (ok, halted, start_stopped start_env [] pid (cleanup_state m) refl h b e) refl

-- If no upgrade is under way, a pending upgrade with a name and a positive height, whose height is
-- received after lower ones, replaces the process of a running node, provided that a signal can be
-- sent and the start succeeds; the new process runs without the node's arguments, and the channel
-- that signals its end is nil.
pub upgrade_running_node :
    (stop_env : StopEnv) (start_env : StartEnv) (pid : ℕ)
    (before rest : List (ℤ × List UpgradeInfo)) (during : List UpgradeInfo)
    (o : Orchestrator Manager) (u : UpgradeInfo)
    → is_running o.node.state ≡ true
    → send_stop_signal stop_env ≡ true
    → start_env.has_path ≡ true
    → start_env.binary_found ≡ true
    → start_env.spawned ≡ some pid
    → o.pending_upgrade ≡ some u
    → o.upgrading ≡ false
    → u.name ≢ ""
    → pos 0 <ℤ u.height
    → All (λ b. b.0 <ℤ u.height) before
    → on_heights (node_manager stop_env start_env) (before ++ (u.height, during) ∷ rest) o
      ≡ record o { node = upgraded pid o.node; pending_upgrade = none }
upgrade_running_node stop_env start_env pid before rest during o u r s h b e p idle named positive
      all =
    on_heights_exact (node_manager stop_env start_env) before rest during o u p idle named positive
      all
    ∙ ap (λ n. record o { node = n; pending_upgrade = none })
        (upgrade_running stop_env start_env pid o.node r s h b e)

-- If no upgrade is under way and the heights received skip the height of the pending upgrade, a
-- running node goes on as it was, and the upgrade is forgotten.
pub missed_running_node :
    (stop_env : StopEnv) (start_env : StartEnv) (before rest : List (ℤ × List UpgradeInfo))
    (during : List UpgradeInfo) (h : ℤ) (o : Orchestrator Manager) (u : UpgradeInfo)
    → is_running o.node.state ≡ true
    → o.pending_upgrade ≡ some u
    → o.upgrading ≡ false
    → All (λ b. b.0 <ℤ u.height) before
    → u.height <ℤ h
    → on_heights (node_manager stop_env start_env) (before ++ (h, during) ∷ rest) o
      ≡ record o { pending_upgrade = none }
missed_running_node stop_env start_env before rest during h o u r p idle all missed =
    on_heights_missed (node_manager stop_env start_env) before rest during h o u p idle all missed
    ∙ ap (λ x. record o { node = x.0; pending_upgrade = none })
        (start_running start_env [] o.node r)
