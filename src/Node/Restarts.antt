-- ===== src/Node/Restarts.antt =====
-- What a restart of the node manager does.
use wemixvisor.Base.{
  ℕ, ◌+◌, ◌≡◌, refl, ap, ◌∙◌, some, Bool, true, List, String, arith, is_some, Bool-cases, inl, inr,
}
use wemixvisor.Node.{
  Manager, StartEnv, StopEnv, running, is_running, is_stopped, start_again, restart, reset_state,
  renew_done_ch, send_stop_signal, cleanup_state, close_done_ch,
}
use wemixvisor.Node.Stops.{start_stopped, stop_running}

-- a node that was started once more: it runs as the new process, with the arguments it had
abbrev pub IsRestarted : ℕ → List String → ℕ → Manager × Bool → Type 0
IsRestarted pid args count r =
    (r.1 ≡ true)
    × (r.0.state ≡ running)
    × (r.0.process ≡ some pid)
    × (r.0.node_args ≡ args)
    × (r.0.restart_count ≡ count)
    × (is_some r.0.done_ch ≡ true)

renewed : (m : Manager) → is_some (renew_done_ch m).done_ch ≡ true
unfolding renew_done_ch
renewed m = ground arith

state-renew_done_ch : (m : Manager) → (renew_done_ch m).state ≡ m.state
unfolding renew_done_ch
state-renew_done_ch m = ground arith

restart_count-renew_done_ch : (m : Manager) → (renew_done_ch m).restart_count ≡ m.restart_count
unfolding renew_done_ch
restart_count-renew_done_ch m = ground arith

module _ (env : StartEnv) (pid : ℕ) (has_path : env.has_path ≡ true)
    (binary_found : env.binary_found ≡ true) (spawned : env.spawned ≡ some pid) where
  start_again_stopped :
      (args : List String) (m : Manager)
      → is_stopped m.state ≡ true
      → IsRestarted pid args (m.restart_count + 1) (start_again env args m)
  unfolding start_again
  start_again_stopped args m s =
      rw
        (start_stopped env args pid (renew_done_ch m) (ap is_stopped (state-renew_done_ch m) ∙ s)
          has_path binary_found spawned)
        (refl, refl, refl, refl, ap (λ n. n + 1) (restart_count-renew_done_ch m), renewed m)

  -- If the binary is there and starts, and one of the stop signals can be sent, a `Restart` succeeds
  -- from every state: the node runs as the new process with the arguments it had, the
  -- restart is counted, and there is a channel again that signals the end.
  pub restart_sound :
      (stop_env : StopEnv) (m : Manager)
      → send_stop_signal stop_env ≡ true
      → IsRestarted pid m.node_args (m.restart_count + 1) (restart stop_env env m)
  unfolding restart reset_state cleanup_state close_done_ch
  restart_sound stop_env m s = elim (Bool-cases (is_running m.state)) [
    | inl r ↦
        let (halted, ok) = stop_running stop_env m r s in
        rw (r, ok, halted) (start_again_stopped m.node_args (cleanup_state m) refl)
    | inr r ↦ elim (Bool-cases (is_stopped m.state)) [
      | inl d ↦ rw (r, d) (start_again_stopped m.node_args m d)
      | inr d ↦ rw (r, d) (start_again_stopped m.node_args (reset_state m) refl)
    ]
  ]
