-- ===== src/Node/Events.antt =====
-- Runs of the node manager: its calls, the exits of the process and the automatic restarts.
use wemixvisor.Base.{
  ℕ, ◌+◌, ◌-◌, ◌≡◌, ◌⊎◌, refl, some, true, false, List, [], ◌∷◌, String, Option-cases, Bool-cases,
  inl, inr, if◌then◌else◌, ◌==◌, ◌||◌, ◌&&◌,
}
use wemixvisor.Node.{
  running, stopping, error, Manager, StartEnv, StopEnv, not_running, kill_failed, graceful, forced,
  start, stop, restart, monitor_exit, start_again, reset_state, renew_done_ch, set_node_args,
  wait_for_shutdown, cleanup_state, send_stop_signal, is_closed, has_failed, is_stopped, is_running,
  is_stopping,
}

pub data Event : Type 0 where
  start_call : StartEnv → List String → Event
  stop_call : StopEnv → Event
  restart_call : StopEnv → StartEnv → Event
  auto_restart : StopEnv → StartEnv → Event
  process_exit : Event
  set_args_call : List String → Event

-- A process is monitored while the node runs or is being stopped; an automatic restart needs a
-- goroutine that sleeps.
unfoldable pub step : Event → Manager → Manager
step (start_call env args) m = (start env args m).0
step (stop_call env) m = (stop env m).0
step (restart_call stop_env env) m = (restart stop_env env m).0
step (auto_restart stop_env env) m =
    let woken : Manager = record m { pending_restarts = m.pending_restarts - 1 } in
    if m.pending_restarts == 0 then m else (restart stop_env env woken).0
step process_exit m = if is_running m.state || is_stopping m.state then monitor_exit m else m
step (set_args_call args) m = set_node_args args m

unfoldable pub run : List Event → Manager → Manager
run [] m = m
run (e ∷ es) m = run es (step e m)

pub start_cases :
    (env : StartEnv) (args : List String) (m : Manager)
    → (start env args m ≡ (m, false))
      ⊎ (start env args m ≡ (record m { state = error; node_args = args }, false))
      ⊎ ((pid : ℕ) × (is_stopped m.state ≡ true)
          × (start env args m
              ≡ (record m { state = running; node_args = args; process = some pid }, true)))
unfolding start
start_cases env args m = elim (Option-cases env.spawned) [
  | inl e ↦ rw e (elim (Bool-cases (is_stopped m.state)) [
    | inl s ↦ rw s (inr (inl refl))
    | inr s ↦ rw s (inl refl)
  ])
  | inr (pid, e) ↦ rw e (elim (Bool-cases (is_stopped m.state)) [
    | inl s ↦ rw s (elim (Bool-cases (env.has_path && env.binary_found)) [
      | inl f ↦ rw f (inr (inr (pid, refl, refl)))
      | inr f ↦ rw f (inr (inl refl))
    ])
    | inr s ↦ rw s (inl refl)
  ])
]

pub stop_cases :
    (env : StopEnv) (m : Manager)
    → (stop env m ≡ (m, not_running))
      ⊎ ((is_running m.state ≡ true) × (stop env m ≡ (record m { state = stopping }, kill_failed)))
      ⊎ ((is_running m.state ≡ true)
          × (stop env m
              ≡ (cleanup_state m, if is_closed m.done_ch m.closed then graceful else forced)))
unfolding stop wait_for_shutdown monitor_exit cleanup_state
stop_cases env m = elim (Bool-cases (is_running m.state)) [
  | inr r ↦ rw r (inl refl)
  | inl r ↦ rw r (elim (Bool-cases (send_stop_signal env)) [
    | inr k ↦ rw k (inr (inl (refl, refl)))
    | inl k ↦ rw k (elim (Bool-cases env.exits_in_time) [
      | inl x ↦ rw x (inr (inr (refl, refl)))
      | inr x ↦ rw x (inr (inr (refl, refl)))
    ])
  ])
]

pub start_again_cases :
    (env : StartEnv) (args : List String) (m : Manager)
    → ((start_again env args m).0 ≡ (start env args (renew_done_ch m)).0)
      ⊎ ((start_again env args m).0 ≡ (
          let k = (start env args (renew_done_ch m)).0 in
          record k { restart_count = k.restart_count + 1 }))
unfolding start_again
start_again_cases env args m = elim (Bool-cases (start env args (renew_done_ch m)).1) [
  | inl e ↦ rw e (inr refl)
  | inr e ↦ rw e (inl refl)
]

pub restart_cases :
    (stop_env : StopEnv) (env : StartEnv) (m : Manager)
    → (restart stop_env env m ≡ ((stop stop_env m).0, false))
      ⊎ ((k : Manager) × (restart stop_env env m ≡ start_again env m.node_args k)
          × ((k ≡ (stop stop_env m).0) ⊎ (k ≡ m) ⊎ (k ≡ reset_state m)))
unfolding restart
restart_cases stop_env env m = elim (Bool-cases (is_running m.state)) [
  | inl r ↦ rw r (elim (Bool-cases (has_failed (stop stop_env m).1)) [
    | inl f ↦ rw f (inl refl)
    | inr f ↦ rw f (inr ((stop stop_env m).0, refl, inl refl))
  ])
  | inr r ↦ rw r (elim (Bool-cases (is_stopped m.state)) [
    | inl s ↦ rw s (inr (m, refl, inr (inl refl)))
    | inr s ↦ rw s (inr (reset_state m, refl, inr (inr refl)))
  ])
]
