-- ===== src/Node/Stops.antt =====
-- How a start and a stop of the node manager end.
use wemixvisor.Base.{
  ℕ, ◌≡◌, if◌then◌else◌, Bool-cases, refl, some, Bool, true, false, List, String, arith, inl, inr,
}
use wemixvisor.Node.{
  Manager, StartEnv, StopEnv, not_running, kill_failed, graceful, start, stop, restart, start_again,
  reset_state, send_stop_signal, is_closed, running, is_stopped, has_failed, wait_for_shutdown,
  monitor_exit, cleanup_state, forced, is_running,
}

-- a start of a node that runs
pub start_running :
    (env : StartEnv) (args : List String) (m : Manager)
    → is_running m.state ≡ true
    → start env args m ≡ (m, false)
unfolding start
start_running env args m r = ground arith

pub start_stopped :
    (env : StartEnv) (args : List String) (pid : ℕ) (m : Manager)
    → is_stopped m.state ≡ true
    → env.has_path ≡ true
    → env.binary_found ≡ true
    → env.spawned ≡ some pid
    → start env args m ≡ (record m { state = running; node_args = args; process = some pid }, true)
unfolding start
start_stopped env args pid m s h b e = rw e (ground arith)

stop_result : (b : Bool) → has_failed (if b then graceful else forced) ≡ false
stop_result true = refl
stop_result false = refl

pub stop_running :
    (env : StopEnv) (m : Manager)
    → is_running m.state ≡ true
    → send_stop_signal env ≡ true
    → ((stop env m).0 ≡ cleanup_state m) × (has_failed (stop env m).1 ≡ false)
unfolding stop wait_for_shutdown monitor_exit cleanup_state
stop_running env m r s =
    rw (r, s)
      (elim (Bool-cases env.exits_in_time) [
        | inl x ↦ rw x (refl, stop_result (is_closed m.done_ch m.closed))
        | inr x ↦ rw x (refl, stop_result (is_closed m.done_ch m.closed))
      ])

-- If the node runs and none of the three signals can be sent, `Stop` fails and leaves the node in a
-- state in which a `Start` and a `Stop` are refused; a `Restart` goes on as for a manager that was
-- reset to have no process.
pub stop_kill_failed :
    (env again : StopEnv) (start_env : StartEnv) (args : List String) (m : Manager)
    → is_running m.state ≡ true
    → send_stop_signal env ≡ false
    → let halted = (stop env m).0 in
      ((stop env m).1 ≡ kill_failed)
      × (start start_env args halted ≡ (halted, false))
      × (stop again halted ≡ (halted, not_running))
      × (restart again start_env halted ≡ start_again start_env m.node_args (reset_state m))
unfolding stop start restart reset_state
stop_kill_failed env again start_env args m r f = rw (r, f) (refl, refl, refl, refl)
