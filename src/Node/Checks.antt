-- ===== src/Node/Checks.antt =====
-- The node manager's theorems and operations at concrete inputs.
use wemixvisor.Base.{◌≡◌, ◌≤◌, ◌+◌, refl, some, true, false, List, [], ◌∷◌}
use wemixvisor.Base.Int.{pos}
use wemixvisor.Node.{
  Manager, StartEnv, StopEnv, running, error, forced, start, stop, restart, start_again,
  reset_state, new_manager, close_done_ch, handle_process_crash, should_auto_restart, monitor_exit,
  send_stop_signal, wait_for_shutdown, cleanup_state, renew_done_ch,
}
use wemixvisor.Node.Events.{Event, start_call, auto_restart, process_exit, step, run}
use wemixvisor.Node.Consistency.{IsConsistent, run-IsConsistent}
use wemixvisor.Node.Restarts.{IsRestarted, restart_sound}
use wemixvisor.Node.Budget.{restarts_bounded}

abbrev good_start : StartEnv
good_start = record { has_path = true; binary_found = true; spawned = some 77 }

abbrev good_stop : StopEnv
good_stop = record {
  term_group = true;
  term_process = true;
  kill_group = true;
  exits_in_time = true;
}

abbrev no_signals : StopEnv
no_signals = record {
  term_group = false;
  term_process = false;
  kill_group = false;
  exits_in_time = true;
}

abbrev crash_run : List Event
crash_run =
    start_call good_start ("--syncmode" ∷ [])
    ∷ process_exit
    ∷ auto_restart good_stop good_start
    ∷ process_exit
    ∷ []

run-IsConsistent_example : IsConsistent (run crash_run (new_manager (pos 1) true))
run-IsConsistent_example = run-IsConsistent (pos 1) true crash_run

restarts_bounded_example :
    let m = run crash_run (new_manager (pos 1) true) in
    (m.restart_count + m.pending_restarts ≤ (new_manager (pos 1) true).max_restarts)
    × (m.max_restarts ≡ (new_manager (pos 1) true).max_restarts)
restarts_bounded_example = restarts_bounded (pos 1) true crash_run (tt, (tt, (tt, (tt, tt))))

abbrev live : Manager
live = record {
  state = running;
  process = some 12;
  node_args = "--syncmode" ∷ [];
  restart_count = 0;
  max_restarts = 5;
  restart_on_failure = true;
  done_ch = some 0;
  next_ch = 1;
  closed = [];
  pending_restarts = 0;
}

crash_test : (run crash_run (new_manager (pos 1) true)).state ≡ error
unfolding new_manager run step start handle_process_crash monitor_exit close_done_ch
    should_auto_restart restart reset_state start_again renew_done_ch
crash_test = refl

stop_test : (stop good_stop live).1 ≡ forced
unfolding stop send_stop_signal wait_for_shutdown monitor_exit
stop_test = refl

restart_test : (restart good_stop good_start live).0.process ≡ some 77
unfolding restart stop send_stop_signal wait_for_shutdown monitor_exit cleanup_state close_done_ch
    start_again renew_done_ch start
restart_test = refl

restart_sound_example : IsRestarted 77 live.node_args 1 (restart good_stop good_start live)
unfolding send_stop_signal
restart_sound_example = restart_sound good_start 77 refl refl refl good_stop live refl
