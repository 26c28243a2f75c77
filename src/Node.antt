-- ===== src/Node.antt =====
-- The node manager of internal/node/manager.go and internal/node/state.go. What the operating system answers is an
-- argument. A channel is a number, `closed` holds the closed ones, and `pending_restarts` counts the
-- goroutines of `scheduleAutoRestart` that still sleep. A process that was killed is taken to be gone
-- when `Stop` clears the state. Left out: health checks, metrics, status reports, environment and log file.
use wemixvisor.Base.{
  ℕ, ◌+◌, ◌-◌, Option, none, some, Bool, true, false, ◌&&◌, ◌||◌, List, [], ◌∷◌, String, ltb,
  is_some, ◌==◌, if◌then◌else◌,
}
use wemixvisor.Base.Int.{ℤ, pos, ltb_ℤ, pos_part}
pub mod Events
pub mod Consistency
pub mod Stops
pub mod Restarts
pub mod Budget
mod Checks

pub data NodeState : Type 0 where
  stopped starting running stopping upgrading error crashed : NodeState

abbrev pub is_stopped : NodeState → Bool
is_stopped stopped = true
is_stopped s = false

abbrev pub is_running : NodeState → Bool
is_running running = true
is_running s = false

abbrev pub is_stopping : NodeState → Bool
is_stopping stopping = true
is_stopping s = false

pub record Manager : Type 0 where
  pub state : NodeState
  pub process : Option ℕ
  pub node_args : List String
  pub restart_count : ℕ
  pub max_restarts : ℕ
  pub restart_on_failure : Bool
  pub done_ch : Option ℕ
  pub next_ch : ℕ
  pub closed : List ℕ
  pub pending_restarts : ℕ

abbrev pub default_max_restarts : ℕ
default_max_restarts = 5

unfoldable pub new_manager : (max_restarts : ℤ) → (restart_on_failure : Bool) → Manager
new_manager max_restarts restart_on_failure = record {
  state = stopped;
  process = none;
  node_args = [];
  restart_count = 0;
  max_restarts = if ltb_ℤ (pos 0) max_restarts then pos_part max_restarts else default_max_restarts;
  restart_on_failure = restart_on_failure;
  done_ch = some 0;
  next_ch = 1;
  closed = [];
  pending_restarts = 0;
}

-- Is there a path to the binary, is the file there, and the process id `cmd.Start` gives (`none`
-- for an error).
pub record StartEnv : Type 0 where
  pub has_path : Bool
  pub binary_found : Bool
  pub spawned : Option ℕ

-- the flag: was the node started?
unfoldable pub start : StartEnv → List String → Manager → Manager × Bool
start env args m =
    if is_stopped m.state
    then elim env.spawned [
      | none ↦ (record m { state = error; node_args = args }, false)
      | some pid ↦
          if env.has_path && env.binary_found
          then (record m { state = running; node_args = args; process = some pid }, true)
          else (record m { state = error; node_args = args }, false)
    ]
    else (m, false)

-- closing a channel, unless it is nil
abbrev pub close_ch : Option ℕ → List ℕ → List ℕ
close_ch none closed = closed
close_ch (some c) closed = c ∷ closed

unfoldable pub close_done_ch : Manager → Manager
close_done_ch m = record m { done_ch = none; closed = close_ch m.done_ch m.closed }

unfoldable pub should_auto_restart : Manager → Bool
should_auto_restart m = m.restart_on_failure && ltb m.restart_count m.max_restarts

unfoldable pub handle_process_crash : Manager → Manager
handle_process_crash m =
    let m' = close_done_ch m in
    if should_auto_restart m'
    then record m' { state = crashed; pending_restarts = m'.pending_restarts + 1 }
    else record m' { state = error }

-- `monitor`, once the process is gone
unfoldable pub monitor_exit : Manager → Manager
monitor_exit m = if is_stopping m.state then m else handle_process_crash m

-- Do the three signals succeed, and is the process gone before the grace period ends?
pub record StopEnv : Type 0 where
  pub term_group : Bool
  pub term_process : Bool
  pub kill_group : Bool
  pub exits_in_time : Bool

pub data StopResult : Type 0 where
  not_running kill_failed graceful forced : StopResult

-- does `Stop` return an error?
abbrev pub has_failed : StopResult → Bool
has_failed not_running = true
has_failed kill_failed = true
has_failed graceful = false
has_failed forced = false

unfoldable pub send_stop_signal : StopEnv → Bool
send_stop_signal env = env.term_group || env.term_process || env.kill_group

abbrev pub contains_ch : ℕ → List ℕ → Bool
contains_ch c [] = false
contains_ch c (d ∷ ds) = c == d || contains_ch c ds

abbrev pub is_closed : Option ℕ → List ℕ → Bool
is_closed none closed = false
is_closed (some c) closed = contains_ch c closed

-- The flag tells whether the channel that is waited for was closed in time.
unfoldable pub wait_for_shutdown : StopEnv → Manager → Manager × Bool
wait_for_shutdown env m =
    let exited = monitor_exit m in
    if env.exits_in_time
    then (exited, is_closed m.done_ch exited.closed)
    else (exited, is_closed m.done_ch m.closed)

unfoldable pub cleanup_state : Manager → Manager
cleanup_state m = close_done_ch (record m { state = stopped; process = none })

unfoldable pub stop : StopEnv → Manager → Manager × StopResult
stop env m =
    let m' : Manager = record m { state = stopping } in
    let (waited, done) = wait_for_shutdown env m' in
    if is_running m.state
    then if send_stop_signal env
      then (cleanup_state waited, if done then graceful else forced)
      else (m', kill_failed)
    else (m, not_running)

unfoldable pub reset_state : Manager → Manager
reset_state m = record m { state = stopped; process = none }

unfoldable pub renew_done_ch : Manager → Manager
renew_done_ch m =
    if is_some m.done_ch then m else record m { done_ch = some m.next_ch; next_ch = m.next_ch + 1 }

-- the part of `Restart` after the node was stopped
unfoldable pub start_again : StartEnv → List String → Manager → Manager × Bool
start_again env args m =
    let (m', ok) = start env args (renew_done_ch m) in
    if ok then (record m' { restart_count = m'.restart_count + 1 }, true) else (m', false)

unfoldable pub restart : StopEnv → StartEnv → Manager → Manager × Bool
restart stop_env env m =
    let (halted, r) = stop stop_env m in
    let again = start_again env m.node_args halted in
    let plain = start_again env m.node_args m in
    let reset = start_again env m.node_args (reset_state m) in
    if is_running m.state
    then if has_failed r then (halted, false) else again
    else if is_stopped m.state
    then plain
    else reset

unfoldable pub set_node_args : List String → Manager → Manager
set_node_args args m = record m { node_args = args }
