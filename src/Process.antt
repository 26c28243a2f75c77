-- ===== src/Process.antt =====
-- The process manager of internal/process/manager.go: the cycle of the process and the steps of an
-- upgrade. What the operating system, the hook, the downloader and the backup manager answer are
-- arguments; the symbolic link to the current binary, the backups and the restored backups are
-- kept in the state. Restoring writes the data, never the link. Logging, the delay before a restart and the removal of old backups, whose
-- failure is only logged, are left out.
use wemixvisor.Base.{
  Option, none, some, Bool, true, false, not, ◌&&◌, ◌||◌, List, [], ◌∷◌, ◌++◌, String, str_eq,
  if◌then◌else◌, is_some,
}
use wemixvisor.Base.Int.{ℤ, pos, leb_ℤ}
use wemixvisor.Types.{UpgradeInfo}
pub mod Upgrades
pub mod Cycles
mod Checks

pub record Settings : Type 0 where
  pub restart_after_upgrade : Bool
  pub unsafe_skip_backup : Bool
  pub shutdown_grace : ℤ

-- what the current link points to
pub data Target : Type 0 where
  genesis_dir : Target
  upgrade_dir : String → Target

pub record Host : Type 0 where
  pub running : Bool
  -- `none` when there is no link
  pub current : Option Target
  -- the backups that were restored without an error
  pub restored : List String

-- what `os.Stat`, `os.RemoveAll`, and `filepath.Rel` with `os.Symlink` answer
pub record LinkAnswers : Type 0 where
  pub directory_exists : Bool
  pub remove_ok : Bool
  pub symlink_ok : Bool

-- `createSymlink`: a link that cannot be removed stays
unfoldable pub create_symlink : Target → LinkAnswers → Host → Host × Bool
create_symlink target a h =
    if not a.remove_ok
    then (h, false)
    else if not a.symlink_ok
    then (record h { current = none }, false)
    else (record h { current = some target }, true)

unfoldable pub link_to_upgrade : String → LinkAnswers → Host → Host × Bool
link_to_upgrade name a h =
    let linked = create_symlink (upgrade_dir name) a h in
    if not a.directory_exists then (h, false) else linked

-- what `stopProcess` meets
pub record StopAnswers : Type 0 where
  pub sigterm_ok : Bool
  pub exits_in_time : Bool
  pub kill_ok : Bool

pub data ProcessError : Type 0 where
  binary_not_found start_failed exited_with_error kill_failed : ProcessError
  validation_failed backup_failed hook_failed download_failed link_failed : ProcessError
  genesis_link_failed genesis_not_found already_running watcher_failed : ProcessError

abbrev error_unless : Bool → ProcessError → Option ProcessError
error_unless ok e = if ok then none else some e

unfoldable pub set_running_state : Host → Host × Option ProcessError
set_running_state h =
    if h.running then (h, some already_running) else (record h { running = true }, none)

unfoldable pub clear_running_state : Host → Host
clear_running_state h = record h { running = false }

-- The current link stands and has the binary, or a link to genesis is made.
unfoldable pub ensure_current_link :
    Bool → Bool → LinkAnswers → Bool → Host → Host × Option ProcessError
ensure_current_link dir_exists binary_exists link genesis_exists h =
    let (after, ok) = create_symlink genesis_dir link h in
    if dir_exists && binary_exists
    then (h, none)
    else if not ok
    then (after, some genesis_link_failed)
    else (after, error_unless genesis_exists genesis_not_found)

unfoldable pub wait_for_graceful_shutdown : Settings → StopAnswers → Option ProcessError
wait_for_graceful_shutdown c a =
    if leb_ℤ c.shutdown_grace (pos 0)
    then none
    else if a.exits_in_time
    then none
    else error_unless a.kill_ok kill_failed

-- the process has been started
unfoldable pub stop_process : Settings → StopAnswers → Option ProcessError
stop_process c a =
    if a.sigterm_ok then wait_for_graceful_shutdown c a else error_unless a.kill_ok kill_failed

-- what `waitForProcessOrUpgrade` receives: the end of the process with its success, a tick with the
-- answer of `NeedsUpdate`, the end of the context
pub data Event : Type 0 where
  exited tick : Bool → Event
  cancelled : Event

pub data WaitResult : Type 0 where
  waiting : WaitResult
  ended : Option ProcessError → WaitResult

unfoldable pub wait_for_process_or_upgrade : Settings → StopAnswers → List Event → WaitResult
wait_for_process_or_upgrade c a [] = waiting
wait_for_process_or_upgrade c a (exited ok ∷ events) = ended (error_unless ok exited_with_error)
wait_for_process_or_upgrade c a (tick needs_update ∷ events) =
    let later = wait_for_process_or_upgrade c a events in
    if needs_update then ended (stop_process c a) else later
wait_for_process_or_upgrade c a (cancelled ∷ events) = ended (stop_process c a)

-- one start of the process
pub record Start : Type 0 where
  pub binary_exists : Bool
  pub start_ok : Bool
  pub events : List Event
  pub answers : StopAnswers

unfoldable pub run_process : Settings → Start → WaitResult
run_process c s =
    if not s.binary_exists
    then ended (some binary_not_found)
    else if not s.start_ok
    then ended (some start_failed)
    else wait_for_process_or_upgrade c s.answers s.events

-- what the parts of an upgrade answer; `backup` is the path, empty when no backup is made
pub record Answers : Type 0 where
  pub valid : Bool
  pub backup : Option String
  pub hook_ok : Bool
  pub download_ok : Bool
  pub link : LinkAnswers
  pub restore_ok : Bool

unfoldable pub create_pre_upgrade_backup : Settings → Answers → Option String
create_pre_upgrade_backup c a = elim a.backup [
  | some path ↦ some path
  | none ↦ if c.unsafe_skip_backup then some "" else none
]

-- An error of `RestoreBackup` is only logged.
unfoldable pub restore_backup_on_failure : String → Answers → Host → Host
restore_backup_on_failure path a h =
    if str_eq path "" || not a.restore_ok
    then h
    else record h { restored = h.restored ++ path ∷ [] }

unfoldable pub execute_upgrade : UpgradeInfo → String → Answers → Host → Host × Option ProcessError
execute_upgrade u path a h =
    let (after, ok) = link_to_upgrade u.name a.link h in
    if not a.hook_ok
    then (restore_backup_on_failure path a h, some hook_failed)
    else if not a.download_ok
    then (restore_backup_on_failure path a h, some download_failed)
    else if not ok
    then (restore_backup_on_failure path a after, some link_failed)
    else (after, none)

unfoldable pub perform_upgrade :
    Settings → UpgradeInfo → Answers → Host → Host × Option ProcessError
perform_upgrade c u a h =
    if not a.valid then (h, some validation_failed) else elim (create_pre_upgrade_backup c a) [
      | none ↦ (h, some backup_failed)
      | some path ↦ execute_upgrade u path a h
    ]

pub data CycleResult : Type 0 where
  -- the process still runs, the main loop goes on, or it returns the error
  still_waiting : CycleResult
  goes_on : Host → CycleResult
  returns : Host → ProcessError → CycleResult

abbrev result_of : Host × Option ProcessError → CycleResult
result_of (h, none) = goes_on h
result_of (h, some e) = returns h e

unfoldable pub run_process_cycle :
    Settings → Option UpgradeInfo → Start → Answers → Host → CycleResult
run_process_cycle c upgrade s a h = elim (run_process c s) [
  | waiting ↦ still_waiting
  | ended none ↦ goes_on h
  | ended (some e) ↦
      if not c.restart_after_upgrade
      then returns h e
      else elim upgrade [ none ↦ returns h e | some u ↦ result_of (perform_upgrade c u a h) ]
]

-- the main loop over cycles, without signals: the host, and the error if one ended it
unfoldable pub main_loop :
    Settings → List (Option UpgradeInfo × (Start × Answers)) → Host → Host × Option ProcessError
main_loop c [] h = (h, none)
main_loop c ((upgrade, (s, a)) ∷ cycles) h = elim (run_process_cycle c upgrade s a h) [
  | still_waiting ↦ (h, none)
  | goes_on h' ↦ main_loop c cycles h'
  | returns h' e ↦ (h', some e)
]
