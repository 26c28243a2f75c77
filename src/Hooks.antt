-- ===== src/Hooks.antt =====
-- The pre-upgrade hook of internal/hooks/preupgrade.go. The file system and the runs of the script
-- answer through arguments: `script_ok i` tells whether run number i, from 0, succeeds. The
-- environment of the script and the logging are left out, and so are the waits between the runs.
use wemixvisor.Base.{
  ℕ, zero, suc, ◌+◌, Option, none, some, Bool, true, false, not, String, str_eq, if◌then◌else◌,
  is_some, ◌&&◌,
}
use wemixvisor.Base.Int.{ℤ, pos, pos_part, ltb_ℤ}
pub mod Retries
mod Checks

-- what the hook finds at a path
pub data Script : Type 0 where
  missing : Script
  -- present; `os.Chmod` works or not
  present : Bool → Script

pub data HookError : Type 0 where
  nil_info chmod_failed script_failed out_of_fuel : HookError

-- the loop of `runScript`, on fuel: the success of the last run and the number of runs
unfoldable pub retry : (ℕ → Bool) → ℤ → ℕ → ℕ → Option (Bool × ℕ)
retry script_ok max_retries zero retries = none
retry script_ok max_retries (suc fuel) retries =
    let rest = retry script_ok max_retries fuel (suc retries) in
    if script_ok retries
    then some (true, suc retries)
    else if ltb_ℤ (pos retries) max_retries
    then rest
    else some (false, suc retries)

-- one run, and one for each retry
abbrev pub enough : ℤ → ℕ
enough max_retries = suc (pos_part max_retries)

unfoldable pub run_script : (ℕ → Bool) → ℤ → Bool → Option HookError
run_script script_ok max_retries chmod_ok =
    if chmod_ok
    then elim (retry script_ok max_retries (enough max_retries) 0) [
      | none ↦ some out_of_fuel
      | some (ok, runs) ↦ if ok then none else some script_failed
    ]
    else some chmod_failed

unfoldable pub execute_script : (ℕ → Bool) → ℤ → Script → Option HookError
execute_script script_ok max_retries missing = none
execute_script script_ok max_retries (present chmod_ok) = run_script script_ok max_retries chmod_ok

-- `info_given` tells that the upgrade info is not nil
unfoldable pub execute :
    (String → Script) → (ℕ → Bool) → String → String → ℤ → Bool → Option HookError
execute find script_ok custom standard max_retries info_given =
    if not info_given
    then some nil_info
    else if str_eq custom ""
    then execute_script script_ok max_retries (find standard)
    else execute_script script_ok max_retries (find custom)

-- what `os.Stat` gives for the upgrade binary: `stat_ok` and executable
pub data Binary : Type 0 where
  absent unreadable : Binary
  binary : Bool → Binary

pub data BinaryError : Type 0 where
  not_found cannot_stat not_executable : BinaryError

unfoldable pub validate_upgrade : Binary → Option BinaryError
validate_upgrade absent = some not_found
validate_upgrade unreadable = some cannot_stat
validate_upgrade (binary executable) = if executable then none else some not_executable
