-- ===== src/Watcher.antt =====
-- The upgrade file watcher of internal/upgrade/watcher.go. What `os.Stat` and the parser of the
-- upgrade file give at a check is an argument; the ticker and the channels are left out.
use wemixvisor.Base.{
  ℕ, Option, none, some, Bool, true, false, not, ◌||◌, String, str_eq, ◌==◌, if◌then◌else◌,
}
use wemixvisor.Base.Int.{ℤ, ltb_ℤ, eq_ℤ}
use wemixvisor.Types.{UpgradeInfo, ParseResult}
pub mod Detection
mod Checks

-- the upgrade file, as one check finds it
pub data FileState : Type 0 where
  missing stat_failed : FileState
  present : ℕ → ℤ → ParseResult → FileState

pub record FileWatcher : Type 0 where
  pub last_mod_time : ℤ
  pub current_info : Option UpgradeInfo
  pub needs_update : Bool
  pub initialized : Bool

-- the answer of `checkFile`
pub data CheckResult : Type 0 where
  failed nothing : CheckResult
  found : UpgradeInfo → CheckResult

unfoldable pub check_file : FileState → FileWatcher → FileWatcher × CheckResult
check_file missing w = (w, nothing)
check_file stat_failed w = (w, failed)
check_file (present size mtime content) w =
    if size == 0
    then (w, failed)
    else if ltb_ℤ w.last_mod_time mtime
    then elim content [
      | ParseResult.err e ↦ (w, failed)
      | ParseResult.ok info ↦ (record w { last_mod_time = mtime }, found info)
    ]
    else (w, nothing)

abbrev pub differs : UpgradeInfo → Option UpgradeInfo → Bool
differs info none = true
differs info (some old) = not (str_eq info.name old.name) || not (eq_ℤ info.height old.height)

unfoldable pub check_for_update : FileState → FileWatcher → FileWatcher × Bool
unfolding check_file
check_for_update f w =
    let (w', r) = check_file f w in
    elim r [
      | failed ↦ (w', false)
      | nothing ↦ (w', false)
      | found info ↦
          if differs info w'.current_info
          then (record w' { current_info = some info; needs_update = true }, true)
          else (w', false)
    ]

-- The flag tells whether the watcher was started.
unfoldable pub start : FileState → FileWatcher → FileWatcher × Bool
unfolding check_file
start f w =
    let (w', r) = check_file f w in
    let w'' : FileWatcher = elim r [
      | failed ↦ w'
      | nothing ↦ w'
      | found info ↦ record w' { current_info = some info }
    ] in
    if w.initialized then (w, false) else (record w'' { initialized = true }, true)

unfoldable pub stop : FileWatcher → FileWatcher
stop w = record w { initialized = false }

unfoldable pub clear_update_flag : FileWatcher → FileWatcher
clear_update_flag w = record w { needs_update = false }

-- one round of `WaitForUpgrade`: what it returns, if it does
unfoldable pub take_upgrade : FileWatcher → FileWatcher × Option UpgradeInfo
unfolding clear_update_flag
take_upgrade w = if w.needs_update then (clear_update_flag w, w.current_info) else (w, none)
