-- ===== src/Watcher/Checks.antt =====
-- The watcher's theorems and operations at concrete inputs.
use wemixvisor.Base.{◌≡◌, ◌≤◌, refl, Option, none, some, true, false, ◌||◌, arith}
use wemixvisor.Base.Int.{pos}
use wemixvisor.Types.{UpgradeInfo, ParseResult}
use wemixvisor.Watcher.{
  FileState, present, missing, FileWatcher, check_file, check_for_update, differs, start, stop,
  take_upgrade, clear_update_flag,
}
use wemixvisor.Watcher.Detection.{check_for_update_complete}

abbrev v2 : UpgradeInfo
v2 = record { name = "v2"; height = pos 100; info = "" }

abbrev v3 : UpgradeInfo
v3 = record { name = "v3"; height = pos 200; info = "" }

abbrev watcher : FileWatcher
watcher = record {
  last_mod_time = pos 5;
  current_info = some v2;
  needs_update = false;
  initialized = true;
}

abbrev newer : FileState
newer = present 40 (pos 9) (ParseResult.ok v3)

check_for_update_complete_example :
    let (w', reported) = check_for_update newer watcher in
    (reported ≡ differs v3 watcher.current_info)
    × (w'.needs_update ≡ (watcher.needs_update || reported))
    × (w'.last_mod_time ≡ pos 9)
    × ((cur : UpgradeInfo) × (w'.current_info ≡ some cur)
        × (cur.name ≡ v3.name)
        × (cur.height ≡ v3.height))
check_for_update_complete_example =
    check_for_update_complete 40 (pos 9) v3 watcher (omega arith) (omega arith)

check_for_update_test : (check_for_update newer watcher).1 ≡ true
unfolding check_for_update check_file wemixvisor.Base.str_dec
check_for_update_test = refl

take_upgrade_test : (take_upgrade (check_for_update newer watcher).0).1 ≡ some v3
unfolding check_for_update check_file take_upgrade clear_update_flag wemixvisor.Base.str_dec
take_upgrade_test = refl

start_test : (start missing (stop watcher)).0 ≡ watcher
unfolding start stop check_file
start_test = refl
