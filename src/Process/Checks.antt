-- ===== src/Process/Checks.antt =====
-- Runs of the process manager, and its theorems at concrete inputs.
use wemixvisor.Base.{◌≡◌, refl, none, some, true, false, List, [], ◌∷◌, str_dec}
use wemixvisor.Base.Int.{pos}
use wemixvisor.Types.{UpgradeInfo}
use wemixvisor.Process.{
  Settings, Host, ProcessError, StopAnswers, Event, tick, exited, Start, Answers,
  create_pre_upgrade_backup, restore_backup_on_failure, execute_upgrade, perform_upgrade,
  genesis_dir, upgrade_dir, create_symlink, link_to_upgrade, stop_process,
  wait_for_graceful_shutdown, wait_for_process_or_upgrade, run_process, goes_on, run_process_cycle,
  main_loop,
}
use wemixvisor.Process.Upgrades.{IsExact, perform_upgrade-IsExact}
use wemixvisor.Process.Cycles.{Detects, main_loop-Detects}

abbrev settings : Settings
settings = record {
  restart_after_upgrade = true;
  unsafe_skip_backup = false;
  shutdown_grace = pos 30;
}

abbrev upgrade : UpgradeInfo
upgrade = record { name = "v2"; height = pos 100; info = "" }

abbrev host : Host
host = record { running = true; current = some genesis_dir; restored = [] }

abbrev graceful : StopAnswers
graceful = record { sigterm_ok = true; exits_in_time = true; kill_ok = true }

abbrev start_with : List Event → Start
start_with events = record {
  binary_exists = true;
  start_ok = true;
  events = events;
  answers = graceful;
}

abbrev answers : Answers
answers = record {
  valid = true;
  backup = some "backups/1";
  hook_ok = true;
  download_ok = false;
  link = record { directory_exists = true; remove_ok = true; symlink_ok = true };
  restore_ok = true;
}

restores_backup :
    perform_upgrade settings upgrade answers host
    ≡ (record host { restored = "backups/1" ∷ [] }, some ProcessError.download_failed)
unfolding perform_upgrade create_pre_upgrade_backup execute_upgrade restore_backup_on_failure
    str_dec
restores_backup = refl

abbrev no_symlink : Answers
no_symlink = record answers {
  download_ok = true;
  link = record { directory_exists = true; remove_ok = true; symlink_ok = false };
}

loses_old_link : (perform_upgrade settings upgrade no_symlink host).0.current ≡ none
unfolding perform_upgrade create_pre_upgrade_backup execute_upgrade restore_backup_on_failure
    link_to_upgrade create_symlink str_dec
loses_old_link = refl

upgrades_after_crash :
    run_process_cycle settings
      (some upgrade)
      (start_with (tick false ∷ exited false ∷ []))
      (record answers { download_ok = true })
      host
    ≡ goes_on (record host { current = some (upgrade_dir "v2") })
unfolding run_process_cycle run_process wait_for_process_or_upgrade perform_upgrade
    create_pre_upgrade_backup execute_upgrade link_to_upgrade create_symlink
upgrades_after_crash = refl

abbrev detecting : Start
detecting = start_with (tick false ∷ tick true ∷ [])

detecting-Detects : Detects settings detecting
unfolding stop_process wait_for_graceful_shutdown
detecting-Detects = record {
  binary = refl;
  started = refl;
  quiet = tick false ∷ [];
  later = [];
  none_before = (refl, tt);
  seen = refl;
  stopped = refl;
}

main_loop-Detects_example :
    main_loop settings
      ((some upgrade, (detecting, answers)) ∷ (some upgrade, (detecting, answers)) ∷ [])
      host
    ≡ (host, none)
main_loop-Detects_example =
    main_loop-Detects settings
      ((some upgrade, (detecting, answers)) ∷ (some upgrade, (detecting, answers)) ∷ []) host
      (detecting-Detects, (detecting-Detects, tt))

perform_upgrade-IsExact_example :
    IsExact settings upgrade answers host (perform_upgrade settings upgrade answers host)
perform_upgrade-IsExact_example = perform_upgrade-IsExact settings upgrade answers host
