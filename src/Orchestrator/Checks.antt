-- ===== src/Orchestrator/Checks.antt =====
-- The orchestrator's theorems and operations at concrete inputs.
use wemixvisor.Base.{
  String, Option, ◌≡◌, ◌≢◌, refl, ap, str_eq, str_dec, none, some, true, false, List, [], ◌∷◌, ◌++◌,
  arith,
}
use wemixvisor.Base.Int.{ℤ, pos}
use wemixvisor.Types.{UpgradeInfo}
use wemixvisor.Node.{Manager, running, StartEnv, StopEnv, send_stop_signal}
use wemixvisor.Orchestrator.{Orchestrator, on_heights}
use wemixvisor.Orchestrator.Heights.{upgrade_node, on_heights_exact, on_heights_missed}
use wemixvisor.Types.{ParseResult, parse_upgrade_info_file}
use wemixvisor.Watcher.{FileWatcher, present, check_for_update}
use wemixvisor.Orchestrator.{watch_tick}
use wemixvisor.Orchestrator.Files.{detected_upgrade_executed}
use wemixvisor.Orchestrator.Nodes.{node_manager, upgraded, upgrade_running_node}

abbrev good_start : StartEnv
good_start = record { has_path = true; binary_found = true; spawned = some 77 }

abbrev good_stop : StopEnv
good_stop = record {
  term_group = true;
  term_process = true;
  kill_group = true;
  exits_in_time = true;
}

abbrev live : Manager
live = record {
  state = running;
  process = some 12;
  node_args = "--syncmode" ∷ [];
  restart_count = 0;
  max_restarts = 5;
  restart_on_failure = true;
  done_ch = some 0;
  next_ch = 1;
  closed = [];
  pending_restarts = 0;
}

abbrev v2 : UpgradeInfo
v2 = record { name = "v2"; height = pos 100; info = "" }

abbrev waiting : Orchestrator Manager
waiting = record { node = live; pending_upgrade = some v2; upgrading = false; started = true }

abbrev lower : List (ℤ × List UpgradeInfo)
lower = (pos 98, []) ∷ (pos 99, []) ∷ []

v2_named : v2.name ≢ ""
unfolding str_dec
v2_named p = let q : false ≡ true = ap (λ s. str_eq s "") p in ground arith

on_heights_exact_example :
    on_heights (node_manager good_stop good_start) (lower ++ (pos 100, v2 ∷ []) ∷ []) waiting
    ≡ record waiting {
      node = upgrade_node (node_manager good_stop good_start) live;
      pending_upgrade = none;
    }
on_heights_exact_example =
    on_heights_exact (node_manager good_stop good_start) lower [] (v2 ∷ []) waiting v2 refl refl
      v2_named (omega arith) (omega arith, (omega arith, tt))

on_heights_missed_example :
    on_heights (node_manager good_stop good_start) (lower ++ (pos 101, []) ∷ []) waiting
    ≡ record waiting {
      node = ((node_manager good_stop good_start).start_node [] live).0;
      pending_upgrade = none;
    }
on_heights_missed_example =
    on_heights_missed (node_manager good_stop good_start) lower [] [] (pos 101) waiting v2 refl refl
      (omega arith, (omega arith, tt)) (omega arith)

upgrade_running_node_example :
    on_heights (node_manager good_stop good_start) (lower ++ (pos 100, []) ∷ []) waiting
    ≡ record waiting { node = upgraded 77 live; pending_upgrade = none }
unfolding send_stop_signal
upgrade_running_node_example =
    upgrade_running_node good_stop good_start 77 lower [] [] waiting v2 refl refl refl refl refl
      refl refl v2_named (omega arith) (omega arith, (omega arith, tt))

abbrev fresh : FileWatcher
fresh = record {
  last_mod_time = pos 0;
  current_info = none;
  needs_update = false;
  initialized = true;
}

abbrev idle : Orchestrator Manager
idle = record { node = live; pending_upgrade = none; upgrading = false; started = true }

-- a decoder that reads one plan
abbrev decode : String → Option UpgradeInfo
decode text = some v2

parsed : parse_upgrade_info_file decode (some "v2 at 100") ≡ ParseResult.ok v2
unfolding parse_upgrade_info_file str_dec
parsed = refl

detected_upgrade_executed_example :
    let file = present 40 (pos 9) (parse_upgrade_info_file decode (some "v2 at 100")) in
    let (w', o') = watch_tick (check_for_update file fresh).0 idle in
    (on_heights (node_manager good_stop good_start) (lower ++ (pos 100, []) ∷ []) o' ≡ record idle {
      node = upgrade_node (node_manager good_stop good_start) live;
      pending_upgrade = none;
    })
    × (w'.needs_update ≡ false)
detected_upgrade_executed_example =
    detected_upgrade_executed (node_manager good_stop good_start) decode (some "v2 at 100") v2 40
      (pos 9) fresh idle lower [] [] parsed (omega arith) (omega arith) refl refl
      (omega arith, (omega arith, tt))
