-- ===== src/Config/Manager/Checks.antt =====
-- Runs of the configuration manager, and its theorem at a concrete input.
use wemixvisor.Base.{
  str_dec, ◌≡◌, refl, Option, none, some, true, false, str_eq, if◌then◌else◌, [], ◌∷◌,
}
use wemixvisor.Base.Int.{pos}
use wemixvisor.Config.{Config}
use wemixvisor.Config.Validator.{Verdict, accepted, refused, home_required}
use wemixvisor.Config.Manager.{
  Manager, split_config, merge_configs, update_config, finish_update, update_field,
}
use wemixvisor.Config.Sample.{config}
use wemixvisor.Config.Manager.Updates.{update_config-IsExact, IsExact}

abbrev parts : Manager
parts = record {
  wemixvisor_config = record {
    home = "/data";
    name = "wemixd";
    max_restarts = pos 5;
    restart_delay = pos 1_000_000_000;
    shutdown_grace = pos 30_000_000_000;
    health_check_interval = pos 30_000_000_000;
    metrics_interval = pos 60_000_000_000;
    metrics_enabled = true;
    allow_download_binaries = true;
    auto_backup = true;
    pre_upgrade_timeout = pos 300_000_000_000;
    log_level = "info";
    log_format = "json";
    log_time_format = "rfc3339";
  };
  node_config = record {
    network_id = 1112;
    chain_id = "1112";
    rpc_addr = "127.0.0.1";
    rpc_port = pos 8545;
    rpc_apis = [];
    ws_addr = "127.0.0.1";
    ws_port = pos 8546;
    ws_apis = [];
    p2p_port = pos 30303;
    bootnodes = [];
    max_peers = pos 25;
    validator_mode = false;
    validator_key = "";
    data_dir = "/data/data";
    extra_flags = [];
  };
  merged_config = config;
  saved = none;
}

abbrev needs_home : Option Config → Verdict
needs_home none = accepted
needs_home (some c) = if str_eq c.home "" then refused (home_required ∷ []) else accepted

abbrev without_home : Config → Option Config
without_home c = some (record c { home = "" })

abbrev with_name : Config → Option Config
with_name c = some (record c { name = "other" })

-- the refused value stays in the part, and in the merged configuration after the next merge
refused_stays :
    ((update_config needs_home (λ w n. true) without_home parts).0.wemixvisor_config.home ≡ "")
    × ((merge_configs
          (λ a p. a)
          (update_config needs_home (λ w n. true) without_home parts).0).merged_config.home
        ≡ "")
unfolding update_config update_field finish_update split_config merge_configs str_dec
refused_stays = (refl, refl)

-- the network id of the node is not in the merged configuration
loses_network_id : (merge_configs (λ a p. a) parts).merged_config.network_id ≡ 0
unfolding merge_configs
loses_network_id = refl

update_config-IsExact_example :
    IsExact needs_home
      (λ w n. true)
      with_name
      parts
      (update_config needs_home (λ w n. true) with_name parts)
update_config-IsExact_example = update_config-IsExact needs_home (λ w n. true) with_name parts
