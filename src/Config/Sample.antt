-- ===== src/Config/Sample.antt =====
-- A configuration as it comes from a file, with most fields unset.
use wemixvisor.Base.{none, true, false}
use wemixvisor.Base.Int.{pos}
use wemixvisor.Config.{Config}

abbrev pub config : Config
config = record {
  home = "/data";
  name = "gwemix";
  allow_download_binaries = false;
  restart_after_upgrade = true;
  restart_delay = pos 0;
  shutdown_grace = pos 0;
  poll_interval = pos 300_000_000;
  max_restarts = pos 2;
  health_check_interval = pos 0;
  metrics_interval = pos 0;
  rpc_port = pos 0;
  unsafe_skip_backup = false;
  data_backup_path = "";
  pre_upgrade_max_retries = pos 0;
  custom_pre_upgrade = "";
  rpc_address = "10.0.0.1:8588";
  validator_mode = false;
  disable_recase = false;
  network_id = 0;
  chain_id = "";
  download_urls = none;
  unsafe_skip_checksum = false;
  time_format_logs = "";
  config_version = "0.1.0";
}
