-- ===== src/Config.antt =====
-- The configuration of internal/config/config.go, with the fields that the modelled code reads or
-- writes. A nil map is `none`. Durations are in nanoseconds.
use wemixvisor.Base.{ℕ, Option, none, some, Bool, String, str_eq, if◌then◌else◌}
use wemixvisor.Base.Int.{ℤ, pos, ltb_ℤ}
use wemixvisor.Base.GoMap.{GoMap}
pub mod Manager
pub mod Migrator
pub mod Validator
mod Sample

pub record Config : Type 0 where
  pub home : String
  pub name : String
  pub allow_download_binaries : Bool
  pub restart_after_upgrade : Bool
  pub restart_delay : ℤ
  pub shutdown_grace : ℤ
  pub poll_interval : ℤ
  pub max_restarts : ℤ
  pub health_check_interval : ℤ
  pub metrics_interval : ℤ
  pub rpc_port : ℤ
  pub unsafe_skip_backup : Bool
  pub data_backup_path : String
  pub pre_upgrade_max_retries : ℤ
  pub custom_pre_upgrade : String
  pub rpc_address : String
  pub validator_mode : Bool
  pub disable_recase : Bool
  pub network_id : ℕ
  pub chain_id : String
  pub download_urls : Option (GoMap String)
  pub unsafe_skip_checksum : Bool
  pub time_format_logs : String
  pub config_version : String

abbrev pub millisecond : ℕ
millisecond = 1_000_000

abbrev pub second : ℕ
second = 1_000_000_000

abbrev pub min_poll_interval : ℤ
min_poll_interval = pos 100_000_000

pub data ConfigError : Type 0 where
  home_not_set name_not_set poll_interval_too_short : ConfigError

-- `Config.Validate`; `none` for no error
unfoldable pub validate : Config → Option ConfigError
validate c =
    if str_eq c.home ""
    then some home_not_set
    else if str_eq c.name ""
    then some name_not_set
    else if ltb_ℤ c.poll_interval min_poll_interval
    then some poll_interval_too_short
    else none
