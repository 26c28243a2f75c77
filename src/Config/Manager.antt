-- ===== src/Config/Manager.antt =====
-- The configuration manager of internal/config/manager.go: the merged configuration, the two parts it
-- is made of, and the updates. `updateField` sets a field by reflection, the migrator and the
-- writing of the file are parameters. `cloneConfig` copies the whole configuration, which is a value
-- here. The channel of update events, the watching of the file and its loading are left out.
use wemixvisor.Base.{
  ℕ, Option, none, some, Bool, true, false, not, List, [], ◌∷◌, String, if◌then◌else◌,
}
use wemixvisor.Base.Int.{ℤ, pos}
use wemixvisor.Config.{Config}
use wemixvisor.Config.Validator.{RuleError, Verdict, accepted, nil_config, refused}
pub mod Updates
mod Checks

pub record WemixvisorConfig : Type 0 where
  pub home : String
  pub name : String
  pub max_restarts : ℤ
  pub restart_delay : ℤ
  pub shutdown_grace : ℤ
  pub health_check_interval : ℤ
  pub metrics_interval : ℤ
  pub metrics_enabled : Bool
  pub allow_download_binaries : Bool
  pub auto_backup : Bool
  pub pre_upgrade_timeout : ℤ
  pub log_level : String
  pub log_format : String
  pub log_time_format : String

pub record NodeConfig : Type 0 where
  pub network_id : ℕ
  pub chain_id : String
  pub rpc_addr : String
  pub rpc_port : ℤ
  pub rpc_apis : List String
  pub ws_addr : String
  pub ws_port : ℤ
  pub ws_apis : List String
  pub p2p_port : ℤ
  pub bootnodes : List String
  pub max_peers : ℤ
  pub validator_mode : Bool
  pub validator_key : String
  pub data_dir : String
  pub extra_flags : List String

pub record Manager : Type 0 where
  pub wemixvisor_config : WemixvisorConfig
  pub node_config : NodeConfig
  pub merged_config : Config
  -- what the file has, once it was saved
  pub saved : Option (WemixvisorConfig × NodeConfig)

unfoldable pub split_config : Manager → Manager
split_config m =
    let c = m.merged_config in
    record m {
      wemixvisor_config = record (m.wemixvisor_config) {
        home = c.home;
        name = c.name;
        restart_delay = c.restart_delay;
        shutdown_grace = c.shutdown_grace;
        allow_download_binaries = c.allow_download_binaries;
        auto_backup = not c.unsafe_skip_backup;
      };
      node_config = record (m.node_config) {
        rpc_port = c.rpc_port;
        validator_mode = c.validator_mode;
      };
    }

-- `address` is `fmt.Sprintf("%s:%d", …)`
unfoldable pub merge_configs : (String → ℤ → String) → Manager → Manager
merge_configs address m =
    let w = m.wemixvisor_config in
    let n = m.node_config in
    record m {
      merged_config = record {
        home = w.home;
        name = w.name;
        allow_download_binaries = w.allow_download_binaries;
        restart_after_upgrade = false;
        restart_delay = w.restart_delay;
        shutdown_grace = w.shutdown_grace;
        poll_interval = pos 0;
        max_restarts = w.max_restarts;
        health_check_interval = w.health_check_interval;
        metrics_interval = w.metrics_interval;
        rpc_port = n.rpc_port;
        unsafe_skip_backup = not w.auto_backup;
        data_backup_path = "";
        pre_upgrade_max_retries = pos 0;
        custom_pre_upgrade = "";
        rpc_address = address n.rpc_addr n.rpc_port;
        validator_mode = n.validator_mode;
        disable_recase = false;
        network_id = 0;
        chain_id = "";
        download_urls = none;
        unsafe_skip_checksum = false;
        time_format_logs = w.log_time_format;
        config_version = "";
      };
    }

pub data UpdateError : Type 0 where
  field_not_set migration_failed validation_failed save_failed : UpdateError

-- `saves` says whether the file could be written with these contents
unfoldable pub save_config : (WemixvisorConfig → NodeConfig → Bool) → Manager → Manager × Bool
save_config saves m =
    if saves m.wemixvisor_config m.node_config
    then (record m { saved = some (m.wemixvisor_config, m.node_config) }, true)
    else (m, false)

module _ (validate : Option Config → Verdict) (saves : WemixvisorConfig → NodeConfig → Bool) where
  -- after the change: save, and on failure put the old merged configuration back
  unfoldable pub save_or_restore : Config → Manager → Manager × Option UpdateError
  save_or_restore old m =
      let (after, ok) = save_config saves m in
      if ok then (after, none) else (record after { merged_config = old }, some save_failed)

  unfoldable pub update_field : (Config → Option Config) → Manager → Option Manager
  update_field set_field m = elim (set_field m.merged_config) [
    | none ↦ none
    | some c ↦ some (split_config (record m { merged_config = c }))
  ]

  -- after the validation: save, or put the old merged configuration back
  unfoldable pub finish_update : Config → Verdict → Manager → Manager × Option UpdateError
  finish_update old accepted after = save_or_restore old after
  finish_update old nil_config after =
      (record after { merged_config = old }, some validation_failed)
  finish_update old (refused errors) after =
      (record after { merged_config = old }, some validation_failed)

  -- `set_field` sets the field of the key to the value, or refuses
  unfoldable pub update_config : (Config → Option Config) → Manager → Manager × Option UpdateError
  update_config set_field m = elim (update_field set_field m) [
    | none ↦ (m, some field_not_set)
    | some after ↦ finish_update m.merged_config (validate (some after.merged_config)) after
  ]

  unfoldable pub migrate : (Config → Option Config) → Manager → Manager × Option UpdateError
  migrate migrator m = elim (migrator m.merged_config) [
    | none ↦ (m, some migration_failed)
    | some c ↦ elim (validate (some c)) [
      | accepted ↦ save_or_restore m.merged_config (split_config (record m { merged_config = c }))
      | nil_config ↦ (m, some validation_failed)
      | refused errors ↦ (m, some validation_failed)
    ]
  ]
