-- ===== src/Config/Migrator/Checks.antt =====
-- Runs of the migrator at concrete versions.
use wemixvisor.Base.{
  ◌≡◌, refl, Option, none, some, String, [], false, str_dec, str_eq, if◌then◌else◌,
}
use wemixvisor.Base.Int.{pos}
use wemixvisor.Config.{Config}
use wemixvisor.Config.Sample.{config}
use wemixvisor.Config.Migrator.{
  Version, version, Platform, parse_version, migrate, migrated, downgrade, equal, greater_than,
  next_in, get_next_version, trim_v, migration, migrate_loop, migrate_v1_to_v2, migrate_v2_to_v3,
  migrate_v3_to_v4, port_of, behind_colon, has_colon,
}
use wemixvisor.Config.Migrator.Progress.{migrate_total}
use wemixvisor.Config.Migrator.Fields.{migrate-Extends, Extends}

-- a platform that knows two version texts
abbrev scan : String → Option Version
scan s =
    if str_eq s "0.1.0"
    then some (version 0 1 0)
    else if str_eq s "0.4.0"
    then some (version 0 4 0)
    else none

abbrev platform : Platform
platform = record {
  join = λ a b. a;
  format = λ n. "1112";
  scan_int = λ s. some (pos 8588);
  scan_three = scan;
  scan_two = λ s. none;
  home_env = "/home/user";
}

abbrev config_4 : Config
config_4 = record config {
  shutdown_grace = pos 30_000_000_000;
  health_check_interval = pos 30_000_000_000;
  metrics_interval = pos 60_000_000_000;
  rpc_port = pos 8588;
  data_backup_path = "/data";
  pre_upgrade_max_retries = pos 3;
  download_urls = some [];
}

migrates : migrate platform (some config) "v0.1.0" "0.4.0" ≡ migrated config_4
unfolding migrate str_dec migrate_loop get_next_version next_in equal greater_than parse_version
    trim_v migration migrate_v1_to_v2 migrate_v2_to_v3 migrate_v3_to_v4 port_of behind_colon
    has_colon
migrates = refl

refuses_downgrade : migrate platform (some config) "0.4.0" "0.1.0" ≡ downgrade
unfolding migrate str_dec migrate_loop get_next_version next_in equal greater_than parse_version
    trim_v migration migrate_v1_to_v2 migrate_v2_to_v3 migrate_v3_to_v4 port_of behind_colon
    has_colon
refuses_downgrade = refl

parses_from : parse_version platform "v0.1.0" ≡ some (version 0 1 0)
unfolding parse_version trim_v str_dec
parses_from = refl

parses_to : parse_version platform "0.4.0" ≡ some (version 0 4 0)
unfolding parse_version trim_v str_dec
parses_to = refl

not_above : greater_than (version 0 1 0) (version 0 4 0) ≡ false
unfolding greater_than
not_above = refl

migrate_total_example :
    (c : Config) × (migrate platform (some config) "v0.1.0" "0.4.0" ≡ migrated c)
migrate_total_example =
    migrate_total platform config "v0.1.0" "0.4.0" (version 0 1 0) (version 0 4 0) parses_from
      parses_to not_above

migrate-Extends_example : Extends config config_4
migrate-Extends_example = migrate-Extends platform config config_4 "v0.1.0" "0.4.0" migrates
