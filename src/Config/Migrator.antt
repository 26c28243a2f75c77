-- ===== src/Config/Migrator.antt =====
-- The configuration migrator of internal/config/migrator.go. A key "0.1.0->0.2.0" of its map is the
-- pair of the versions. What `fmt`, `filepath` and the environment give is a parameter. No migration
-- of the source returns an error, so they are plain functions. `cloneConfig` copies the whole
-- configuration, which is a value here. Backup and restore are file operations and left out.
use wemixvisor.Base.{
  ℕ, zero, suc, ◌+◌, Option, none, some, Bool, true, false, ◌&&◌, ◌||◌, List, [], ◌∷◌, String,
  str_eq, ◌==◌, if◌then◌else◌, is_some,
}
use Prim.Native.Char.{code}
use wemixvisor.Base.Int.{ℤ, pos, eq_ℤ, ltb_ℤ}
use wemixvisor.Config.{Config, second}
pub mod Progress
pub mod Fields
mod Checks

pub record Version : Type 0 where
  pub major : ℤ
  pub minor : ℤ
  pub patch : ℤ

unfoldable pub equal : Version → Version → Bool
equal v w = eq_ℤ v.major w.major && eq_ℤ v.minor w.minor && eq_ℤ v.patch w.patch

unfoldable pub greater_than : Version → Version → Bool
greater_than v w =
    if ltb_ℤ w.major v.major
    then true
    else if ltb_ℤ v.major w.major
    then false
    else if ltb_ℤ w.minor v.minor
    then true
    else if ltb_ℤ v.minor w.minor
    then false
    else ltb_ℤ w.patch v.patch

abbrev pub version : ℕ → ℕ → ℕ → Version
version a b c = record { major = pos a; minor = pos b; patch = pos c }

-- the version progression of `getNextVersion`
abbrev pub progression : List Version
progression =
    version 0 1 0
    ∷ version 0 2 0
    ∷ version 0 3 0
    ∷ version 0 4 0
    ∷ version 0 5 0
    ∷ version 0 6 0
    ∷ version 0 7 0
    ∷ version 1 0 0
    ∷ []

-- the loop of `getNextVersion`
unfoldable pub next_in : List Version → Version → Version → Version
next_in [] current target = target
next_in (v ∷ []) current target = target
next_in (v ∷ next ∷ rest) current target =
    let later = next_in (next ∷ rest) current target in
    if equal current v then (if greater_than next target then target else next) else later

unfoldable pub get_next_version : Version → Version → Version
get_next_version current target = next_in progression current target

-- What the code takes from its libraries and its environment: `filepath.Join`, `fmt.Sprintf` of a
-- number, the first number of a text by `fmt.Sscanf`, a version by `fmt.Sscanf` in three parts or in
-- two, and `$HOME`.
pub record Platform : Type 0 where
  pub join : String → String → String
  pub format : ℕ → String
  pub scan_int : String → Option ℤ
  pub scan_three : String → Option Version
  pub scan_two : String → Option Version
  pub home_env : String

-- `strings.TrimPrefix s "v"`
unfoldable pub trim_v : String → String
trim_v String.[] = String.[]
trim_v (String.◌∷◌ c s) = if code c == b'v' then s else String.◌∷◌ c s

unfoldable pub parse_version : Platform → String → Option Version
parse_version p s = elim (p.scan_three (trim_v s)) [
  | some v ↦ some v
  | none ↦ p.scan_two (trim_v s)
]

-- the text behind the colon, if `strings.Split s ":"` has two parts
unfoldable pub has_colon : String → Bool
has_colon String.[] = false
has_colon (String.◌∷◌ c s) = code c == b':' || has_colon s

unfoldable pub behind_colon : String → Option String
behind_colon String.[] = none
behind_colon (String.◌∷◌ c s) =
    let rest = behind_colon s in
    if code c == b':' then (if has_colon s then none else some s) else rest

abbrev pub or_text : String → String → String
or_text s default = if str_eq s "" then default else s

abbrev pub or_number : ℤ → ℤ → ℤ
or_number n default = if eq_ℤ n (pos 0) then default else n

abbrev pub default_network_id : Bool → ℕ → ℕ
default_network_id validator id = if id == 0 then (if validator then 1111 else 1112) else id

-- one round for each version of the progression, one to reach the target and one to see it
abbrev pub enough : ℕ
enough = 10

pub data MigrateResult : Type 0 where
  migrated : Config → MigrateResult
  nil_config invalid_from invalid_to downgrade out_of_fuel : MigrateResult

module _ (p : Platform) where
  unfoldable pub migrate_v1_to_v2 : Config → Config
  migrate_v1_to_v2 c = record c {
    data_backup_path = or_text c.data_backup_path (p.join c.home "backups");
    shutdown_grace = or_number c.shutdown_grace (pos 30_000_000_000);
    pre_upgrade_max_retries = or_number c.pre_upgrade_max_retries (pos 3);
  }

  unfoldable pub migrate_v2_to_v3 : Config → Config
  migrate_v2_to_v3 c = record c {
    rpc_address = or_text c.rpc_address "localhost:8545";
    download_urls = if is_some c.download_urls then c.download_urls else some [];
  }

  -- the port in the RPC address, 0 if there is none
  unfoldable pub port_of : String → ℤ
  port_of address = elim (behind_colon address) [
    | none ↦ pos 0
    | some text ↦ elim (p.scan_int text) [ none ↦ pos 0 | some n ↦ n ]
  ]

  unfoldable pub migrate_v3_to_v4 : Config → Config
  migrate_v3_to_v4 c = record c {
    health_check_interval = or_number c.health_check_interval (pos 30_000_000_000);
    metrics_interval = or_number c.metrics_interval (pos 60_000_000_000);
    max_restarts = or_number c.max_restarts (pos 5);
    rpc_port = or_number c.rpc_port (or_number (port_of c.rpc_address) (pos 8545));
  }

  unfoldable pub migrate_v4_to_v5 : Config → Config
  migrate_v4_to_v5 c = record c {
    config_version = or_text c.config_version "0.5.0";
    network_id = default_network_id c.validator_mode c.network_id;
    chain_id = or_text c.chain_id (p.format (default_network_id c.validator_mode c.network_id));
  }

  unfoldable pub generic_migration : Config → Config
  generic_migration c = record c {
    home = or_text c.home (p.join p.home_env ".wemixvisor");
    name = or_text c.name "wemixd";
  }

  -- the lookup in the map of migrations, or the generic migration
  unfoldable pub migration : Version → Version → Config → Config
  migration v w c =
      if equal v (version 0 1 0) && equal w (version 0 2 0)
      then migrate_v1_to_v2 c
      else if equal v (version 0 2 0) && equal w (version 0 3 0)
      then migrate_v2_to_v3 c
      else if equal v (version 0 3 0) && equal w (version 0 4 0)
      then migrate_v3_to_v4 c
      else if equal v (version 0 4 0) && equal w (version 0 5 0)
      then migrate_v4_to_v5 c
      else generic_migration c

  -- the loop of `Migrate`, on fuel
  unfoldable pub migrate_loop : ℕ → Version → Version → Config → Option Config
  migrate_loop zero current to c = none
  migrate_loop (suc fuel) current to c =
      let next = get_next_version current to in
      let rest = migrate_loop fuel next to (migration current next c) in
      if equal current to then some c else rest

  unfoldable pub migrate : Option Config → String → String → MigrateResult
  migrate none from_version to_version = nil_config
  migrate (some c) from_version to_version = elim (parse_version p from_version) [
    | none ↦ invalid_from
    | some v ↦ elim (parse_version p to_version) [
      | none ↦ invalid_to
      | some w ↦
          if equal v w
          then migrated c
          else if greater_than v w
          then downgrade
          else elim (migrate_loop enough v w c) [ none ↦ out_of_fuel | some c' ↦ migrated c' ]
    ]
  ]
