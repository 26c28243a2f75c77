-- ===== src/Config/Validator.antt =====
-- The configuration validator of internal/config/validator.go: the rules on a whole configuration
-- and the checks of single fields. What the file system, the network and the standard library answer
-- is a parameter. Custom rules are an argument of `validate`. Error texts are values.
use wemixvisor.Base.{
  ℕ, ◌+◌, ◌-◌, ◌*◌, Option, none, some, Bool, true, false, not, ◌&&◌, ◌||◌, List, [], ◌∷◌, ◌++◌,
  String, str_eq, ltb, ◌==◌, if◌then◌else◌, is_some, contains,
}
use Prim.Native.Char.{code}
use Prim.Native.Nat.{◌%◌}
use wemixvisor.Base.Int.{ℤ, pos, negsuc, eq_ℤ, ltb_ℤ}
use wemixvisor.Config.{Config, second, millisecond}
pub mod Accepted
pub mod Ranges
pub mod Fields
mod Checks

-- what `os.Stat` finds
pub data Stat : Type 0 where
  missing unreadable : Stat
  found : Bool → Bool → Stat

-- `found is_dir is_executable`; `stat_again` is the second call on the script
pub record Environment : Type 0 where
  pub home_env : String
  pub join : String → String → String
  pub dir : String → String
  pub stat : String → Stat
  pub stat_again : String → Stat
  pub port_available : ℤ → Bool
  pub split_host_port : String → Option (String × String)
  pub parse_ip : String → Bool
  pub lookup_host : String → Bool
  pub scan_int : String → Option ℤ

pub data RuleError : Type 0 where
  home_required home_not_directory backup_parent_missing : RuleError
  name_required invalid_characters : RuleError
  port_invalid port_in_use : RuleError
  invalid_address cannot_resolve invalid_port port_out_of_range : RuleError
  negative_grace grace_too_long negative_poll poll_too_short negative_delay : RuleError
  negative_health health_too_short negative_metrics metrics_too_short : RuleError
  negative_restarts restarts_too_high negative_retries retries_too_high : RuleError
  unchecked_downloads script_not_found cannot_stat_script script_not_executable : RuleError
  recase_required invalid_time_format : RuleError

-- `strings.ContainsAny s "/\\:*?\"<>|"`
abbrev is_invalid_char : ℕ → Bool
is_invalid_char n =
    n == b'/'
    || n == 92
    || n == b':'
    || n == b'*'
    || n == b'?'
    || n == 34
    || n == b'<'
    || n == b'>'
    || n == b'|'

unfoldable pub has_invalid_char : String → Bool
has_invalid_char String.[] = false
has_invalid_char (String.◌∷◌ c s) = is_invalid_char (code c) || has_invalid_char s

abbrev is_missing : Stat → Bool
is_missing missing = true
is_missing _ = false

abbrev is_file : Stat → Bool
is_file (found is_dir _) = not is_dir
is_file _ = false

module _ (e : Environment) where
  -- `~/` at the front stands for the home directory
  unfoldable pub expand : String → String
  expand String.[] = String.[]
  expand (String.◌∷◌ c String.[]) = String.◌∷◌ c String.[]
  expand (String.◌∷◌ c (String.◌∷◌ d s)) =
      if code c == b'~' && code d == b'/'
      then e.join e.home_env s
      else String.◌∷◌ c (String.◌∷◌ d s)

  unfoldable pub path_rule : Config → Option RuleError
  path_rule c =
      if str_eq c.home ""
      then some home_required
      else if is_file (e.stat (expand c.home))
      then some home_not_directory
      else if not (str_eq c.data_backup_path "")
          && is_missing (e.stat (e.dir (expand c.data_backup_path)))
      then some backup_parent_missing
      else none

  unfoldable pub binary_rule : Config → Option RuleError
  binary_rule c =
      if str_eq c.name ""
      then some name_required
      else if has_invalid_char c.name
      then some invalid_characters
      else none

  unfoldable pub port_rule : Config → Option RuleError
  port_rule c =
      if not (ltb_ℤ (pos 0) c.rpc_port)
      then none
      else if ltb_ℤ (pos 65535) c.rpc_port
      then some port_invalid
      else if not (e.port_available c.rpc_port)
      then some port_in_use
      else none

  unfoldable pub address_port : String → Option RuleError
  address_port port = if str_eq port "" then none else elim (e.scan_int port) [
    | none ↦ some invalid_port
    | some n ↦ if ltb_ℤ n (pos 1) || ltb_ℤ (pos 65535) n then some port_out_of_range else none
  ]

  unfoldable pub known_host : String → Bool
  known_host host =
      str_eq host "" || str_eq host "localhost" || e.parse_ip host || e.lookup_host host

  unfoldable pub network_rule : Config → Option RuleError
  network_rule c =
      if str_eq c.rpc_address "" then none else elim (e.split_host_port c.rpc_address) [
        | none ↦ if e.parse_ip c.rpc_address then none else some invalid_address
        | some (host, port) ↦
            if not (known_host host) then some cannot_resolve else address_port port
      ]

  unfoldable pub resource_rule : Config → Option RuleError
  resource_rule c =
      if ltb_ℤ c.shutdown_grace (pos 0)
      then some negative_grace
      else if ltb_ℤ (pos (600 * second)) c.shutdown_grace
      then some grace_too_long
      else if ltb_ℤ c.poll_interval (pos 0)
      then some negative_poll
      else if ltb_ℤ (pos 0) c.poll_interval && ltb_ℤ c.poll_interval (pos (100 * millisecond))
      then some poll_too_short
      else if ltb_ℤ c.restart_delay (pos 0)
      then some negative_delay
      else if ltb_ℤ c.health_check_interval (pos 0)
      then some negative_health
      else if ltb_ℤ (pos 0) c.health_check_interval
          && ltb_ℤ c.health_check_interval (pos (5 * second))
      then some health_too_short
      else if ltb_ℤ c.metrics_interval (pos 0)
      then some negative_metrics
      else if ltb_ℤ (pos 0) c.metrics_interval && ltb_ℤ c.metrics_interval (pos (10 * second))
      then some metrics_too_short
      else if ltb_ℤ c.max_restarts (pos 0)
      then some negative_restarts
      else if ltb_ℤ (pos 100) c.max_restarts
      then some restarts_too_high
      else if ltb_ℤ c.pre_upgrade_max_retries (pos 0)
      then some negative_retries
      else if ltb_ℤ (pos 10) c.pre_upgrade_max_retries
      then some retries_too_high
      else none

  -- the checks of the script that `security_rule` runs before an upgrade
  unfoldable pub script_error : Stat → Stat → Option RuleError
  script_error missing second_stat = some script_not_found
  script_error first_stat (found is_dir executable) =
      if executable then none else some script_not_executable
  script_error first_stat second_stat = some cannot_stat_script

  unfoldable pub security_rule : Config → Option RuleError
  security_rule c =
      if c.unsafe_skip_checksum && c.allow_download_binaries
      then some unchecked_downloads
      else if str_eq c.custom_pre_upgrade ""
      then none
      else script_error (e.stat c.custom_pre_upgrade) (e.stat_again c.custom_pre_upgrade)

  unfoldable pub compatibility_rule : Config → Option RuleError
  compatibility_rule c =
      if c.validator_mode && c.disable_recase
      then some recase_required
      else if str_eq c.time_format_logs ""
          || contains c.time_format_logs ("kitchen" ∷ "rfc3339" ∷ "rfc3339nano" ∷ "iso8601" ∷ [])
      then none
      else some invalid_time_format

  abbrev pub default_rules : List (Config → Option RuleError)
  default_rules =
      path_rule ∷ binary_rule ∷ port_rule ∷ network_rule ∷ resource_rule ∷ security_rule
      ∷ compatibility_rule ∷ []

-- the loop of `Validate`: the errors of the rules in their order
unfoldable pub errors_of : List (Config → Option RuleError) → Config → List RuleError
errors_of [] c = []
errors_of (rule ∷ rules) c = elim (rule c) [
  | none ↦ errors_of rules c
  | some x ↦ x ∷ errors_of rules c
]

pub data Verdict : Type 0 where
  accepted nil_config : Verdict
  refused : List RuleError → Verdict

-- the validator with the rules that `AddRule` appended
unfoldable pub validate : List (Config → Option RuleError) → Option Config → Verdict
validate rules none = nil_config
validate rules (some c) = elim (errors_of rules c) [ [] ↦ accepted | x ∷ xs ↦ refused (x ∷ xs) ]

unfoldable pub add_rule :
    (Config → Option RuleError)
    → List (Config → Option RuleError)
    → List (Config → Option RuleError)
add_rule rule rules = rules ++ rule ∷ []
