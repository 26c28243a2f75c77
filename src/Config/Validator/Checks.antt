-- ===== src/Config/Validator/Checks.antt =====
-- Runs of the validator on a concrete configuration.
use wemixvisor.Base.{◌≡◌, ◌≢◌, ◌↔◌, refl, none, some, true, false, [], ◌∷◌, str_dec, contains}
use wemixvisor.Base.Int.{pos, negsuc}
use wemixvisor.Config
use wemixvisor.Config.{Config}
use wemixvisor.Config.Sample.{config}
use wemixvisor.Config.Validator.{
  Environment, found, path_rule, binary_rule, port_rule, network_rule, resource_rule, security_rule,
  compatibility_rule, default_rules, errors_of, validate, accepted, refused, expand,
  has_invalid_char, known_host, address_port, negative_poll, home_required,
}
use wemixvisor.Config.Validator.Accepted.{accepted-validate}

abbrev environment : Environment
environment = record {
  home_env = "/home/user";
  join = λ a b. b;
  dir = λ s. "/";
  stat = λ s. found true false;
  stat_again = λ s. found true false;
  port_available = λ n. true;
  split_host_port = λ s. some ("10.0.0.1", "8588");
  parse_ip = λ s. true;
  lookup_host = λ s. false;
  scan_int = λ s. some (pos 8588);
}

config-accepted : validate (default_rules environment) (some config) ≡ accepted
unfolding validate errors_of path_rule binary_rule port_rule network_rule resource_rule
    security_rule compatibility_rule expand has_invalid_char known_host address_port contains
    str_dec
config-accepted = refl

finds_all_errors :
    validate
      (default_rules environment)
      (some (record config { home = ""; poll_interval = negsuc 0 }))
    ≡ refused (home_required ∷ negative_poll ∷ [])
unfolding validate errors_of path_rule binary_rule port_rule network_rule resource_rule
    security_rule compatibility_rule expand has_invalid_char known_host address_port contains
    str_dec
finds_all_errors = refl

accepted-validate_example : (Config.validate config ≡ none) ↔ (config.poll_interval ≢ pos 0)
accepted-validate_example = accepted-validate environment config config-accepted
