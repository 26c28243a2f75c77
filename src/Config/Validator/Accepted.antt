-- ===== src/Config/Validator/Accepted.antt =====
-- What `Validate` accepts: the configurations that each rule accepts, and how that compares with
-- `Config.Validate` of internal/config/config.go.
use wemixvisor.Base.{
  ◌≡◌, ◌≢◌, ◌↔◌, inl, inr, refl, Option, none, some, Bool, true, false, List, [], ◌∷◌, ◌++◌, All,
  arith, Option-cases, str_eq, if◌then◌else◌, ℕ, ◌*◌,
}
use wemixvisor.Base.Int.{pos, ◌≤ℤ◌, ltb_ℤ}
use wemixvisor.Config.{Config, millisecond, min_poll_interval, second}
use wemixvisor.Config
use wemixvisor.Base
use wemixvisor.Config.Validator.{
  Environment, RuleError, path_rule, binary_rule, default_rules, errors_of, accepted, validate,
}
use wemixvisor.Config.Validator.Ranges.{resource_rule_exact, OffOrFrom}

abbrev pub Accepts : Config → (Config → Option RuleError) → Type 0
Accepts c rule = rule c ≡ none

errors_of-All :
    (rules : List (Config → Option RuleError)) (c : Config)
    → errors_of rules c ≡ []
    → All (Accepts c) rules
unfolding errors_of
errors_of-All [] c h = tt
errors_of-All (rule ∷ rules) c h = elim (Option-cases (rule c)) [
  | inl e ↦ (e, errors_of-All rules c (ground (arith, h, e)))
  | inr (x, e) ↦ ground (arith, h, e)
]

All-errors_of :
    (rules : List (Config → Option RuleError)) (c : Config)
    → All (Accepts c) rules
    → errors_of rules c ≡ []
unfolding errors_of
All-errors_of [] c h = refl
All-errors_of (rule ∷ rules) c (e, h) = ground (arith, e, All-errors_of rules c h)

validate-errors_of :
    (rules : List (Config → Option RuleError)) (c : Config)
    → validate rules (some c) ≡ accepted
    → errors_of rules c ≡ []
unfolding validate
validate-errors_of rules c h = ground (arith, h)

errors_of-validate :
    (rules : List (Config → Option RuleError)) (c : Config)
    → errors_of rules c ≡ []
    → validate rules (some c) ≡ accepted
unfolding validate
errors_of-validate rules c h = ground (arith, h)

-- Validate accepts a configuration just when each of its rules, the added ones included, finds no
-- error in it.
pub validate_exact :
    (rules : List (Config → Option RuleError)) (c : Config)
    → (validate rules (some c) ≡ accepted) ↔ All (Accepts c) rules
validate_exact rules c = (
  λ h. errors_of-All rules c (validate-errors_of rules c h),
  λ h. errors_of-validate rules c (All-errors_of rules c h),
)

module _ (e : Environment) where
  home_set : (c : Config) → path_rule e c ≡ none → str_eq c.home "" ≡ false
  unfolding path_rule
  home_set c h = ground (arith, h)

  name_set : (c : Config) → binary_rule e c ≡ none → str_eq c.name "" ≡ false
  unfolding binary_rule
  name_set c h = ground (arith, h)

  set-validate :
      (c : Config)
      → str_eq c.home "" ≡ false
      → str_eq c.name "" ≡ false
      → Config.validate c ≡ (
          if ltb_ℤ c.poll_interval min_poll_interval
          then some Config.poll_interval_too_short
          else none)
  unfolding Config.validate
  set-validate c h k = rw (h, k) refl

  short-poll :
      (n : Base.Int.ℤ) (error : Config.ConfigError)
      → OffOrFrom n (100 * millisecond)
      → ((if ltb_ℤ n min_poll_interval then some error else none) ≡ none) ↔ (n ≢ pos 0)
  short-poll n error (inl e) = rw e (λ k. cc k, λ k. absurd (k refl))
  short-poll n error (inr h) = (λ k z. ground (arith, h, z), λ k. ground (arith, h))

  -- Of the configurations that the validator accepts, `Config.Validate` accepts all but those whose
  -- poll interval is 0.
  pub accepted-validate :
      (c : Config)
      → validate (default_rules e) (some c) ≡ accepted
      → (Config.validate c ≡ none) ↔ (c.poll_interval ≢ pos 0)
  accepted-validate c h =
      let (path, (binary, (port, (network, (resource, rest))))) =
        (validate_exact (default_rules e) c).0 h in
      let (grace, (poll, limits)) = (resource_rule_exact e c).0 resource in
      rw (set-validate c (home_set c path) (name_set c binary))
        (short-poll c.poll_interval Config.poll_interval_too_short poll)
