-- ===== src/Config/Validator/Ranges.antt =====
-- What a configuration satisfies that the resource rule accepts, and how the rule differs from
-- `Config.Validate` of internal/config/config.go.
use wemixvisor.Base.{
  ℕ, ◌≡◌, ◌↔◌, ◌⊎◌, inl, inr, refl, none, some, Bool, true, false, arith, if◌then◌else◌, Option,
  ◌*◌, ◌&&◌,
}
use wemixvisor.Base.Int
use wemixvisor.Base.Int.{ℤ, pos, ◌≤ℤ◌, ltb_ℤ}
use wemixvisor.Config.{Config, second, millisecond}
use wemixvisor.Config.Validator.{Environment, RuleError, resource_rule}

-- 0 or at least the minimum
abbrev pub OffOrFrom : ℤ → ℕ → Type 0
OffOrFrom n min = (n ≡ pos 0) ⊎ (pos min ≤ℤ n)

abbrev pub Between : ℤ → ℕ → Type 0
Between n max = (pos 0 ≤ℤ n) × (n ≤ℤ pos max)

abbrev pub InRanges : Config → Type 0
InRanges c =
    Between c.shutdown_grace (600 * second)
    × (OffOrFrom c.poll_interval (100 * millisecond)
        × ((pos 0 ≤ℤ c.restart_delay)
            × (OffOrFrom c.health_check_interval (5 * second)
                × (OffOrFrom c.metrics_interval (10 * second)
                    × (Between c.max_restarts 100 × Between c.pre_upgrade_max_retries 10)))))

guard :
    (b : Bool) (x : RuleError) (o : Option RuleError)
    → (if b then some x else o) ≡ none
    → (b ≡ false) × (o ≡ none)
guard true x o h = cc h
guard false x o h = (refl, h)

lower : (n : ℤ) → ltb_ℤ n (pos 0) ≡ false → pos 0 ≤ℤ n
lower n h = ground arith

upper : (n : ℤ) (max : ℕ) → ltb_ℤ (pos max) n ≡ false → n ≤ℤ pos max
upper n max h = ground arith

ltb-OffOrFrom :
    (n : ℤ) (min : ℕ)
    → ltb_ℤ n (pos 0) ≡ false
    → ltb_ℤ (pos 0) n && ltb_ℤ n (pos min) ≡ false
    → OffOrFrom n min
ltb-OffOrFrom (pos n) min h k = ground arith
ltb-OffOrFrom (Int.negsuc n) min h k = ground arith

pass :
    (b : Bool) (x : RuleError) (o : Option RuleError)
    → b ≡ false
    → o ≡ none
    → (if b then some x else o) ≡ none
pass b x o e h = rw (e, h) refl

lower_of : (n : ℤ) → pos 0 ≤ℤ n → ltb_ℤ n (pos 0) ≡ false
lower_of n h = ground arith

upper_of : (n : ℤ) (max : ℕ) → n ≤ℤ pos max → ltb_ℤ (pos max) n ≡ false
upper_of n max h = ground arith

OffOrFrom-lower : (n : ℤ) (min : ℕ) → OffOrFrom n min → ltb_ℤ n (pos 0) ≡ false
OffOrFrom-lower n min (inl e) = rw e refl
OffOrFrom-lower n min (inr h) = ground arith

OffOrFrom-ltb : (n : ℤ) (min : ℕ) → OffOrFrom n min → ltb_ℤ (pos 0) n && ltb_ℤ n (pos min) ≡ false
OffOrFrom-ltb n min (inl e) = rw e refl
OffOrFrom-ltb n min (inr h) = ground arith

module _ (e : Environment) where
  resource_rule-InRanges : (c : Config) → resource_rule e c ≡ none → InRanges c
  unfolding resource_rule
  resource_rule-InRanges c h =
      let (grace, h1) = guard _ _ _ h in
      let (grace_max, h2) = guard _ _ _ h1 in
      let (poll, h3) = guard _ _ _ h2 in
      let (poll_min, h4) = guard _ _ _ h3 in
      let (delay, h5) = guard _ _ _ h4 in
      let (health, h6) = guard _ _ _ h5 in
      let (health_min, h7) = guard _ _ _ h6 in
      let (metrics, h8) = guard _ _ _ h7 in
      let (metrics_min, h9) = guard _ _ _ h8 in
      let (restarts, h10) = guard _ _ _ h9 in
      let (restarts_max, h11) = guard _ _ _ h10 in
      let (retries, h12) = guard _ _ _ h11 in
      let (retries_max, h13) = guard _ _ _ h12 in
      (
        (lower _ grace, upper _ _ grace_max),
        (
          ltb-OffOrFrom _ _ poll poll_min,
          (
            lower _ delay,
            (
              ltb-OffOrFrom _ _ health health_min,
              (
                ltb-OffOrFrom _ _ metrics metrics_min,
                (
                  (lower _ restarts, upper _ _ restarts_max),
                  (lower _ retries, upper _ _ retries_max),
                ),
              ),
            ),
          ),
        ),
      )

  InRanges-resource_rule : (c : Config) → InRanges c → resource_rule e c ≡ none
  unfolding resource_rule
  InRanges-resource_rule c ((g, gm), (p, (d, (h, (m, ((r, rm), (t, tm))))))) =
      pass _ _ _ (lower_of _ g) (
        pass _ _ _ (upper_of _ _ gm) (
          pass _ _ _ (OffOrFrom-lower _ _ p) (
            pass _ _ _ (OffOrFrom-ltb _ _ p) (
              pass _ _ _ (lower_of _ d) (
                pass _ _ _ (OffOrFrom-lower _ _ h) (
                  pass _ _ _ (OffOrFrom-ltb _ _ h) (
                    pass _ _ _ (OffOrFrom-lower _ _ m) (
                      pass _ _ _ (OffOrFrom-ltb _ _ m) (
                        pass _ _ _ (lower_of _ r) (
                          pass _ _ _ (upper_of _ _ rm) (
                            pass _ _ _ (lower_of _ t) (pass _ _ _ (upper_of _ _ tm) refl))))))))))))

  -- The resource rule accepts a configuration just when every limit is in its range: the grace
  -- period within ten minutes, each interval off or at least its minimum, no delay below zero, at
  -- most 100 restarts and 10 retries.
  pub resource_rule_exact : (c : Config) → (resource_rule e c ≡ none) ↔ InRanges c
  resource_rule_exact c = (resource_rule-InRanges c, InRanges-resource_rule c)
