-- ===== src/Config/Migrator/Fields.antt =====
-- What a migration keeps: the fields that are set already, and all the fields it does not name.
use wemixvisor.Base.{
  ℕ, zero, suc, ◌≡◌, ◌⊎◌, ◌≢◌, inl, inr, refl, Option, none, some, Bool, true, false, String, arith,
  List, [], ◌∷◌, ◌∙◌, if◌then◌else◌, Option-cases, is_some, str_eq,
}
use wemixvisor.Base.Int.{ℤ, pos, eq_ℤ}
use wemixvisor.Base.GoMap.{GoMap}
use wemixvisor.Config.{Config}
use wemixvisor.Config.Migrator.{
  Version, equal, get_next_version, Platform, parse_version, or_text, or_number, migrate_v1_to_v2,
  migrate_v2_to_v3, migrate_v3_to_v4, migrate_v4_to_v5, generic_migration, default_network_id,
  migration, migrate_loop, enough, migrate, migrated,
}

-- a text that is set keeps its value, and likewise a number and a map
abbrev pub KeptText : String → String → Type 0
KeptText s t = str_eq s "" ≡ false → t ≡ s

abbrev pub KeptNumber : ℤ → ℤ → Type 0
KeptNumber n m = eq_ℤ n (pos 0) ≡ false → m ≡ n

abbrev pub KeptTexts : List String → List String → Type 0
KeptTexts [] ts = Unit
KeptTexts (s ∷ ss) [] = ⊥
KeptTexts (s ∷ ss) (t ∷ ts) = KeptText s t × KeptTexts ss ts

abbrev pub KeptNumbers : List ℤ → List ℤ → Type 0
KeptNumbers [] ms = Unit
KeptNumbers (n ∷ ns) [] = ⊥
KeptNumbers (n ∷ ns) (m ∷ ms) = KeptNumber n m × KeptNumbers ns ms

-- the fields that a migration may fill
abbrev pub texts : Config → List String
texts c = c.home ∷ c.name ∷ c.data_backup_path ∷ c.rpc_address ∷ c.chain_id ∷ c.config_version ∷ []

abbrev pub numbers : Config → List ℤ
numbers c =
    c.shutdown_grace
    ∷ c.pre_upgrade_max_retries
    ∷ c.health_check_interval
    ∷ c.metrics_interval
    ∷ c.max_restarts
    ∷ c.rpc_port
    ∷ pos c.network_id
    ∷ []

-- the configuration without them
abbrev pub others : Config → Config
others c = record c {
  home = "";
  name = "";
  data_backup_path = "";
  rpc_address = "";
  chain_id = "";
  config_version = "";
  shutdown_grace = pos 0;
  pre_upgrade_max_retries = pos 0;
  health_check_interval = pos 0;
  metrics_interval = pos 0;
  max_restarts = pos 0;
  rpc_port = pos 0;
  network_id = 0;
  download_urls = none;
}

-- The fields that a migration may fill are unchanged where they are set, and the others always.
abbrev pub Extends : Config → Config → Type 0
Extends c d =
    (KeptTexts (texts c) (texts d) × KeptNumbers (numbers c) (numbers d))
    × ((is_some c.download_urls ≡ true → d.download_urls ≡ c.download_urls) × (others d ≡ others c))

KeptTexts-refl : (ss : List String) → KeptTexts ss ss
KeptTexts-refl [] = tt
KeptTexts-refl (s ∷ ss) = (λ h. refl, KeptTexts-refl ss)

KeptTexts-trans : (ss ts us : List String) → KeptTexts ss ts → KeptTexts ts us → KeptTexts ss us
KeptTexts-trans [] ts us h k = tt
KeptTexts-trans (s ∷ ss) [] us h k = absurd h
KeptTexts-trans (s ∷ ss) (t ∷ ts) [] h k = absurd k
KeptTexts-trans (s ∷ ss) (t ∷ ts) (u ∷ us) (h, hs) (k, ks) =
    (λ set. rw (← h set) (k (rw (h set) set)), KeptTexts-trans ss ts us hs ks)

KeptNumbers-refl : (ns : List ℤ) → KeptNumbers ns ns
KeptNumbers-refl [] = tt
KeptNumbers-refl (n ∷ ns) = (λ h. refl, KeptNumbers-refl ns)

KeptNumbers-trans : (ns ms ks : List ℤ) → KeptNumbers ns ms → KeptNumbers ms ks → KeptNumbers ns ks
KeptNumbers-trans [] ms ks h k = tt
KeptNumbers-trans (n ∷ ns) [] ks h k = absurd h
KeptNumbers-trans (n ∷ ns) (m ∷ ms) [] h k = absurd k
KeptNumbers-trans (n ∷ ns) (m ∷ ms) (l ∷ ls) (h, hs) (k, ks) =
    (λ set. rw (← h set) (k (rw (h set) set)), KeptNumbers-trans ns ms ls hs ks)

Extends-refl : (c : Config) → Extends c c
Extends-refl c = ((KeptTexts-refl (texts c), KeptNumbers-refl (numbers c)), (λ h. refl, refl))

Extends-trans : (c d e : Config) → Extends c d → Extends d e → Extends c e
Extends-trans c d e ((ht, hn), (hd, ho)) ((kt, kn), (kd, ko)) = (
  (
    KeptTexts-trans (texts c) (texts d) (texts e) ht kt,
    KeptNumbers-trans (numbers c) (numbers d) (numbers e) hn kn,
  ),
  (λ set. rw (← hd set) (kd (rw (hd set) set)), ko ∙ ho),
)

or_text-KeptText : (s default : String) → KeptText s (or_text s default)
or_text-KeptText s default h = rw h refl

or_number-KeptNumber : (n default : ℤ) → KeptNumber n (or_number n default)
or_number-KeptNumber n default h = rw h refl

default_network_id-KeptNumber :
    (validator : Bool) (id : ℕ) → KeptNumber (pos id) (pos (default_network_id validator id))
default_network_id-KeptNumber validator id h = ground arith

kept_urls :
    (urls : Option (GoMap String))
    → is_some urls ≡ true
    → (if is_some urls then urls else some []) ≡ urls
kept_urls urls h = rw h refl

Extends-if :
    (b : Bool) (c d e : Config) → Extends c d → Extends c e → Extends c (if b then d else e)
Extends-if true c d e h k = h
Extends-if false c d e h k = k

some-if :
    (b : Bool) (c d : Config) (o : Option Config)
    → (if b then some c else o) ≡ some d
    → (d ≡ c) ⊎ (o ≡ some d)
some-if true c d o h = inl (cc h)
some-if false c d o h = inr h

module _ (p : Platform) where
  migrate_v1_to_v2-Extends : (c : Config) → Extends c (migrate_v1_to_v2 p c)
  unfolding migrate_v1_to_v2
  migrate_v1_to_v2-Extends c = (
    (
      (
        λ h. refl,
        (
          λ h. refl,
          (or_text-KeptText c.data_backup_path _, (λ h. refl, (λ h. refl, (λ h. refl, tt)))),
        ),
      ),
      (
        or_number-KeptNumber c.shutdown_grace _,
        (
          or_number-KeptNumber c.pre_upgrade_max_retries _,
          (λ h. refl, (λ h. refl, (λ h. refl, (λ h. refl, (λ h. refl, tt))))),
        ),
      ),
    ),
    (λ h. refl, refl),
  )

  migrate_v2_to_v3-Extends : (c : Config) → Extends c (migrate_v2_to_v3 p c)
  unfolding migrate_v2_to_v3
  migrate_v2_to_v3-Extends c = (
    (
      (
        λ h. refl,
        (λ h. refl, (λ h. refl, (or_text-KeptText c.rpc_address _, (λ h. refl, (λ h. refl, tt))))),
      ),
      (λ h. refl, (λ h. refl, (λ h. refl, (λ h. refl, (λ h. refl, (λ h. refl, (λ h. refl, tt))))))),
    ),
    (kept_urls c.download_urls, refl),
  )

  migrate_v3_to_v4-Extends : (c : Config) → Extends c (migrate_v3_to_v4 p c)
  unfolding migrate_v3_to_v4
  migrate_v3_to_v4-Extends c = (
    (
      (λ h. refl, (λ h. refl, (λ h. refl, (λ h. refl, (λ h. refl, (λ h. refl, tt)))))),
      (
        λ h. refl,
        (
          λ h. refl,
          (
            or_number-KeptNumber c.health_check_interval _,
            (
              or_number-KeptNumber c.metrics_interval _,
              (
                or_number-KeptNumber c.max_restarts _,
                (or_number-KeptNumber c.rpc_port _, (λ h. refl, tt)),
              ),
            ),
          ),
        ),
      ),
    ),
    (λ h. refl, refl),
  )

  migrate_v4_to_v5-Extends : (c : Config) → Extends c (migrate_v4_to_v5 p c)
  unfolding migrate_v4_to_v5
  migrate_v4_to_v5-Extends c = (
    (
      (
        λ h. refl,
        (
          λ h. refl,
          (
            λ h. refl,
            (λ h. refl, (or_text-KeptText c.chain_id _, (or_text-KeptText c.config_version _, tt))),
          ),
        ),
      ),
      (
        λ h. refl,
        (
          λ h. refl,
          (
            λ h. refl,
            (
              λ h. refl,
              (
                λ h. refl,
                (λ h. refl, (default_network_id-KeptNumber c.validator_mode c.network_id, tt)),
              ),
            ),
          ),
        ),
      ),
    ),
    (λ h. refl, refl),
  )

  generic_migration-Extends : (c : Config) → Extends c (generic_migration p c)
  unfolding generic_migration
  generic_migration-Extends c = (
    (
      (
        or_text-KeptText c.home _,
        (or_text-KeptText c.name _, (λ h. refl, (λ h. refl, (λ h. refl, (λ h. refl, tt))))),
      ),
      (λ h. refl, (λ h. refl, (λ h. refl, (λ h. refl, (λ h. refl, (λ h. refl, (λ h. refl, tt))))))),
    ),
    (λ h. refl, refl),
  )

  migration-Extends : (v w : Version) (c : Config) → Extends c (migration p v w c)
  unfolding migration
  migration-Extends v w c = Extends-if _ c _ _ (migrate_v1_to_v2-Extends c) (
      Extends-if _ c _ _ (migrate_v2_to_v3-Extends c) (
        Extends-if _ c _ _ (migrate_v3_to_v4-Extends c)
          (Extends-if _ c _ _ (migrate_v4_to_v5-Extends c) (generic_migration-Extends c))))

  migrate_loop-Extends :
      (fuel : ℕ) (v w : Version) (c d : Config) → migrate_loop p fuel v w c ≡ some d → Extends c d
  unfolding migrate_loop
  migrate_loop-Extends zero v w c d h = cc h
  migrate_loop-Extends (suc fuel) v w c d h =
      let next = get_next_version v w in
      elim (some-if (equal v w) c d (migrate_loop p fuel next w (migration p v next c)) h) [
        | inl e ↦ rw e (Extends-refl c)
        | inr e ↦
            Extends-trans c (migration p v next c) d (migration-Extends v next c)
              (migrate_loop-Extends fuel next w (migration p v next c) d e)
      ]

  migrated-cases :
      (c d : Config) (from_version to_version : String) (v w : Version)
      → parse_version p from_version ≡ some v
      → parse_version p to_version ≡ some w
      → migrate p (some c) from_version to_version ≡ migrated d
      → (d ≡ c) ⊎ (migrate_loop p enough v w c ≡ some d)
  unfolding migrate
  migrated-cases c d from_version to_version v w ev ew h = ground (arith, h, ev, ew)

  migrated-parsed :
      (c d : Config) (from_version to_version : String)
      → migrate p (some c) from_version to_version ≡ migrated d
      → (parse_version p from_version ≢ none) × (parse_version p to_version ≢ none)
  unfolding migrate
  migrated-parsed c d from_version to_version h =
      (λ e. ground (arith, h, e), λ e. ground (arith, h, e))

  -- Whatever path of migrations leads from one version to the other, Migrate keeps each field that
  -- is set and changes none but those it may fill.
  pub migrate-Extends :
      (c d : Config) (from_version to_version : String)
      → migrate p (some c) from_version to_version ≡ migrated d
      → Extends c d
  migrate-Extends c d from_version to_version h =
      let (known_from, known_to) = migrated-parsed c d from_version to_version h in
      elim (Option-cases (parse_version p from_version)) [
        | inl e ↦ absurd (known_from e)
        | inr (v, ev) ↦ elim (Option-cases (parse_version p to_version)) [
          | inl e ↦ absurd (known_to e)
          | inr (w, ew) ↦ elim (migrated-cases c d from_version to_version v w ev ew h) [
            | inl e ↦ rw e (Extends-refl c)
            | inr e ↦ migrate_loop-Extends enough v w c d e
          ]
        ]
      ]
