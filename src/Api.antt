-- ===== src/Api.antt =====
-- The middleware of internal/api/middleware.go: authentication by token or key, the required roles,
-- basic authentication and the rate limiter. The JWT library and the length of a text in bytes are
-- parameters, and `time.Now()` is an argument. An HTTP answer is a value of `Verdict`.
use wemixvisor.Base.{
  ℕ, ltb, leb, Option, none, some, Bool, true, false, not, ◌&&◌, ◌||◌, List, [], ◌∷◌, ◌++◌, String,
  str_eq, length, contains, ◌==◌, if◌then◌else◌,
}
use Prim.Native.Char.{code}
use wemixvisor.Base.Int.{ℤ, pos, ◌-ℤ◌, ltb_ℤ, leb_ℤ}
use wemixvisor.Base.GoMap
use wemixvisor.Base.GoMap.{GoMap}
pub mod Limits
pub mod Traffic
mod Checks

pub record ApiKey : Type 0 where
  pub key : String
  pub name : String
  pub roles : List String
  pub rate_limit_per_min : ℕ
  pub created_at : ℤ
  pub last_used : Option ℤ

-- what the middleware sets in the context
pub record Context : Type 0 where
  pub name : String
  pub roles : List String

pub data Verdict : Type 0 where
  allowed : Context → Verdict
  -- a slice out of range
  unauthorized panics : Verdict

unfoldable pub add_api_key : ℤ → String → String → List String → GoMap ApiKey → GoMap ApiKey
add_api_key now key name roles keys =
    GoMap.insert key
      (record {
        key = key;
        name = name;
        roles = roles;
        rate_limit_per_min = 60;
        created_at = now;
        last_used = none;
      })
      keys

-- what is left of the text behind the prefix
unfoldable pub behind : String → String → Option String
behind String.[] s = some s
behind (String.◌∷◌ c p) String.[] = none
behind (String.◌∷◌ c p) (String.◌∷◌ d s) = if code c == code d then behind p s else none

-- `validate_jwt` gives the claims of a token that is valid; `byte_length` is Go's `len`
module _ (validate_jwt : String → Option Context) (byte_length : String → ℕ) where
  abbrev token_of : String → Option Context
  token_of header = elim (behind "Bearer " header) [ none ↦ none | some t ↦ validate_jwt t ]

  -- A key that is not known is logged with its first eight bytes.
  unfoldable pub validate_api_key : ℤ → String → GoMap ApiKey → GoMap ApiKey × Verdict
  validate_api_key now key keys = elim (GoMap.lookup key keys) [
    | none ↦ (keys, if ltb (byte_length key) 8 then panics else unauthorized)
    | some k ↦ (
      GoMap.insert key (record k { last_used = some now }) keys,
      allowed (record { name = k.name; roles = k.roles }),
    )
  ]

  unfoldable pub authenticate : ℤ → String → String → GoMap ApiKey → GoMap ApiKey × Verdict
  authenticate now authorization key keys = elim (token_of authorization) [
    | some context ↦ (keys, allowed context)
    | none ↦ if str_eq key "" then (keys, unauthorized) else validate_api_key now key keys
  ]

-- one role of the user against a required one, and the loops over both
unfoldable pub grants : String → List String → Bool
grants required [] = false
grants required (r ∷ roles) = str_eq r required || str_eq r "admin" || grants required roles

unfoldable pub any_grants : List String → List String → Bool
any_grants [] roles = false
any_grants (required ∷ more) roles = grants required roles || any_grants more roles

-- `none` when no roles are set
unfoldable pub require_role : List String → Option (List String) → Bool
require_role required none = false
require_role required (some roles) = any_grants required roles

abbrev pub minute : ℤ
minute = pos 60_000_000_000

unfoldable pub later_than : ℤ → List ℤ → List ℤ
later_than m [] = []
later_than m (t ∷ ts) = if ltb_ℤ m t then t ∷ later_than m ts else later_than m ts

-- the limiter for the times that are kept of one address
unfoldable pub admit : ℤ → ℤ → List ℤ → List ℤ × Bool
admit limit now times =
    let recent = later_than (now -ℤ minute) times in
    if leb_ℤ limit (pos (length recent)) then (recent, false) else (recent ++ now ∷ [], true)

-- An address that is not known gets an entry with its first request that is admitted.
unfoldable pub rate_limiter : ℤ → ℤ → String → GoMap (List ℤ) → GoMap (List ℤ) × Bool
rate_limiter limit now ip requests = elim (GoMap.lookup ip requests) [
  | none ↦
      if leb_ℤ limit (pos 0) then (requests, false) else (GoMap.insert ip (now ∷ []) requests, true)
  | some times ↦ let (times', ok) = admit limit now times in (GoMap.insert ip times' requests, ok)
]

-- the user and password of the request, if there are any
unfoldable pub basic_auth : String → String → Option (String × String) → Bool
basic_auth username password none = false
basic_auth username password (some (user, pass)) = str_eq user username && str_eq pass password
