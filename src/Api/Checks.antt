-- ===== src/Api/Checks.antt =====
-- Runs of the middleware, and the limiter's theorem at a concrete input.
use wemixvisor.Base.{
  arith, ℕ, String, str_dec, str_eq, Option, none, some, ◌≤◌, ◌≡◌, refl, true, false, not, List, [],
  ◌∷◌, length, map, if◌then◌else◌,
}
use wemixvisor.Base.Int.{ℤ, pos, ◌-ℤ◌, leb_ℤ}
use wemixvisor.Base.GoMap
use wemixvisor.Base.GoMap.{GoMap}
use wemixvisor.Api.{
  Context, allowed, panics, ApiKey, add_api_key, authenticate, validate_api_key, behind,
  require_role, any_grants, grants, basic_auth, minute, later_than, rate_limiter, admit,
}
use wemixvisor.Api.Traffic.{rate_limiter_exact, pass_all, times_from}

abbrev stored_keys : GoMap ApiKey
stored_keys = add_api_key (pos 0) "secret-of-ann" "ann" ("operator" ∷ []) []

-- tokens of one user, and the length of texts that stand in these runs
abbrev accepts : String → Option Context
accepts token =
    if str_eq token "t1" then some (record { name = "bob"; roles = "admin" ∷ [] }) else none

abbrev eight : String → ℕ
eight s = if str_eq s "short" then 5 else 8

token_wins :
    (authenticate accepts eight (pos 5) "Bearer t1" "secret-of-ann" stored_keys).1
    ≡ allowed (record { name = "bob"; roles = "admin" ∷ [] })
unfolding authenticate behind add_api_key str_dec
token_wins = refl

key_admits :
    (authenticate accepts eight (pos 5) "Bearer t2" "secret-of-ann" stored_keys).1
    ≡ allowed (record { name = "ann"; roles = "operator" ∷ [] })
unfolding authenticate behind add_api_key validate_api_key GoMap.insert GoMap.lookup str_dec
key_admits = refl

-- an unknown key of fewer than eight bytes
short_key : (authenticate accepts eight (pos 5) "" "short" stored_keys).1 ≡ panics
unfolding authenticate behind add_api_key validate_api_key GoMap.insert GoMap.lookup str_dec
short_key = refl

roles_needed : require_role ("viewer" ∷ "operator" ∷ []) (some ("operator" ∷ [])) ≡ true
unfolding require_role any_grants grants str_dec
roles_needed = refl

roles_missing : require_role ("viewer" ∷ []) (some ("operator" ∷ [])) ≡ false
unfolding require_role any_grants grants str_dec
roles_missing = refl

wrong_password : basic_auth "ann" "pw" (some ("ann", "px")) ≡ false
unfolding basic_auth str_dec
wrong_password = refl

abbrev requests : List (String × ℤ)
requests =
    ("a", pos 0)
    ∷ ("a", pos 1_000_000_000)
    ∷ ("b", pos 2_000_000_000)
    ∷ ("a", pos 3_000_000_000)
    ∷ ("a", pos 60_500_000_000)
    ∷ []

admits_again : map (λ r. r.0) (pass_all (pos 2) requests ([], [])).1 ≡ "a" ∷ "a" ∷ "b" ∷ "a" ∷ []
unfolding pass_all rate_limiter admit later_than GoMap.insert GoMap.lookup str_dec
admits_again = refl

abbrev admitted : List ℤ
admitted = times_from "a" (pass_all (pos 2) requests ([], [])).1

rate_limiter_exact_example :
    (length (later_than (pos 60_500_000_000 -ℤ minute) admitted) ≤ 2)
    × ((rate_limiter (pos 2) (pos 62_000_000_000) "a" (pass_all (pos 2) requests ([], [])).0).1
        ≡ not (leb_ℤ (pos 2) (pos (length (later_than (pos 62_000_000_000 -ℤ minute) admitted)))))
rate_limiter_exact_example =
    rate_limiter_exact (pos 2) (pos 0) (pos 62_000_000_000) requests "a"
      (omega arith, (omega arith, (omega arith, (omega arith, (omega arith, tt))))) (omega arith)
