-- ===== src/Api/Traffic.antt =====
-- The limiter's map of all addresses: no address gets more requests through in a minute than the
-- limit, whatever the others send.
use wemixvisor.Base.{
  String, str_dec, str_eq, Option, none, some, Option-cases, ◌≤◌, ◌≡◌, refl, sym, ap, true, false,
  not, List, [], ◌∷◌, ◌++◌, length, arith, inl, inr, if◌then◌else◌,
}
use mathlib.Core.Path.{subst}
use wemixvisor.Base.Int.{ℤ, pos, pos_part, ◌≤ℤ◌, ◌-ℤ◌, leb_ℤ}
use wemixvisor.Base.GoMap
use wemixvisor.Base.GoMap.{GoMap}
use wemixvisor.Api.{minute, later_than, admit, rate_limiter}
use wemixvisor.Api.Limits.{Served, serve, IsLimited, serve-IsLimited, wait-IsLimited, sub_mono}

abbrev pub times_of : Option (List ℤ) → List ℤ
times_of none = []
times_of (some ts) = ts

-- The times of one address after a request of another are what they were.
rate_limiter-other :
    (limit now : ℤ) (ip j : String) (requests : GoMap (List ℤ))
    → (j ≡ ip → ⊥)
    → GoMap.lookup j (rate_limiter limit now ip requests).0 ≡ GoMap.lookup j requests
unfolding rate_limiter
rate_limiter-other limit now ip j requests ne = elim (Option-cases (GoMap.lookup ip requests)) [
  | inl e ↦ rw (e, rate_limiter) (ground (arith, ne, GoMap.lookup-insert j ip (now ∷ []) requests))
  | inr (ts, e) ↦
      rw (e, rate_limiter)
        (ground (arith, ne, GoMap.lookup-insert j ip (admit limit now ts).0 requests))
]

admit_new :
    (limit now : ℤ)
    → admit limit now [] ≡ (if leb_ℤ limit (pos 0) then ([], false) else (now ∷ [], true))
unfolding admit later_than
admit_new limit now = refl

rate_limiter-same :
    (limit now : ℤ) (ip : String) (requests : GoMap (List ℤ))
    → (
      times_of (GoMap.lookup ip (rate_limiter limit now ip requests).0),
      (rate_limiter limit now ip requests).1,
    )
      ≡ admit limit now (times_of (GoMap.lookup ip requests))
unfolding rate_limiter
rate_limiter-same limit now ip requests = elim (Option-cases (GoMap.lookup ip requests)) [
  | inl e ↦
      rw e (ground (arith, e, GoMap.lookup-insert ip ip (now ∷ []) requests, admit_new limit now))
  | inr (ts, e) ↦
      rw e (ground (arith, e, GoMap.lookup-insert ip ip (admit limit now ts).0 requests))
]

-- the limiter's map, and the requests that were admitted with their addresses
abbrev pub Traffic : Type 0
Traffic = GoMap (List ℤ) × List (String × ℤ)

-- the times at which requests of the address were admitted
unfoldable pub times_from : String → List (String × ℤ) → List ℤ
times_from j [] = []
times_from j ((ip, t) ∷ log) = if str_eq j ip then t ∷ times_from j log else times_from j log

abbrev pub pass : ℤ → String × ℤ → Traffic → Traffic
pass limit (ip, now) (requests, log) =
    let (requests', ok) = rate_limiter limit now ip requests in
    (requests', if ok then log ++ (ip, now) ∷ [] else log)

unfoldable pub pass_all : ℤ → List (String × ℤ) → Traffic → Traffic
pass_all limit [] t = t
pass_all limit (r ∷ rs) t = pass_all limit rs (pass limit r t)

abbrev pub of_address : String → Traffic → Served
of_address j (requests, log) = (times_of (GoMap.lookup j requests), times_from j log)

-- From the given time on, no request is before the one in front of it.
abbrev pub IsForward : ℤ → List (String × ℤ) → Type 0
IsForward last [] = Unit
IsForward last ((ip, now) ∷ rs) = (last ≤ℤ now) × IsForward now rs

abbrev pub last_of : ℤ → List (String × ℤ) → ℤ
last_of last [] = last
last_of last ((ip, now) ∷ rs) = last_of now rs

times_from-append_one :
    (j ip : String) (t : ℤ) (log : List (String × ℤ))
    → times_from j (log ++ (ip, t) ∷ [])
      ≡ (if str_eq j ip then times_from j log ++ t ∷ [] else times_from j log)
unfolding times_from
times_from-append_one j ip t [] = refl
times_from-append_one j ip t ((i, u) ∷ log) = ground (arith, times_from-append_one j ip t log)

of_address-pass :
    (limit now : ℤ) (ip : String) (t : Traffic)
    → of_address ip (pass limit (ip, now) t) ≡ serve limit now (of_address ip t)
of_address-pass limit now ip (requests, log) =
    let times = rate_limiter-same limit now ip requests in
    ground (arith, ap (λ x. x.0) times, ap (λ x. x.1) times, times_from-append_one ip ip now log)

of_address-pass_other :
    (limit now : ℤ) (ip j : String) (t : Traffic)
    → (j ≡ ip → ⊥)
    → of_address j (pass limit (ip, now) t) ≡ of_address j t
of_address-pass_other limit now ip j (requests, log) ne =
    ground
      (arith, ne, rate_limiter-other limit now ip j requests ne, times_from-append_one j ip now log)

pass-IsLimited :
    (limit last now : ℤ) (ip j : String) (t : Traffic)
    → last ≤ℤ now
    → IsLimited limit last (of_address j t)
    → IsLimited limit now (of_address j (pass limit (ip, now) t))
pass-IsLimited limit last now ip j t fwd h = elim (str_dec j ip) [
  | yes e ↦
      subst (λ i. IsLimited limit now (of_address j (pass limit (i, now) t))) e
        (subst (IsLimited limit now) (sym (of_address-pass limit now j t))
          (serve-IsLimited limit last now _ _ fwd h))
  | no ne ↦
      subst (λ s. IsLimited limit now s) (sym (of_address-pass_other limit now ip j t ne))
        (wait-IsLimited limit last now (of_address j t) fwd h)
]

pass_all-IsLimited :
    (limit last : ℤ) (rs : List (String × ℤ)) (j : String) (t : Traffic)
    → IsForward last rs
    → IsLimited limit last (of_address j t)
    → IsLimited limit (last_of last rs) (of_address j (pass_all limit rs t))
unfolding pass_all
pass_all-IsLimited limit last [] j t fwd h = h
pass_all-IsLimited limit last ((ip, now) ∷ rs) j t (le, fwd) h =
    pass_all-IsLimited limit now rs j (pass limit (ip, now) t) fwd
      (pass-IsLimited limit last now ip j t le h)

start-IsLimited : (limit first : ℤ) (j : String) → IsLimited limit first (of_address j ([], []))
unfolding times_from GoMap.lookup later_than
start-IsLimited limit first j = ((λ m h. refl), omega arith)

rate_limiter_test :
    (limit now : ℤ) (ip : String) (t : Traffic)
    → later_than (now -ℤ minute) (of_address ip t).0
      ≡ later_than (now -ℤ minute) (of_address ip t).1
    → (rate_limiter limit now ip t.0).1
      ≡ not (leb_ℤ limit (pos (length (later_than (now -ℤ minute) (times_from ip t.1)))))
unfolding admit
rate_limiter_test limit now ip t same =
    ground (arith, ap (λ x. x.1) (rate_limiter-same limit now ip t.0), same)

-- Let requests come in the order of their times. At the time of the last one, at most the limit of
-- the requests that were admitted came from one address in the minute before; a limit below zero
-- counts as zero. A further request, not before the last one, is admitted exactly when fewer than
-- the limit of its address were admitted in the minute before it.
pub rate_limiter_exact :
    (limit first now : ℤ) (requests : List (String × ℤ)) (address : String)
    → IsForward first requests
    → last_of first requests ≤ℤ now
    → (length (
          later_than
            (last_of first requests -ℤ minute)
            (times_from address (pass_all limit requests ([], [])).1))
        ≤ pos_part limit)
      × ((rate_limiter limit now address (pass_all limit requests ([], [])).0).1
          ≡ not (
              leb_ℤ limit (
                pos (
                  length (
                    later_than
                      (now -ℤ minute)
                      (times_from address (pass_all limit requests ([], [])).1))))))
rate_limiter_exact limit first now requests address fwd le =
    let (same, bound) =
      pass_all-IsLimited limit first requests address ([], []) fwd
        (start-IsLimited limit first address) in
    (
      bound,
      rate_limiter_test limit now address (pass_all limit requests ([], []))
          (same (now -ℤ minute) (sub_mono (last_of first requests) now le)),
    )
