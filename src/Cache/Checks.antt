-- ===== src/Cache/Checks.antt =====
-- Tests of the cache, and its theorems at concrete inputs.
use wemixvisor.Base.{
  ℕ, ◌≡◌, refl, [], ◌∷◌, List, some, none, true, arith, str_dec, contains, remove, if◌then◌else◌,
}
use wemixvisor.Base.Int.{pos, ltb_ℤ, ◌+ℤ◌}
use wemixvisor.Base.GoMap
use wemixvisor.Cache.{
  Cache, new_cache, move_to_front, drop_key, delete, clear, get, evict_oldest, set, delete_all,
  back, expired_keys, cleanup, get_stats, optimize, record_hit, record_miss, record_eviction, stop,
}
use wemixvisor.Cache.Invariant.{IsValid}
use wemixvisor.Cache.Reads.{get-set_self}
use wemixvisor.Cache.Runs.{Call, read, store, call, run, served, run-IsValid}

program : Unit {0}
unfolding get set delete clear optimize get_stats cleanup delete_all expired_keys evict_oldest back
    record_hit record_miss record_eviction drop_key move_to_front new_cache run call served stop
    str_dec contains remove GoMap.lookup GoMap.insert GoMap.delete
program = tt

abbrev calls : List (Call ℕ)
calls =
    store (pos 0) "a" 1 (pos 8)
    ∷ store (pos 1) "b" 2 (pos 8)
    ∷ read (pos 2) "a"
    ∷ store (pos 3) "c" 3 (pos 8)
    ∷ read (pos 4) "b"
    ∷ []

abbrev filled : Cache ℕ
filled = run calls (new_cache (pos 2) (pos 10))

-- reading `a` makes `b` the oldest key, which the third store evicts
filled-lru : filled.lru ≡ "c" ∷ "a" ∷ []
unfolding program
filled-lru = refl

filled_stats : (filled.stats.hits ≡ 1) × (filled.stats.misses ≡ 1) × (filled.stats.evictions ≡ 1)
unfolding program
filled_stats = (refl, refl, refl)

expired_read : (get (pos 11) "a" filled).1 ≡ none
unfolding program
expired_read = refl

stop_twice : stop (record filled { stopped = true }) ≡ none
unfolding program
stop_twice = refl

run-IsValid_example : IsValid filled
run-IsValid_example = run-IsValid calls (pos 2) (pos 10)

get-set_self_example :
    (get (pos 9) "d" (set (pos 5) "d" 4 (pos 8) filled)).1
    ≡ (if ltb_ℤ (pos 5 +ℤ filled.ttl) (pos 9) then none else some 4)
unfolding program
get-set_self_example =
    get-set_self (pos 5) "d" 4 (pos 8) filled (pos 9) run-IsValid_example (omega arith)
