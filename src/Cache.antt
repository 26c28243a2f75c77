-- ===== src/Cache.antt =====
-- The LRU cache with expiry of internal/performance/cache.go. The map `items` and the list `lru`
-- (front first) are two views of the same keys; an element of `lru` is named by its key. Times and
-- durations are integers (nanoseconds); `time.Now()` is the argument `now`. The hit rate, a float
-- that only logging reads, and the clock that calls `cleanup` are left out.
use wemixvisor.Base.{
  ℕ, ◌+◌, ◌≡◌, String, List, [], ◌∷◌, Option, none, some, Bool, true, false, length, contains,
  remove, if◌then◌else◌,
}
use wemixvisor.Base.Int.{ℤ, pos, ◌+ℤ◌, ltb_ℤ}
use wemixvisor.Base.GoMap
use wemixvisor.Base.GoMap.{GoMap}
pub mod Invariant
pub mod Reads
pub mod Runs
mod Checks

pub record CacheItem (V : Type 0) : Type 0 where
  pub key : String
  pub value : V
  pub expires_at : ℤ
  pub size : ℤ

pub record CacheStats : Type 0 where
  pub hits : ℕ
  pub misses : ℕ
  pub evictions : ℕ
  pub size : ℕ

pub record Cache (V : Type 0) : Type 0 where
  pub max_size : ℤ
  pub ttl : ℤ
  pub items : GoMap (CacheItem V)
  pub lru : List String
  pub stats : CacheStats
  pub stopped : Bool

-- `list.List.MoveToFront`: an element that is no longer in the list stays out.
unfoldable pub move_to_front : String → List String → List String
move_to_front k l = if contains k l then k ∷ remove k l else l

-- `list.List.Back`
unfoldable pub back : List String → Option String
back [] = none
back (k ∷ []) = some k
back (k ∷ j ∷ l) = back (j ∷ l)

module _ {V : Type 0} where
  unfoldable pub new_cache : ℤ → ℤ → Cache V
  new_cache max_size ttl = record {
    max_size = max_size;
    ttl = ttl;
    items = [];
    lru = [];
    stats = record { hits = 0; misses = 0; evictions = 0; size = 0 };
    stopped = false;
  }

  unfoldable pub record_hit : Cache V → Cache V
  record_hit c = record c { stats = record (c.stats) { hits = c.stats.hits + 1 } }

  unfoldable pub record_miss : Cache V → Cache V
  record_miss c = record c { stats = record (c.stats) { misses = c.stats.misses + 1 } }

  unfoldable pub record_eviction : Cache V → Cache V
  record_eviction c = record c { stats = record (c.stats) { evictions = c.stats.evictions + 1 } }

  -- `c.lru.Remove(element)` and `delete(c.items, key)`
  unfoldable pub drop_key : String → Cache V → Cache V
  drop_key k c = record c { lru = remove k c.lru; items = GoMap.delete k c.items }

  unfoldable pub delete : String → Cache V → Cache V
  delete k c = elim (GoMap.lookup k c.items) [ none ↦ c | some it ↦ drop_key k c ]

  unfoldable pub clear : Cache V → Cache V
  clear c = record c { items = []; lru = [] }

  -- Closing `stopCleaner` a second time panics.
  unfoldable pub stop : Cache V → Option (Cache V)
  unfolding clear
  stop c = if c.stopped then none else some (clear (record c { stopped = true }))

  unfoldable pub get : ℤ → String → Cache V → Cache V × Option V
  unfolding record_miss record_hit
  get now k c = elim (GoMap.lookup k c.items) [
    | none ↦ (record_miss c, none)
    | some it ↦
        if ltb_ℤ it.expires_at now
        then (record_miss (delete k c), none)
        else (record_hit (record c { lru = move_to_front k c.lru }), some it.value)
  ]

  unfoldable pub evict_oldest : Cache V → Cache V
  unfolding record_eviction
  evict_oldest c = elim (back c.lru) [ none ↦ c | some k ↦ record_eviction (drop_key k c) ]

  unfoldable pub set : ℤ → String → V → ℤ → Cache V → Cache V
  set now k v size c = elim (GoMap.lookup k c.items) [
    | none ↦
        let c' = record c {
          lru = k ∷ c.lru;
          items =
              GoMap.insert k (record { key = k; value = v; expires_at = now +ℤ c.ttl; size = size })
                c.items;
        } in
        if ltb_ℤ c.max_size (pos (length c'.lru)) then evict_oldest c' else c'
    | some it ↦ record c {
      items =
          GoMap.insert k (record it { value = v; expires_at = now +ℤ c.ttl; size = size }) c.items;
      lru = move_to_front k c.lru;
    }
  ]

  unfoldable pub expired_keys : ℤ → GoMap (CacheItem V) → List String
  expired_keys now [] = []
  expired_keys now ((k, it) ∷ m) =
      let rest = expired_keys now m in if ltb_ℤ it.expires_at now then k ∷ rest else rest

  -- the second loop of `cleanup`
  unfoldable pub delete_all : List String → Cache V → Cache V
  delete_all [] c = c
  delete_all (k ∷ ks) c = delete_all ks (delete k c)

  unfoldable pub cleanup : ℤ → Cache V → Cache V
  cleanup now c = delete_all (expired_keys now c.items) c

  unfoldable pub get_stats : Cache V → Cache V × CacheStats
  get_stats c = let s = record (c.stats) { size = length c.items } in (record c { stats = s }, s)

  -- `Optimize` cleans up and reads the statistics for a log line.
  unfoldable pub optimize : ℤ → Cache V → Cache V
  optimize now c = (get_stats (cleanup now c)).0
