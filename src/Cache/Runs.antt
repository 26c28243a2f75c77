-- ===== src/Cache/Runs.antt =====
-- Every sequence of calls on a new cache: the invariant and the counters.
use wemixvisor.Base.{
  ℕ, suc, ◌+◌, ◌≡◌, ◌≤◌, refl, String, List, [], ◌∷◌, length, arith, remove, length-remove-le,
  length-take-le,
}
use wemixvisor.Base.Int.{ℤ, pos_part}
use wemixvisor.Cache.{
  Cache, new_cache, drop_key, delete, clear, get, evict_oldest, set, delete_all, expired_keys,
  cleanup, get_stats, optimize, record_hit, record_miss, record_eviction,
}
use wemixvisor.Cache.Invariant.{
  IsConsistent, IsValid, new_cache-IsConsistent, get-IsConsistent, set-IsConsistent,
  delete-IsConsistent, clear-IsConsistent, delete_all-IsConsistent, length-move_to_front,
}
use wemixvisor.Cache.Reads.{lru-set}

pub data Call (V : Type 0) : Type 0 where
  read : ℤ → String → Call V
  store : ℤ → String → V → ℤ → Call V
  drop : String → Call V
  wipe : Call V
  tidy : ℤ → Call V

module _ {V : Type 0} where
  unfoldable pub call : Call V → Cache V → Cache V
  call (read now k) c = (get now k c).0
  call (store now k x size) c = set now k x size c
  call (drop k) c = delete k c
  call wipe c = clear c
  call (tidy now) c = optimize now c

  unfoldable pub run : List (Call V) → Cache V → Cache V
  unfolding call
  run [] c = c
  run (o ∷ os) c = run os (call o c)

  -- What a removal or a read leaves alone.
  record Shrinks (c c' : Cache V) : Type 0 where
    same_cap : c'.max_size ≡ c.max_size
    shorter : length c'.lru ≤ length c.lru

  delete-Shrinks : (k : String) (c : Cache V) → Shrinks c (delete k c)
  unfolding delete drop_key
  delete-Shrinks k c = ground (arith, length-remove-le k c.lru)

  get-Shrinks : (now : ℤ) (k : String) (c : Cache V) → Shrinks c (get now k c).0
  unfolding get
  get-Shrinks now k c = ground (arith, delete-Shrinks k c, length-move_to_front k c.lru)

  delete_all-Shrinks : (ks : List String) (c : Cache V) → Shrinks c (delete_all ks c)
  unfolding delete_all
  delete_all-Shrinks [] c = ground arith
  delete_all-Shrinks (k ∷ ks) c =
      ground (arith, delete-Shrinks k c, delete_all-Shrinks ks (delete k c))

  max_size-set :
      (now : ℤ) (k : String) (x : V) (size : ℤ) (c : Cache V)
      → (set now k x size c).max_size ≡ c.max_size
  unfolding set evict_oldest record_eviction drop_key
  max_size-set now k x size c = ground arith

  set-IsValid :
      (now : ℤ) (k : String) (x : V) (size : ℤ) (c : Cache V)
      → IsValid c
      → IsValid (set now k x size c)
  set-IsValid now k x size c v = record {
    consistent = set-IsConsistent now k x size c v.consistent;
    bounded =
        rw (lru-set now k x size c v, max_size-set now k x size c)
          (length-take-le (pos_part c.max_size) (k ∷ remove k c.lru));
  }

  Shrinks-IsValid : (c c' : Cache V) → Shrinks c c' → IsConsistent c' → IsValid c → IsValid c'
  Shrinks-IsValid c c' s h v = record { consistent = h; bounded = ground (arith, v.bounded) }

  optimize-IsConsistent : (now : ℤ) (c : Cache V) → IsConsistent c → IsConsistent (optimize now c)
  unfolding optimize cleanup get_stats
  optimize-IsConsistent now c v =
      let h = delete_all-IsConsistent (expired_keys now c.items) c v in
      record {
        distinct = h.distinct;
        is_map = h.is_map;
        same_keys = h.same_keys;
        same_length = h.same_length;
      }

  optimize-Shrinks : (now : ℤ) (c : Cache V) → Shrinks c (optimize now c)
  unfolding optimize cleanup get_stats
  optimize-Shrinks now c = ground (arith, delete_all-Shrinks (expired_keys now c.items) c)

  -- Every call keeps the invariant of a valid cache.
  pub call-IsValid : (o : Call V) (c : Cache V) → IsValid c → IsValid (call o c)
  unfolding call
  call-IsValid (read now k) c v =
      Shrinks-IsValid c (get now k c).0 (get-Shrinks now k c)
        (get-IsConsistent now k c v.consistent) v
  call-IsValid (store now k x size) c v = set-IsValid now k x size c v
  call-IsValid (drop k) c v =
      Shrinks-IsValid c (delete k c) (delete-Shrinks k c) (delete-IsConsistent k c v.consistent) v
  call-IsValid wipe c v = record {
    consistent = clear-IsConsistent c v.consistent;
    bounded = unfold clear in omega arith;
  }
  call-IsValid (tidy now) c v =
      Shrinks-IsValid c (optimize now c) (optimize-Shrinks now c)
        (optimize-IsConsistent now c v.consistent) v

  run-IsValid_from : (os : List (Call V)) (c : Cache V) → IsValid c → IsValid (run os c)
  unfolding run
  run-IsValid_from [] c v = v
  run-IsValid_from (o ∷ os) c v = run-IsValid_from os (call o c) (call-IsValid o c v)

  -- After any calls on a new cache the map and the recency list hold the same keys, each once, and
  -- no more than `max_size` of them (none, if `max_size` is negative).
  pub run-IsValid :
      (os : List (Call V)) (max_size ttl : ℤ) → IsValid (run os (new_cache max_size ttl))
  unfolding new_cache
  run-IsValid os max_size ttl =
      run-IsValid_from os (new_cache max_size ttl)
        (record { consistent = new_cache-IsConsistent max_size ttl; bounded = omega arith })

  abbrev pub reads : List (Call V) → ℕ
  reads [] = 0
  reads (read now k ∷ os) = suc (reads os)
  reads (_ ∷ os) = reads os

  unfoldable pub served : Cache V → ℕ
  served c = c.stats.hits + c.stats.misses

  served-delete : (k : String) (c : Cache V) → (delete k c).stats ≡ c.stats
  unfolding delete drop_key
  served-delete k c = ground arith

  served-delete_all : (ks : List String) (c : Cache V) → (delete_all ks c).stats ≡ c.stats
  unfolding delete_all
  served-delete_all [] c = refl
  served-delete_all (k ∷ ks) c =
      ground (arith, served-delete k c, served-delete_all ks (delete k c))

  served-call :
      (o : Call V) (os : List (Call V)) (c : Cache V)
      → served (call o c) + reads os ≡ served c + reads (o ∷ os)
  unfolding served call get set record_hit record_miss evict_oldest record_eviction drop_key clear
      optimize get_stats cleanup
  served-call (read now k) os c = ground (arith, served-delete k c)
  served-call (store now k x size) os c = ground arith
  served-call (drop k) os c = ground (arith, served-delete k c)
  served-call wipe os c = ground arith
  served-call (tidy now) os c = ground (arith, served-delete_all (expired_keys now c.items) c)

  -- Every read is counted once, as a hit or as a miss, and nothing else is counted.
  pub served-run : (os : List (Call V)) (c : Cache V) → served (run os c) ≡ served c + reads os
  unfolding run
  served-run [] c = omega arith
  served-run (o ∷ os) c = omega (arith, served-call o os c, served-run os (call o c))
