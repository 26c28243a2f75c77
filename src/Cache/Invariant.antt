-- ===== src/Cache/Invariant.antt =====
-- The invariant of the cache, kept by every operation.
use wemixvisor.Base.{
  ◌≡◌, ◌≤◌, refl, String, List, [], ◌∷◌, none, some, true, length, contains, Option, Distinct,
  contains-remove, remove-Distinct, length-remove, is_some, arith, Bool-cases, Option-cases, inl,
  inr,
}
use wemixvisor.Base.Int.{ℤ, ◌+ℤ◌, pos, pos_part, ltb_ℤ}
use wemixvisor.Base.GoMap
use wemixvisor.Base.GoMap.{IsMap}
use wemixvisor.Cache.{
  Cache, CacheItem, new_cache, move_to_front, back, drop_key, delete, clear, get, evict_oldest, set,
  delete_all, record_hit, record_miss, record_eviction,
}

-- The map and the list hold the same keys, each once.
pub record IsConsistent {V : Type 0} (c : Cache V) : Type 0 where
  pub distinct : Distinct c.lru
  pub is_map : IsMap c.items
  pub same_keys : (k : String) → contains k c.lru ≡ is_some (GoMap.lookup k c.items)
  pub same_length : length c.items ≡ length c.lru

-- Besides, there are never more than `max_size` of them.
pub record IsValid {V : Type 0} (c : Cache V) : Type 0 where
  pub consistent : IsConsistent c
  pub open consistent use *
  pub bounded : length c.lru ≤ pos_part c.max_size

pub contains-move_to_front :
    (j k : String) (l : List String) → Distinct l → contains j (move_to_front k l) ≡ contains j l
unfolding move_to_front contains
contains-move_to_front j k l d = ground (arith, contains-remove j k l d)

pub length-move_to_front : (k : String) (l : List String) → length (move_to_front k l) ≡ length l
unfolding move_to_front
length-move_to_front k l = ground (arith, length-remove k l)

move_to_front-Distinct : (k : String) (l : List String) → Distinct l → Distinct (move_to_front k l)
unfolding move_to_front contains
move_to_front-Distinct k l d = ground (arith, contains-remove k k l d, remove-Distinct k l d)

pub is_some-true {ℓ} : {A : Type ℓ} (o : Option A) → is_some o ≡ true → (a : A) × (o ≡ some a)
is_some-true none h = cc
is_some-true (some a) h = (a, refl)

pub contains-back : (k : String) (l : List String) → back l ≡ some k → contains k l ≡ true
unfolding back contains
contains-back k [] h = cc
contains-back k (j ∷ []) h = ground arith
contains-back k (j ∷ i ∷ l) h = ground (arith, contains-back k (i ∷ l) h)

pub back-cons : (k : String) (l : List String) → (j : String) × (back (k ∷ l) ≡ some j)
unfolding back
back-cons k [] = (k, refl)
back-cons k (i ∷ l) = back-cons i l

module _ {V : Type 0} where
  pub new_cache-IsConsistent : (max_size ttl : ℤ) → IsConsistent (new_cache {V = V} max_size ttl)
  unfolding new_cache contains GoMap.lookup
  new_cache-IsConsistent max_size ttl = record {
    distinct = tt;
    is_map = tt;
    same_keys = λ k. refl;
    same_length = refl;
  }

  -- what every removal of a stored key keeps
  drop_key-IsConsistent :
      (k : String) {it : CacheItem V} (c : Cache V)
      → IsConsistent c
      → GoMap.lookup k c.items ≡ some it
      → IsConsistent (drop_key k c)
  unfolding drop_key
  drop_key-IsConsistent k {it} c v h = record {
    distinct = remove-Distinct k c.lru v.distinct;
    is_map = GoMap.delete-IsMap k c.items v.is_map;
    same_keys = λ j. ground (
      arith,
      contains-remove j k c.lru v.distinct,
      GoMap.lookup-delete j k c.items,
      v.same_keys j,
    );
    same_length =
        ground (
          arith,
          GoMap.length-delete k it c.items v.is_map h,
          length-remove k c.lru,
          v.same_keys k,
        );
  }

  pub delete-IsConsistent : (k : String) (c : Cache V) → IsConsistent c → IsConsistent (delete k c)
  unfolding delete
  delete-IsConsistent k c v = elim (Option-cases (GoMap.lookup k c.items)) [
    | inl e ↦ rw (e, delete) v
    | inr (it, e) ↦ rw (e, delete) (drop_key-IsConsistent k c v e)
  ]

  pub clear-IsConsistent : (c : Cache V) → IsConsistent c → IsConsistent (clear c)
  unfolding clear contains GoMap.lookup
  clear-IsConsistent c v = record {
    distinct = tt;
    is_map = tt;
    same_keys = λ k. refl;
    same_length = refl;
  }

  touch-IsConsistent :
      (k : String) (c : Cache V)
      → IsConsistent c
      → IsConsistent (record c { lru = move_to_front k c.lru })
  touch-IsConsistent k c v = record {
    distinct = move_to_front-Distinct k c.lru v.distinct;
    is_map = v.is_map;
    same_keys = λ j. ground (arith, contains-move_to_front j k c.lru v.distinct, v.same_keys j);
    same_length = ground (arith, length-move_to_front k c.lru);
  }

  record_hit-IsConsistent : (c : Cache V) → IsConsistent c → IsConsistent (record_hit c)
  unfolding record_hit
  record_hit-IsConsistent c v = assumption

  record_miss-IsConsistent : (c : Cache V) → IsConsistent c → IsConsistent (record_miss c)
  unfolding record_miss
  record_miss-IsConsistent c v = assumption

  record_eviction-IsConsistent : (c : Cache V) → IsConsistent c → IsConsistent (record_eviction c)
  unfolding record_eviction
  record_eviction-IsConsistent c v = assumption

  pub get-IsConsistent :
      (now : ℤ) (k : String) (c : Cache V) → IsConsistent c → IsConsistent (get now k c).0
  unfolding get
  get-IsConsistent now k c v = elim (Option-cases (GoMap.lookup k c.items)) [
    | inl e ↦ rw (e, get) (record_miss-IsConsistent c v)
    | inr (it, e) ↦ elim (Bool-cases (ltb_ℤ it.expires_at now)) [
      | inl late ↦
          rw (e, get, late) (record_miss-IsConsistent (delete k c) (delete-IsConsistent k c v))
      | inr fresh ↦
          rw (e, get, fresh)
            (record_hit-IsConsistent (record c { lru = move_to_front k c.lru })
              (touch-IsConsistent k c v))
    ]
  ]

  update-IsConsistent :
      (k : String) (it new : CacheItem V) (c : Cache V)
      → IsConsistent c
      → GoMap.lookup k c.items ≡ some it
      → IsConsistent (record c { items = GoMap.insert k new c.items; lru = move_to_front k c.lru })
  update-IsConsistent k it new c v e = record {
    distinct = move_to_front-Distinct k c.lru v.distinct;
    is_map = GoMap.insert-IsMap k new c.items v.is_map;
    same_keys = λ j. ground (
      arith,
      contains-move_to_front j k c.lru v.distinct,
      GoMap.lookup-insert j k new c.items,
      v.same_keys j,
    );
    same_length =
        ground (arith, length-move_to_front k c.lru, GoMap.length-insert_old k new it c.items e);
  }

  evict_oldest-IsConsistent : (c : Cache V) → IsConsistent c → IsConsistent (evict_oldest c)
  unfolding evict_oldest
  evict_oldest-IsConsistent c v = elim (Option-cases (back c.lru)) [
    | inl e ↦ rw (e, evict_oldest) v
    | inr (k, e) ↦
        let (it, stored) =
          is_some-true (GoMap.lookup k c.items)
            (ground (arith, contains-back k c.lru e, v.same_keys k)) in
        rw (e, evict_oldest)
          (record_eviction-IsConsistent (drop_key k c) (drop_key-IsConsistent k c v stored))
  ]

  pub insert-IsConsistent :
      (k : String) (it : CacheItem V) (c : Cache V)
      → IsConsistent c
      → GoMap.lookup k c.items ≡ none
      → IsConsistent (record c { lru = k ∷ c.lru; items = GoMap.insert k it c.items })
  unfolding contains
  insert-IsConsistent k it c v e = record {
    distinct = (ground (arith, v.same_keys k), v.distinct);
    is_map = GoMap.insert-IsMap k it c.items v.is_map;
    same_keys = λ j. ground (arith, GoMap.lookup-insert j k it c.items, v.same_keys j);
    same_length = ground (arith, GoMap.length-insert_new k it c.items e, v.same_length);
  }

  pub set-IsConsistent :
      (now : ℤ) (k : String) (x : V) (size : ℤ) (c : Cache V)
      → IsConsistent c
      → IsConsistent (set now k x size c)
  unfolding set
  set-IsConsistent now k x size c v = elim (Option-cases (GoMap.lookup k c.items)) [
    | inl e ↦
        let it : CacheItem V = record {
          key = k;
          value = x;
          expires_at = now +ℤ c.ttl;
          size = size;
        } in
        let c' : Cache V = record c { lru = k ∷ c.lru; items = GoMap.insert k it c.items } in
        let v' = insert-IsConsistent k it c v e in
        elim (Bool-cases (ltb_ℤ c.max_size (pos (length c'.lru)))) [
          | inl over ↦ rw (e, set, over) (evict_oldest-IsConsistent c' v')
          | inr room ↦ rw (e, set, room) v'
        ]
    | inr (it, e) ↦
        rw (e, set)
          (update-IsConsistent k it
            (record it { value = x; expires_at = now +ℤ c.ttl; size = size }) c v e)
  ]

  pub delete_all-IsConsistent :
      (ks : List String) (c : Cache V) → IsConsistent c → IsConsistent (delete_all ks c)
  unfolding delete_all
  delete_all-IsConsistent [] c v = v
  delete_all-IsConsistent (k ∷ ks) c v =
      delete_all-IsConsistent ks (delete k c) (delete-IsConsistent k c v)
