-- ===== src/Cache/Reads.antt =====
-- What can be read from the cache after an operation, and in which order keys are evicted.
use wemixvisor.Base.{
  ℕ, zero, suc, ◌≡◌, ◌≢◌, ◌≤◌, refl, sym, ◌∙◌, String, List, [], ◌∷◌, Option, none, some, true,
  false, ite, str_dec, length, contains, remove, take, take_of_length-le, Distinct, remove_absent,
  contains-remove, length-remove, arith, Bool-cases, Option-cases, inl, inr, if◌then◌else◌,
}
use wemixvisor.Base.Int.{ℤ, pos, pos_part, ltb_ℤ, ◌+ℤ◌}
use wemixvisor.Base.GoMap
use wemixvisor.Base.GoMap.{GoMap, IsMap}
use wemixvisor.Cache.{
  Cache, CacheItem, move_to_front, back, drop_key, delete, get, evict_oldest, set, delete_all,
  expired_keys, cleanup, record_eviction,
}
use wemixvisor.Cache.Invariant.{
  IsValid, contains-back, back-cons, insert-IsConsistent, contains-move_to_front,
}

remove-back :
    (n : ℕ) (k : String) (l : List String)
    → Distinct l
    → back l ≡ some k
    → length l ≡ suc n
    → remove k l ≡ take n l
unfolding back remove contains
remove-back n k [] d h e = cc
remove-back zero k (j ∷ []) d h e = ground arith
remove-back (suc n) k (j ∷ []) d h e = absurd (omega arith)
remove-back zero k (j ∷ i ∷ l) d h e = absurd (omega arith)
remove-back (suc n) k (j ∷ i ∷ l) d h e =
    ground (arith, remove-back n k (i ∷ l) d.1 h, contains-back k (i ∷ l) h)

trim :
    (n : ℕ) (k : String) (l : List String)
    → Distinct (k ∷ l)
    → length l ≡ n
    → (j : String) × (back (k ∷ l) ≡ some j) × (remove j (k ∷ l) ≡ take n (k ∷ l))
trim n k l d e = let (j, h) = back-cons k l in (j, h, remove-back n j (k ∷ l) d h (omega arith))

contains-back_cons :
    (b k : String) (l : List String) → 1 ≤ length l → back (k ∷ l) ≡ some b → contains b l ≡ true
unfolding back
contains-back_cons b k [] h e = absurd (omega arith)
contains-back_cons b k (i ∷ l) h e = contains-back b (i ∷ l) e

-- what `get` returns for an entry of the map at a given time
abbrev unexpired : {V : Type 0} → ℤ → Option (CacheItem V) → Option V
unexpired now none = none
unexpired now (some it) = if ltb_ℤ it.expires_at now then none else some it.value

-- an entry of the map that a cleanup at a given time leaves
abbrev pub keep_unexpired : {V : Type 0} → ℤ → Option (CacheItem V) → Option (CacheItem V)
keep_unexpired now none = none
keep_unexpired now (some it) = if ltb_ℤ it.expires_at now then none else some it

module _ {V : Type 0} where
  value-get :
      (now : ℤ) (k : String) (c : Cache V)
      → (get now k c).1 ≡ unexpired now (GoMap.lookup k c.items)
  unfolding get
  value-get now k c = ground arith

  lru-evict_oldest :
      (j : String) (c : Cache V) → back c.lru ≡ some j → (evict_oldest c).lru ≡ remove j c.lru
  unfolding evict_oldest record_eviction drop_key
  lru-evict_oldest j c h = rw (h, evict_oldest)

module _ {V : Type 0} (now : ℤ) (k : String) (x : V) (size : ℤ) (c : Cache V) where
  -- Storing a key in a valid cache moves it to the front of the recency order, and the order is
  -- then cut to `max_size` keys: what is evicted is always the least recently used key.
  pub lru-set :
      IsValid c → (set now k x size c).lru ≡ take (pos_part c.max_size) (k ∷ remove k c.lru)
  unfolding set move_to_front contains
  lru-set v = elim (Option-cases (GoMap.lookup k c.items)) [
    | inl e ↦
        let absent : contains k c.lru ≡ false = ground (arith, v.same_keys k) in
        elim (Bool-cases (ltb_ℤ c.max_size (pos (length (k ∷ c.lru))))) [
          | inl over ↦
              let full : length c.lru ≡ pos_part c.max_size = ground (arith, v.bounded) in
              let (j, last, cut) = trim (pos_part c.max_size) k c.lru (absent, v.distinct) full in
              rw (e, set, over, remove_absent k c.lru absent) (lru-evict_oldest j _ last ∙ cut)
          | inr room ↦
              rw (e, set, room, remove_absent k c.lru absent)
                (sym (take_of_length-le (pos_part c.max_size) (k ∷ c.lru) (ground arith)))
        ]
    | inr (it, e) ↦
        let here : contains k c.lru ≡ true = ground (arith, v.same_keys k) in
        rw (e, set, here, move_to_front)
          (sym (
            take_of_length-le (pos_part c.max_size) (k ∷ remove k c.lru)
              (omega (arith, length-remove k c.lru here, v.bounded))))
  ]

  -- what `set` leaves under another key
  lookup-set_ne :
      (j : String)
      → IsValid c
      → k ≢ j
      → GoMap.lookup j (set now k x size c).items
        ≡ (if contains j (set now k x size c).lru then GoMap.lookup j c.items else none)
  unfolding set contains evict_oldest record_eviction drop_key
  lookup-set_ne j v ne = elim (Option-cases (GoMap.lookup k c.items)) [
    | inl e ↦
        let it : CacheItem V = record {
          key = k;
          value = x;
          expires_at = now +ℤ c.ttl;
          size = size;
        } in
        let fresh = insert-IsConsistent k it c v.consistent e in
        elim (Bool-cases (ltb_ℤ c.max_size (pos (length (k ∷ c.lru))))) [
          | inl over ↦
              let (b, last) = back-cons k c.lru in
              rw (e, set, over, last, evict_oldest)
                (ground (
                  arith,
                  GoMap.lookup-delete j b (GoMap.insert k it c.items),
                  GoMap.lookup-insert j k it c.items,
                  contains-remove j b (k ∷ c.lru) fresh.distinct,
                  v.same_keys j,
                ))
          | inr room ↦
              rw (e, set, room) (ground (arith, GoMap.lookup-insert j k it c.items, v.same_keys j))
        ]
    | inr (it, e) ↦
        rw (e, set)
          (ground (
            arith,
            GoMap.lookup-insert j k
                (record it { value = x; expires_at = now +ℤ c.ttl; size = size }) c.items,
            contains-move_to_front j k c.lru v.distinct,
            v.same_keys j,
          ))
  ]

  lookup-set_self :
      IsValid c
      → 1 ≤ pos_part c.max_size
      → (it : CacheItem V) × (GoMap.lookup k (set now k x size c).items ≡ some it)
        × (it.value ≡ x)
        × (it.expires_at ≡ now +ℤ c.ttl)
  unfolding set contains evict_oldest record_eviction drop_key back
  lookup-set_self v room = elim (Option-cases (GoMap.lookup k c.items)) [
    | inl e ↦
        let it : CacheItem V = record {
          key = k;
          value = x;
          expires_at = now +ℤ c.ttl;
          size = size;
        } in
        elim (Bool-cases (ltb_ℤ c.max_size (pos (length (k ∷ c.lru))))) [
          | inl over ↦
              let (b, last) = back-cons k c.lru in
              let other = contains-back_cons b k c.lru (ground arith) last in
              (
                it,
                rw (e, set, over, last, evict_oldest)
                    (ground (
                      arith,
                      GoMap.lookup-delete k b (GoMap.insert k it c.items),
                      GoMap.lookup-insert k k it c.items,
                      v.same_keys k,
                    )),
                refl,
                refl,
              )
          | inr small ↦ (
            it,
            rw (e, set, small) (ground (arith, GoMap.lookup-insert k k it c.items)),
            refl,
            refl,
          )
        ]
    | inr (it, e) ↦
        let new : CacheItem V = record it { value = x; expires_at = now +ℤ c.ttl; size = size } in
        (new, rw (e, set) (ground (arith, GoMap.lookup-insert k k new c.items)), refl, refl)
  ]

  -- Right after a `set` on a valid cache with room for one key at least, a `get` of the key returns
  -- the value until the time to live has passed, and then nothing.
  pub get-set_self :
      (later : ℤ)
      → IsValid c
      → 1 ≤ pos_part c.max_size
      → (get later k (set now k x size c)).1 ≡ (if ltb_ℤ (now +ℤ c.ttl) later then none else some x)
  get-set_self later v room =
      let (it, found, value, expires) = lookup-set_self v room in
      rw (value-get later k (set now k x size c), found, expires, value)

  -- Right after a `set` on a valid cache, a `get` of another key returns what it returned before,
  -- if the key is among the `max_size` most recently used ones, and nothing if it is not.
  pub get-set_ne :
      (later : ℤ) (j : String)
      → IsValid c
      → k ≢ j
      → (get later j (set now k x size c)).1 ≡ (
          if contains j (take (pos_part c.max_size) (k ∷ remove k c.lru))
          then (get later j c).1
          else none)
  get-set_ne later j v ne =
      rw
        (
          value-get later j (set now k x size c),
          value-get later j c,
          lookup-set_ne j v ne,
          lru-set v,
        )
        (ground arith)

-- Deleting a list of keys, and the keys that `cleanup` finds.
module _ {V : Type 0} where
  lookup-delete :
      (j k : String) (c : Cache V)
      → GoMap.lookup j (delete k c).items ≡ ite (str_dec k j) none (GoMap.lookup j c.items)
  unfolding delete drop_key
  lookup-delete j k c = ground (arith, GoMap.lookup-delete j k c.items)

  lookup-delete_all :
      (j : String) (ks : List String) (c : Cache V)
      → GoMap.lookup j (delete_all ks c).items
        ≡ (if contains j ks then none else GoMap.lookup j c.items)
  unfolding delete_all contains
  lookup-delete_all j [] c = refl
  lookup-delete_all j (k ∷ ks) c =
      ground (arith, lookup-delete_all j ks (delete k c), lookup-delete j k c)

  expired_keys_absent :
      (now : ℤ) (j : String) (m : GoMap (CacheItem V))
      → GoMap.lookup j m ≡ none
      → contains j (expired_keys now m) ≡ false
  unfolding expired_keys contains GoMap.lookup
  expired_keys_absent now j [] h = refl
  expired_keys_absent now j ((k, it) ∷ m) h = ground (arith, expired_keys_absent now j m)

  contains-expired_keys :
      (now : ℤ) (j : String) (m : GoMap (CacheItem V)) (it : CacheItem V)
      → IsMap m
      → GoMap.lookup j m ≡ some it
      → contains j (expired_keys now m) ≡ ltb_ℤ it.expires_at now
  unfolding expired_keys contains GoMap.lookup
  contains-expired_keys now j [] it d h = cc
  contains-expired_keys now j ((k, jt) ∷ m) it d h = ground (
    arith,
    contains-expired_keys now j m it d.1,
    GoMap.contains-keys k m,
    expired_keys_absent now j m,
  )

  -- On a valid cache a cleanup removes the entries that have expired, and leaves every other entry
  -- as it was.
  pub lookup-cleanup :
      (now : ℤ) (j : String) (c : Cache V)
      → IsValid c
      → GoMap.lookup j (cleanup now c).items ≡ keep_unexpired now (GoMap.lookup j c.items)
  unfolding cleanup
  lookup-cleanup now j c v = elim (Option-cases (GoMap.lookup j c.items)) [
    | inl e ↦
        rw
          (lookup-delete_all j (expired_keys now c.items) c, expired_keys_absent now j c.items e, e)
    | inr (it, e) ↦ rw (
      lookup-delete_all j (expired_keys now c.items) c,
      contains-expired_keys now j c.items it v.is_map e,
      e,
    )
  ]
