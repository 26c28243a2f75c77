-- ===== src/Governance/Notifier/Newest.antt =====
-- The newest notifications of a map, and the map that is made of them.
use wemixvisor.Base.{
  ℕ, ◌+◌, ◌-◌, ◌≤◌, ◌≡◌, ◌⊎◌, inl, inr, false, List, [], ◌∷◌, All, All-In, In, length, take, arith,
  Bool-cases, Option-cases, if_both, ◌==◌,
}
use wemixvisor.Base.GoMap
use wemixvisor.Base.GoMap.{GoMap, IsMap}
use wemixvisor.Base.Sort.{sort, sort-In, sort-IsSorted, IsSorted}
use wemixvisor.Governance.Notifier.{Notification, newer, values, newest, store_all}

pub values-All :
    (P : Notification → Type 0) (m : GoMap Notification) → GoMap.AllValues P m → All P (values m)
values-All P [] h = tt
values-All P ((id, x) ∷ m) h = (h.0, values-All P m h.1)

pub take-All :
    (P : Notification → Type 0) (n : ℕ) (xs : List Notification) → All P xs → All P (take n xs)
take-All P n [] h = tt
take-All P n (x ∷ xs) h = if_both (All P) (n == 0) tt (h.0, take-All P (n - 1) xs h.1)

pub store_all-AllValues :
    (P : Notification → Type 0) (xs : List Notification) (m : GoMap Notification)
    → All P xs
    → GoMap.AllValues P m
    → GoMap.AllValues P (store_all xs m)
unfolding store_all
store_all-AllValues P [] m h k = k
store_all-AllValues P (x ∷ xs) m h k =
    store_all-AllValues P xs (GoMap.insert x.id x m) h.1 (GoMap.insert-AllValues P x.id x m h.0 k)

pub length-insert-le :
    (x : Notification) (m : GoMap Notification) → length (GoMap.insert x.id x m) ≤ length m + 1
length-insert-le x m = elim (Option-cases (GoMap.lookup x.id m)) [
  | inl e ↦ omega (arith, GoMap.length-insert_new x.id x m e)
  | inr (y, e) ↦ omega (arith, GoMap.length-insert_old x.id x y m e)
]

pub length-store_all-le :
    (xs : List Notification) (m : GoMap Notification)
    → length (store_all xs m) ≤ length m + length xs
unfolding store_all
length-store_all-le [] m = omega arith
length-store_all-le (x ∷ xs) m =
    omega (arith, length-store_all-le xs (GoMap.insert x.id x m), length-insert-le x m)

-- The notification is among the first n, or none of these is older than it.
pub take-newest :
    (n : ℕ) (xs : List Notification) (a : Notification)
    → IsSorted newer xs
    → In a xs
    → In a (take n xs) ⊎ All (λ b. newer a b ≡ false) (take n xs)
take-newest n [] a s m = absurd m
take-newest n (x ∷ xs) a (s, ss) m = elim (Bool-cases (n == 0)) [
  | inl e ↦ rw e (inr tt)
  | inr e ↦ rw e (elim m [
    | inl here ↦ inl (inl here)
    | inr later ↦ elim (take-newest (n - 1) xs a ss later) [
      | inl k ↦ inl (inr k)
      | inr all ↦ inr (All-In (λ y. newer y x ≡ false) a xs s later, all)
    ]
  ])
]

pub newest-first :
    (n : ℕ) (m : GoMap Notification) (a : Notification)
    → In a (values m)
    → In a (newest n m) ⊎ All (λ b. newer a b ≡ false) (newest n m)
unfolding newest
newest-first n m a h =
    take-newest n (sort newer (values m)) a
      (sort-IsSorted newer (λ a b k. ground arith) (λ a b c k l. ground arith) (values m))
      (sort-In newer a (values m) h)
