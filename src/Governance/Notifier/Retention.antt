-- ===== src/Governance/Notifier/Retention.antt =====
-- Which notifications a cleanup keeps.
use wemixvisor.Base.{
  none, some, refl, sym, String, contains, ℕ, ◌-◌, ◌≤◌, ◌≡◌, ◌⊎◌, inl, inr, false, List, [], ◌∷◌,
  All, In, length, length-take-le, take, arith, Bool-cases, if_both, ltb,
}
use wemixvisor.Base.Int.{ℤ, ◌-ℤ◌, ltb_ℤ}
use wemixvisor.Base.GoMap
use wemixvisor.Base.GoMap.{GoMap, IsMap}
use wemixvisor.Base.Sort.{sort, length-sort, sort-All}
use wemixvisor.Governance.Notifier.Ids.{
  IsKeyed, Distinct-ids-newest, lookup-store_all, length-store_all, lookup-values,
}
use wemixvisor.Governance.Notifier.{
  Notification, Notifier, newer, values, drop_old, newest, store_all, cleanup_old,
}
use wemixvisor.Governance.Notifier.Newest.{
  values-All, take-All, store_all-AllValues, length-store_all-le, newest-first,
}

-- not older than the cutoff
abbrev pub IsRecent : ℤ → Notification → Type 0
IsRecent cutoff x = ltb_ℤ x.timestamp cutoff ≡ false

-- recent, and in the list
abbrev IsStored : ℤ → List Notification → Notification → Type 0
IsStored cutoff all b = IsRecent cutoff b × In b all

drop_old-IsStored :
    (cutoff : ℤ) (all : List Notification) (m : GoMap Notification)
    → ((b : Notification) → In b (values m) → In b all)
    → GoMap.AllValues (IsStored cutoff all) (drop_old cutoff m)
unfolding drop_old
drop_old-IsStored cutoff all [] h = tt
drop_old-IsStored cutoff all ((id, x) ∷ m) h =
    let rest = drop_old-IsStored cutoff all m (λ b i. h b (inr i)) in
    elim (Bool-cases (ltb_ℤ x.timestamp cutoff)) [
      | inl e ↦ rw (e, drop_old) rest
      | inr e ↦ rw (e, drop_old) ((e, h x (inl refl)), rest)
    ]

-- the recent notifications, and the map that a cleanup makes of them
abbrev pub recent : ℤ → Notifier → GoMap Notification
recent now n = drop_old (now -ℤ n.max_age) n.notifications

length-newest-le : (k : ℕ) (m : GoMap Notification) → length (newest k m) ≤ k
unfolding newest
length-newest-le k m = length-take-le k (sort newer (values m))

newest-All :
    (P : Notification → Type 0) (k : ℕ) (m : GoMap Notification)
    → GoMap.AllValues P m
    → All P (newest k m)
unfolding newest
newest-All P k m h =
    take-All P k (sort newer (values m)) (sort-All newer P (values m) (values-All P m h))

length-values : (m : GoMap Notification) → length (values m) ≡ length m
length-values [] = refl
length-values ((id, x) ∷ m) = ground (arith, length-values m)

length-cleanup_old :
    (now : ℤ) (n : Notifier) → length (cleanup_old now n).notifications ≤ n.max_notifications
unfolding cleanup_old
length-cleanup_old now n = ground (
  arith,
  length-store_all-le (newest n.max_notifications (recent now n)) [],
  length-newest-le n.max_notifications (recent now n),
)

cleanup_old-AllValues :
    (now : ℤ) (n : Notifier)
    → GoMap.AllValues
        (λ b. IsRecent (now -ℤ n.max_age) b × In b (values n.notifications))
        (cleanup_old now n).notifications
unfolding cleanup_old
cleanup_old-AllValues now n =
    let P = IsStored (now -ℤ n.max_age) (values n.notifications) in
    let all =
      drop_old-IsStored (now -ℤ n.max_age) (values n.notifications) n.notifications (λ b i. i) in
    if_both (GoMap.AllValues P) (ltb n.max_notifications (length (recent now n)))
      (store_all-AllValues P (newest n.max_notifications (recent now n)) []
        (newest-All P n.max_notifications (recent now n) all) tt)
      all

drop_old-lookup :
    (cutoff : ℤ) (j : String) (a : Notification) (m : GoMap Notification)
    → GoMap.lookup j m ≡ some a
    → IsRecent cutoff a
    → GoMap.lookup j (drop_old cutoff m) ≡ some a
unfolding drop_old GoMap.lookup
drop_old-lookup cutoff j a [] h r = absurd (cc h)
drop_old-lookup cutoff j a ((id, x) ∷ m) h r = ground (arith, h, r, drop_old-lookup cutoff j a m)

contains-keys-drop_old :
    (j : String) (cutoff : ℤ) (m : GoMap Notification)
    → contains j (GoMap.keys m) ≡ false
    → contains j (GoMap.keys (drop_old cutoff m)) ≡ false
unfolding drop_old contains
contains-keys-drop_old j cutoff [] h = h
contains-keys-drop_old j cutoff ((id, x) ∷ m) h =
    ground (arith, h, contains-keys-drop_old j cutoff m)

pub drop_old-IsMap : (cutoff : ℤ) (m : GoMap Notification) → IsMap m → IsMap (drop_old cutoff m)
unfolding drop_old contains
drop_old-IsMap cutoff [] d = tt
drop_old-IsMap cutoff ((id, x) ∷ m) d =
    ground (arith, d, drop_old-IsMap cutoff m d.1, contains-keys-drop_old id cutoff m)

pub drop_old-IsKeyed :
    (cutoff : ℤ) (m : GoMap Notification) → IsKeyed m → IsKeyed (drop_old cutoff m)
unfolding drop_old
drop_old-IsKeyed cutoff [] k = tt
drop_old-IsKeyed cutoff ((id, x) ∷ m) k = elim (Bool-cases (ltb_ℤ x.timestamp cutoff)) [
  | inl e ↦ rw (e, drop_old) (drop_old-IsKeyed cutoff m k.1)
  | inr e ↦ rw (e, drop_old) (k.0, drop_old-IsKeyed cutoff m k.1)
]

abbrev nothing : GoMap Notification
nothing = []

unstored : (xs : List Notification) → All (λ y. GoMap.lookup y.id nothing ≡ none) xs
unfolding GoMap.lookup
unstored [] = tt
unstored (x ∷ xs) = (refl, unstored xs)

length-take : (n : ℕ) (xs : List Notification) → n ≤ length xs → length (take n xs) ≡ n
length-take n [] h = omega (arith, h)
length-take n (x ∷ xs) h = ground (arith, h, length-take (n - 1) xs)

length-store_all-newest :
    (k : ℕ) (m : GoMap Notification)
    → IsMap m
    → IsKeyed m
    → k ≤ length m
    → length (store_all (newest k m) []) ≡ k
unfolding newest
length-store_all-newest k m d h le = omega (
  arith,
  length-store_all (newest k m) [] (Distinct-ids-newest k m d h) (unstored (newest k m)),
  length-take k (sort newer (values m)),
  length-sort newer (values m),
  length-values m,
  le,
)

-- stored under the key, or the map is full and nothing in it is older
abbrev pub IsKept : String → Notification → ℕ → GoMap Notification → Type 0
IsKept j a k m =
    (GoMap.lookup j m ≡ some a) ⊎ ((length m ≡ k) × GoMap.AllValues (λ b. newer a b ≡ false) m)

newest-IsKept :
    (j : String) (a : Notification) (k : ℕ) (m : GoMap Notification)
    → IsMap m
    → IsKeyed m
    → k ≤ length m
    → GoMap.lookup j m ≡ some a
    → IsKept j a k (store_all (newest k m) [])
newest-IsKept j a k m d h le found =
    let (member, key) = lookup-values j a m h found in
    elim (newest-first k m a member) [
      | inl i ↦
          inl (rw (sym key) (lookup-store_all a (newest k m) [] (Distinct-ids-newest k m d h) i))
      | inr all ↦ inr (
        length-store_all-newest k m d h le,
        store_all-AllValues (λ b. newer a b ≡ false) (newest k m) [] all tt,
      )
    ]

cleanup_old-IsKept :
    (now : ℤ) (n : Notifier) (j : String) (a : Notification)
    → IsMap n.notifications
    → IsKeyed n.notifications
    → GoMap.lookup j n.notifications ≡ some a
    → IsRecent (now -ℤ n.max_age) a
    → IsKept j a n.max_notifications (cleanup_old now n).notifications
unfolding cleanup_old
cleanup_old-IsKept now n j a d h found r =
    let cutoff = now -ℤ n.max_age in
    let still = drop_old-lookup cutoff j a n.notifications found r in
    elim (Bool-cases (ltb n.max_notifications (length (recent now n)))) [
      | inl e ↦
          rw (e, cleanup_old)
            (newest-IsKept j a n.max_notifications (recent now n)
              (drop_old-IsMap cutoff n.notifications d) (drop_old-IsKeyed cutoff n.notifications h)
              (ground (arith, e)) still)
      | inr e ↦ rw (e, cleanup_old) (inl still)
    ]

-- Let each notification be stored under its id. A cleanup leaves at most the maximal number of
-- notifications, none of them older than the maximal age and all of them stored before; and each
-- one stored before that is not too old is still stored under its id, or the map is full and
-- nothing in it is older than it.
pub cleanup_old_sound :
    (now : ℤ) (n : Notifier)
    → IsMap n.notifications
    → IsKeyed n.notifications
    → (length (cleanup_old now n).notifications ≤ n.max_notifications)
      × GoMap.AllValues
          (λ b. IsRecent (now -ℤ n.max_age) b × In b (values n.notifications))
          (cleanup_old now n).notifications
      × ((j : String) (a : Notification)
          → GoMap.lookup j n.notifications ≡ some a
          → IsRecent (now -ℤ n.max_age) a
          → IsKept j a n.max_notifications (cleanup_old now n).notifications)
cleanup_old_sound now n d h = (
  length-cleanup_old now n,
  cleanup_old-AllValues now n,
  λ j a found r. cleanup_old-IsKept now n j a d h found r,
)
