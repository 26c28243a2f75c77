-- ===== src/Governance/Notifier/Ids.antt =====
-- The ids of notifications in sorted lists and in the map that is made of them.
use wemixvisor.Base.{
  ℕ, ◌+◌, ◌-◌, ◌≡◌, ◌||◌, refl, ◌∙◌, inl, inr, some, none, false, String, List, [], ◌∷◌, All, In,
  Distinct, contains, length, map, take, arith, str_eq,
}
use wemixvisor.Base.GoMap
use wemixvisor.Base.GoMap.{GoMap, IsMap}
use wemixvisor.Base.Sort.{place, sort}
use wemixvisor.Governance.Notifier.{Notification, newer, values, newest, store_all}

abbrev pub ids_of : List Notification → List String
ids_of = map (λ x. x.id)

-- Each notification is stored under its id.
abbrev pub IsKeyed : GoMap Notification → Type 0
IsKeyed = All (λ e. e.1.id ≡ e.0)

ids-values : (m : GoMap Notification) → IsKeyed m → ids_of (values m) ≡ GoMap.keys m
ids-values [] h = refl
ids-values ((id, x) ∷ m) h = ground (arith, h.0, ids-values m h.1)

contains-ids-place :
    (j : String) (x : Notification) (xs : List Notification)
    → contains j (ids_of (place newer x xs)) ≡ (str_eq x.id j || contains j (ids_of xs))
unfolding place contains
contains-ids-place j x [] = ground arith
contains-ids-place j x (y ∷ ys) = ground (arith, contains-ids-place j x ys)

Distinct-ids-place :
    (x : Notification) (xs : List Notification)
    → contains x.id (ids_of xs) ≡ false
    → Distinct (ids_of xs)
    → Distinct (ids_of (place newer x xs))
unfolding place contains
Distinct-ids-place x [] h d = (refl, tt)
Distinct-ids-place x (y ∷ ys) h d =
    ground (arith, h, d, Distinct-ids-place x ys, contains-ids-place y.id x ys)

contains-ids-sort :
    (j : String) (xs : List Notification)
    → contains j (ids_of (sort newer xs)) ≡ contains j (ids_of xs)
unfolding sort contains
contains-ids-sort j [] = refl
contains-ids-sort j (x ∷ xs) =
    ground (arith, contains-ids-place j x (sort newer xs), contains-ids-sort j xs)

Distinct-ids-sort :
    (xs : List Notification) → Distinct (ids_of xs) → Distinct (ids_of (sort newer xs))
unfolding sort
Distinct-ids-sort [] d = tt
Distinct-ids-sort (x ∷ xs) d =
    Distinct-ids-place x (sort newer xs) (contains-ids-sort x.id xs ∙ d.0)
      (Distinct-ids-sort xs d.1)

contains-ids-take :
    (j : String) (n : ℕ) (xs : List Notification)
    → contains j (ids_of xs) ≡ false
    → contains j (ids_of (take n xs)) ≡ false
unfolding contains
contains-ids-take j n [] h = h
contains-ids-take j n (x ∷ xs) h = ground (arith, h, contains-ids-take j (n - 1) xs)

Distinct-ids-take :
    (n : ℕ) (xs : List Notification) → Distinct (ids_of xs) → Distinct (ids_of (take n xs))
unfolding contains
Distinct-ids-take n [] d = tt
Distinct-ids-take n (x ∷ xs) d =
    ground (arith, d, contains-ids-take x.id (n - 1) xs, Distinct-ids-take (n - 1) xs d.1)

pub Distinct-ids-newest :
    (n : ℕ) (m : GoMap Notification) → IsMap m → IsKeyed m → Distinct (ids_of (newest n m))
unfolding newest
Distinct-ids-newest n m d k =
    Distinct-ids-take n (sort newer (values m))
      (Distinct-ids-sort (values m) (rw (ids-values m k) d))

lookup-store_all_other :
    (j : String) (xs : List Notification) (m : GoMap Notification)
    → contains j (ids_of xs) ≡ false
    → GoMap.lookup j (store_all xs m) ≡ GoMap.lookup j m
unfolding store_all contains
lookup-store_all_other j [] m h = refl
lookup-store_all_other j (x ∷ xs) m h =
    ground (
      arith,
      h,
      lookup-store_all_other j xs (GoMap.insert x.id x m),
      GoMap.lookup-insert j x.id x m,
    )

lookup-insert_self :
    (x : Notification) (m : GoMap Notification) → GoMap.lookup x.id (GoMap.insert x.id x m) ≡ some x
lookup-insert_self x m = ground (arith, GoMap.lookup-insert x.id x.id x m)

pub lookup-store_all :
    (a : Notification) (xs : List Notification) (m : GoMap Notification)
    → Distinct (ids_of xs)
    → In a xs
    → GoMap.lookup a.id (store_all xs m) ≡ some a
unfolding store_all
lookup-store_all a [] m d i = absurd i
lookup-store_all a (x ∷ xs) m d (inl e) =
    rw (← e) (lookup-store_all_other x.id xs (GoMap.insert x.id x m) d.0 ∙ lookup-insert_self x m)
lookup-store_all a (x ∷ xs) m d (inr i) = lookup-store_all a xs (GoMap.insert x.id x m) d.1 i

still_free :
    (x : Notification) (xs : List Notification) (m : GoMap Notification)
    → contains x.id (ids_of xs) ≡ false
    → All (λ y. GoMap.lookup y.id m ≡ none) xs
    → All (λ y. GoMap.lookup y.id (GoMap.insert x.id x m) ≡ none) xs
unfolding contains
still_free x [] m f h = tt
still_free x (y ∷ ys) m f h =
    ground (arith, f, h, GoMap.lookup-insert y.id x.id x m, still_free x ys m)

pub length-store_all :
    (xs : List Notification) (m : GoMap Notification)
    → Distinct (ids_of xs)
    → All (λ x. GoMap.lookup x.id m ≡ none) xs
    → length (store_all xs m) ≡ length m + length xs
unfolding store_all
length-store_all [] m d h = omega arith
length-store_all (x ∷ xs) m d h = omega (
  arith,
  length-store_all xs (GoMap.insert x.id x m) d.1 (still_free x xs m d.0 h.1),
  GoMap.length-insert_new x.id x m h.0,
)

pub lookup-values :
    (j : String) (a : Notification) (m : GoMap Notification)
    → IsKeyed m
    → GoMap.lookup j m ≡ some a
    → In a (values m) × (a.id ≡ j)
unfolding GoMap.lookup
lookup-values j a [] k h = absurd (cc h)
lookup-values j a ((id, x) ∷ m) k h = ground (arith, k.0, h, lookup-values j a m k.1)
