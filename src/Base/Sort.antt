-- ===== src/Base/Sort.antt =====
-- `sort.Slice` as an insertion sort by a strict test `less`.
use mathlib.Core.Path.{◌≡◌, refl}
use mathlib.Core.Bool.{Bool, true, false}
use mathlib.Core.Logic.{inl, inr}
use mathlib.Core.List.{List, [], ◌∷◌, Perm}
use mathlib.Core.List.Perm
use Prim.Native.Nat.{suc}
use native.Mathlib.Omega.{arith}
use wemixvisor.Base.Tests.{if◌then◌else◌, Bool-cases}
use wemixvisor.Base.Lists.{length, All, All-map_imp, In}

module _ {A : Type 0} (less : A → A → Bool) where
  unfoldable pub place : A → List A → List A
  place x [] = x ∷ []
  place x (y ∷ ys) = if less y x then y ∷ place x ys else x ∷ y ∷ ys

  unfoldable pub sort : List A → List A
  unfolding place
  sort [] = []
  sort (x ∷ xs) = place x (sort xs)

  -- No later element is less than an earlier one.
  abbrev pub IsSorted : List A → Type 0
  IsSorted [] = Unit
  IsSorted (x ∷ xs) = All (λ y. less y x ≡ false) xs × IsSorted xs

  place-All : (P : A → Type 0) (x : A) (xs : List A) → P x → All P xs → All P (place x xs)
  unfolding place
  place-All P x [] p h = (p, tt)
  place-All P x (y ∷ ys) p h = elim (Bool-cases (less y x)) [
    | inl e ↦ rw e (h.0, place-All P x ys p h.1)
    | inr e ↦ rw e (p, h)
  ]

  pub sort-All : (P : A → Type 0) (xs : List A) → All P xs → All P (sort xs)
  unfolding sort
  sort-All P [] h = tt
  sort-All P (x ∷ xs) h = place-All P x (sort xs) h.0 (sort-All P xs h.1)

  pub length-place : (x : A) (xs : List A) → length (place x xs) ≡ suc (length xs)
  unfolding place
  length-place x [] = refl
  length-place x (y ∷ ys) = ground (arith, length-place x ys)

  pub length-sort : (xs : List A) → length (sort xs) ≡ length xs
  unfolding sort
  length-sort [] = refl
  length-sort (x ∷ xs) = ground (arith, length-place x (sort xs), length-sort xs)

  place-perm : (x : A) (xs : List A) → Perm (place x xs) (x ∷ xs)
  unfolding place
  place-perm x [] = Perm.refl (x ∷ [])
  place-perm x (y ∷ ys) = elim (Bool-cases (less y x)) [
    | inl e ↦ rw e (Perm.trans (Perm.cons y (place-perm x ys)) (Perm.swap x y ys))
    | inr e ↦ rw e (Perm.refl (x ∷ y ∷ ys))
  ]

  pub sort-perm : (xs : List A) → Perm (sort xs) xs
  unfolding sort
  sort-perm [] = Perm.refl []
  sort-perm (x ∷ xs) = Perm.trans (place-perm x (sort xs)) (Perm.cons x (sort-perm xs))

  pub In-place : (a x : A) (xs : List A) → In a (place x xs) → In a (x ∷ xs)
  unfolding place
  In-place a x [] m = m
  In-place a x (y ∷ ys) m = ground (arith, In-place a x ys)

  place-In : (a x : A) (xs : List A) → In a (x ∷ xs) → In a (place x xs)
  unfolding place
  place-In a x [] m = m
  place-In a x (y ∷ ys) m = ground (arith, place-In a x ys)

  pub sort-In : (a : A) (xs : List A) → In a xs → In a (sort xs)
  unfolding sort
  sort-In a [] m = m
  sort-In a (x ∷ xs) (inl e) = place-In a x (sort xs) (inl e)
  sort-In a (x ∷ xs) (inr m) = place-In a x (sort xs) (inr (sort-In a xs m))

  pub In-sort : (a : A) (xs : List A) → In a (sort xs) → In a xs
  unfolding sort
  In-sort a [] m = m
  In-sort a (x ∷ xs) m = ground (arith, In-place a x (sort xs) m, In-sort a xs)

  module _ (asym : (a b : A) → less a b ≡ true → less b a ≡ false)
      (cotrans : (a b c : A) → less b a ≡ false → less c b ≡ false → less c a ≡ false) where
    place-IsSorted : (x : A) (xs : List A) → IsSorted xs → IsSorted (place x xs)
    unfolding place
    place-IsSorted x [] h = (tt, tt)
    place-IsSorted x (y ∷ ys) h = elim (Bool-cases (less y x)) [
      | inl e ↦
          rw e (place-All (λ z. less z y ≡ false) x ys (asym y x e) h.0, place-IsSorted x ys h.1)
      | inr e ↦ rw e (
        (
          e,
          All-map_imp (λ z. less z y ≡ false) (λ z. less z x ≡ false) (λ z p. cotrans x y z e p) ys
              h.0,
        ),
        h,
      )
    ]

    pub sort-IsSorted : (xs : List A) → IsSorted (sort xs)
    unfolding sort
    sort-IsSorted [] = tt
    sort-IsSorted (x ∷ xs) = place-IsSorted x (sort xs) (sort-IsSorted xs)

module _ {A : Type 0} where
  -- the list without the first member that passes the test
  unfoldable pub remove_first : (A → Bool) → List A → List A
  remove_first test [] = []
  remove_first test (x ∷ xs) = if test x then xs else x ∷ remove_first test xs

  pub remove_first-All :
      (test : A → Bool) (P : A → Type 0) (xs : List A) → All P xs → All P (remove_first test xs)
  unfolding remove_first
  remove_first-All test P [] h = tt
  remove_first-All test P (x ∷ xs) h = elim (Bool-cases (test x)) [
    | inl e ↦ rw e h.1
    | inr e ↦ rw e (h.0, remove_first-All test P xs h.1)
  ]

  pub remove_first-IsSorted :
      (less : A → A → Bool) (test : A → Bool) (xs : List A)
      → IsSorted less xs
      → IsSorted less (remove_first test xs)
  unfolding remove_first
  remove_first-IsSorted less test [] h = tt
  remove_first-IsSorted less test (x ∷ xs) h = elim (Bool-cases (test x)) [
    | inl e ↦ rw e h.1
    | inr e ↦ rw e (
      remove_first-All test (λ y. less y x ≡ false) xs h.0,
      remove_first-IsSorted less test xs h.1,
    )
  ]
