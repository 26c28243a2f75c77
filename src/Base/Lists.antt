-- ===== src/Base/Lists.antt =====
-- Lists measured by native numbers, and lists of texts without repetition.
use Prim.Native.Nat.{ℕ, ◌+◌, ◌-◌, ◌≤◌}
use Prim.Native.String.{String}
use mathlib.Core.Path.{◌≡◌, refl}
use mathlib.Core.Bool.{Bool, true, false}
use mathlib.Core.Logic.{◌⊎◌, inl, inr, ite}
use mathlib.Core.List.{List, [], ◌∷◌, ◌++◌}
use native.Mathlib.Omega.{arith}
use wemixvisor.Base.Tests.{str_dec, ◌==◌, if◌then◌else◌}

module _ {ℓ} {A : Type ℓ} where
  abbrev pub length : List A → ℕ
  length [] = 0
  length (x ∷ xs) = length xs + 1

  pub length-append : (xs ys : List A) → length (xs ++ ys) ≡ length xs + length ys
  length-append [] ys = omega arith
  length-append (x ∷ xs) ys = omega (arith, length-append xs ys)

abbrev pub All {ℓ κ} : {A : Type ℓ} (P : A → Type κ) → List A → Type κ
All P [] = Unit
All P (a ∷ rest) = P a × All P rest

-- a is one of the members
abbrev pub In : {A : Type 0} → A → List A → Type 0
In a [] = ⊥
In a (x ∷ xs) = (x ≡ a) ⊎ In a xs

pub In-append_left : {A : Type 0} (a : A) (front back : List A) → In a front → In a (front ++ back)
In-append_left a [] back m = absurd m
In-append_left a (x ∷ front) back (inl e) = inl e
In-append_left a (x ∷ front) back (inr m) = inr (In-append_left a front back m)

pub In-append_right : {A : Type 0} (a : A) (front back : List A) → In a back → In a (front ++ back)
In-append_right a [] back m = m
In-append_right a (x ∷ front) back m = inr (In-append_right a front back m)

pub All-In : {A : Type 0} (P : A → Type 0) (a : A) (xs : List A) → All P xs → In a xs → P a
All-In P a [] h m = absurd m
All-In P a (x ∷ xs) h (inl e) = rw (← e) h.0
All-In P a (x ∷ xs) h (inr m) = All-In P a xs h.1 m

pub All-map_imp :
    {A : Type 0} (P Q : A → Type 0) → ((a : A) → P a → Q a) → (xs : List A) → All P xs → All Q xs
All-map_imp P Q f [] h = tt
All-map_imp P Q f (x ∷ xs) h = (f x h.0, All-map_imp P Q f xs h.1)

pub All-append :
    {A : Type 0} (P : A → Type 0) (front back : List A)
    → All P front
    → All P back
    → All P (front ++ back)
All-append P [] back _ q = q
All-append P (a ∷ front) back (p, ps) q = (p, All-append P front back ps q)

unfoldable pub contains : String → List String → Bool
contains k [] = false
contains k (x ∷ xs) = ite (str_dec x k) true (contains k xs)

-- the list without the first occurrence
unfoldable pub remove : String → List String → List String
remove k [] = []
remove k (x ∷ xs) = ite (str_dec x k) xs (x ∷ remove k xs)

abbrev pub Distinct : List String → Type 0
Distinct [] = Unit
Distinct (x ∷ xs) = (contains x xs ≡ false) × Distinct xs

pub contains-remove :
    (j k : String) (l : List String)
    → Distinct l
    → contains j (remove k l) ≡ ite (str_dec k j) false (contains j l)
unfolding contains remove
contains-remove j k [] d = ground arith
contains-remove j k (x ∷ l) d = ground (arith, contains-remove j k l d.1)

pub remove-Distinct : (k : String) (l : List String) → Distinct l → Distinct (remove k l)
unfolding contains remove
remove-Distinct k [] d = tt
remove-Distinct k (x ∷ l) d = ground (arith, remove-Distinct k l d.1, contains-remove x k l d.1)

pub length-remove :
    (k : String) (l : List String) → contains k l ≡ true → length (remove k l) + 1 ≡ length l
unfolding contains remove
length-remove k [] h = cc
length-remove k (x ∷ l) h = ground (arith, length-remove k l)

pub length-remove-le : (k : String) (l : List String) → length (remove k l) ≤ length l
unfolding remove
length-remove-le k [] = omega arith
length-remove-le k (x ∷ l) = ground (arith, length-remove-le k l)

pub remove_absent : (k : String) (l : List String) → contains k l ≡ false → remove k l ≡ l
unfolding contains remove
remove_absent k [] h = refl
remove_absent k (x ∷ l) h = ground (arith, remove_absent k l)

-- the first n entries, and all of a shorter list
abbrev pub take {ℓ} : {A : Type ℓ} → ℕ → List A → List A
take n [] = []
take n (x ∷ xs) = if n == 0 then [] else x ∷ take (n - 1) xs

pub length-take-le {ℓ} : {A : Type ℓ} (n : ℕ) (l : List A) → length (take n l) ≤ n
length-take-le n [] = omega arith
length-take-le n (a ∷ l) = ground (arith, length-take-le (n - 1) l)

pub take_of_length-le {ℓ} : {A : Type ℓ} (n : ℕ) (l : List A) → length l ≤ n → take n l ≡ l
take_of_length-le n [] short = refl
take_of_length-le n (a ∷ l) short = ground (arith, take_of_length-le (n - 1) l)
