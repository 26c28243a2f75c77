-- ===== src/Base/GoMap.antt =====
-- Go's `map[string]V` as an association list: `m[k]`, `m[k] = v`, `delete(m, k)`, `len(m)`.
-- A `range` over a map visits its entries in the order of the list.
use wemixvisor.Base.Tests.{str_dec, is_some, ite_both}
use wemixvisor.Base.Lists.{length, contains, Distinct, All}
use Prim.Native.Nat.{◌+◌}
use Prim.Native.String.{String}
use mathlib.Core.Path.{◌≡◌, refl}
use mathlib.Core.Logic.{ite}
use mathlib.Core.Bool.{true, false}
use mathlib.Core.Option.{Option, none, some}
use mathlib.Core.List.{List, [], ◌∷◌}
use native.Mathlib.Omega.{arith}

abbrev pub GoMap {ℓ} : Type ℓ → Type ℓ
GoMap V = List (String × V)

module _ {ℓ} {V : Type ℓ} where
  unfoldable pub lookup : String → GoMap V → Option V
  lookup k [] = none
  lookup k ((j, v) ∷ m) = ite (str_dec j k) (some v) (lookup k m)

  unfoldable pub insert : String → V → GoMap V → GoMap V
  insert k v [] = (k, v) ∷ []
  insert k v ((j, w) ∷ m) = ite (str_dec j k) ((k, v) ∷ m) ((j, w) ∷ insert k v m)

  unfoldable pub delete : String → GoMap V → GoMap V
  delete k [] = []
  delete k ((j, w) ∷ m) = ite (str_dec j k) (delete k m) ((j, w) ∷ delete k m)

  abbrev pub keys : GoMap V → List String
  keys [] = []
  keys ((j, w) ∷ m) = j ∷ keys m

  pub lookup-insert :
      (j k : String) (v : V) (m : GoMap V)
      → lookup j (insert k v m) ≡ ite (str_dec k j) (some v) (lookup j m)
  unfolding lookup insert
  lookup-insert j k v [] = refl
  lookup-insert j k v ((i, w) ∷ m) = ground (arith, lookup-insert j k v m)

  pub lookup-delete :
      (j k : String) (m : GoMap V) → lookup j (delete k m) ≡ ite (str_dec k j) none (lookup j m)
  unfolding lookup delete
  lookup-delete j k [] = ground arith
  lookup-delete j k ((i, w) ∷ m) = ground (arith, lookup-delete j k m)

  pub contains-keys : (k : String) (m : GoMap V) → contains k (keys m) ≡ is_some (lookup k m)
  unfolding lookup contains
  contains-keys k [] = refl
  contains-keys k ((j, w) ∷ m) = ground (arith, contains-keys k m)

  pub delete_absent : (k : String) (m : GoMap V) → lookup k m ≡ none → delete k m ≡ m
  unfolding lookup delete
  delete_absent k [] h = refl
  delete_absent k ((j, w) ∷ m) h = ground (arith, delete_absent k m)

  -- In a Go map no key stands twice.
  abbrev pub IsMap : GoMap V → Type 0
  IsMap m = Distinct (keys m)

  pub contains-keys-insert :
      (j k : String) (v : V) (m : GoMap V)
      → contains j (keys (insert k v m)) ≡ ite (str_dec k j) true (contains j (keys m))
  unfolding insert contains
  contains-keys-insert j k v [] = refl
  contains-keys-insert j k v ((i, w) ∷ m) = ground (arith, contains-keys-insert j k v m)

  pub contains-keys-delete :
      (j k : String) (m : GoMap V)
      → contains j (keys (delete k m)) ≡ ite (str_dec k j) false (contains j (keys m))
  unfolding delete contains
  contains-keys-delete j k [] = ground arith
  contains-keys-delete j k ((i, w) ∷ m) = ground (arith, contains-keys-delete j k m)

  pub insert-IsMap : (k : String) (v : V) (m : GoMap V) → IsMap m → IsMap (insert k v m)
  unfolding insert contains
  insert-IsMap k v [] d = (refl, tt)
  insert-IsMap k v ((i, w) ∷ m) d =
      ground (arith, insert-IsMap k v m d.1, contains-keys-insert i k v m)

  pub delete-IsMap : (k : String) (m : GoMap V) → IsMap m → IsMap (delete k m)
  unfolding delete contains
  delete-IsMap k [] d = tt
  delete-IsMap k ((i, w) ∷ m) d = ground (arith, delete-IsMap k m d.1, contains-keys-delete i k m)

  pub length-insert_new :
      (k : String) (v : V) (m : GoMap V) → lookup k m ≡ none → length (insert k v m) ≡ length m + 1
  unfolding lookup insert
  length-insert_new k v [] h = omega arith
  length-insert_new k v ((j, w) ∷ m) h = ground (arith, length-insert_new k v m)

  pub length-insert_old :
      (k : String) (v w : V) (m : GoMap V) → lookup k m ≡ some w → length (insert k v m) ≡ length m
  unfolding lookup insert
  length-insert_old k v w [] h = cc
  length-insert_old k v w ((j, u) ∷ m) h = ground (arith, length-insert_old k v w m)

  pub length-delete :
      (k : String) (w : V) (m : GoMap V)
      → IsMap m
      → lookup k m ≡ some w
      → length (delete k m) + 1 ≡ length m
  unfolding lookup delete
  length-delete k w [] d h = cc
  length-delete k w ((j, u) ∷ m) d h =
      ground (arith, length-delete k w m d.1, delete_absent k m, contains-keys k m)

  -- what holds of all values
  abbrev pub AllValues {κ} : (V → Type κ) → GoMap V → Type κ
  AllValues P = All (λ e. P (e.1))

  pub insert-AllValues {κ} :
      (P : V → Type κ) (k : String) (v : V) (m : GoMap V)
      → P v
      → AllValues P m
      → AllValues P (insert k v m)
  unfolding insert
  insert-AllValues P k v [] p h = (p, tt)
  insert-AllValues P k v ((j, w) ∷ m) p h =
      ite_both (AllValues P) (str_dec j k) (p, h.1) (h.0, insert-AllValues P k v m p h.1)

  pub delete-AllValues {κ} :
      (P : V → Type κ) (k : String) (m : GoMap V) → AllValues P m → AllValues P (delete k m)
  unfolding delete
  delete-AllValues P k [] h = tt
  delete-AllValues P k ((j, w) ∷ m) h =
      ite_both (AllValues P) (str_dec j k) (delete-AllValues P k m h.1)
        (h.0, delete-AllValues P k m h.1)
