-- ===== src/Base/Heap.antt =====
-- The store of the objects that Go code shares by pointer: a pointer is a number.
use Prim.Native.Nat.{ℕ}
use mathlib.Core.Path.{◌≡◌, fun_ext}
use mathlib.Core.Logic.{◌≢◌}
use native.Mathlib.Omega.{arith}
use wemixvisor.Base.Tests.{◌==◌, if◌then◌else◌}

module _ {A : Type 0} where
  unfoldable pub write : (ℕ → A) → ℕ → A → ℕ → A
  write h p v i = if i == p then v else h i

  pub write_self : (h : ℕ → A) (p : ℕ) (v : A) → write h p v p ≡ v
  unfolding write
  write_self h p v = ground arith

  pub write_ne : (h : ℕ → A) (p : ℕ) (v : A) (i : ℕ) → i ≢ p → write h p v i ≡ h i
  unfolding write
  write_ne h p v i ne = ground arith

  -- A write that keeps a field keeps it at every pointer.
  pub field-write :
      {B : Type 0} (f : A → B) (h : ℕ → A) (p : ℕ) (v : A)
      → f v ≡ f (h p)
      → ◌≡◌ {A = ℕ → B} (λ i. f (write h p v i)) (λ i. f (h i))
  unfolding write
  field-write f h p v e = fun_ext (λ i. ground arith)
