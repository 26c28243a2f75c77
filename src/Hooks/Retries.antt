-- ===== src/Hooks/Retries.antt =====
-- The runs of the pre-upgrade script: how many there are, and when they succeed.
use wemixvisor.Base.{
  ℕ, zero, suc, ◌+◌, ◌≤◌, ◌<◌, ◌≡◌, refl, some, Bool, true, false, arith, Bool-cases, inl, inr, ◌⊎◌,
  ◌∙◌,
}
use wemixvisor.Base.Int.{ℤ, pos, negsuc, pos_part, ltb_ℤ}
use wemixvisor.Hooks.{retry, enough}

-- The outcome of the runs from number k on: if the last one succeeds it is the first that does, and
-- otherwise all up to the maximum failed.
abbrev pub Outcome : (ℕ → Bool) → ℤ → ℕ → Bool × ℕ → Type 0
Outcome script_ok max k (true, runs) =
    (i : ℕ) × ((runs ≡ suc i)
      × ((script_ok i ≡ true) × ((k ≤ i) × ((j : ℕ) → k ≤ j → j < i → script_ok j ≡ false))))
Outcome script_ok max k (false, runs) = (j : ℕ) → k ≤ j → j ≤ pos_part max → script_ok j ≡ false

abbrev Result : (ℕ → Bool) → ℤ → ℕ → ℕ → Type 0
Result script_ok max fuel k =
    (r : Bool × ℕ) × ((retry script_ok max fuel k ≡ some r)
      × ((k < r.1) × ((r.1 ≤ enough max) × Outcome script_ok max k r)))

at_last : (k : ℕ) (max : ℤ) → k ≤ pos_part max → ltb_ℤ (pos k) max ≡ false → k ≡ pos_part max
at_last k (pos n) h l = ground (arith, h, l)
at_last k (negsuc n) h l = omega (arith, h)

before_last : (k : ℕ) (max : ℤ) → ltb_ℤ (pos k) max ≡ true → suc k ≤ pos_part max
before_last k (pos n) l = ground (arith, l)
before_last k (negsuc n) l = ground (arith, l)

compare_le : (k j : ℕ) → k ≤ j → (k ≡ j) ⊎ (suc k ≤ j)
compare_le k j h = ground (arith, h)

module _ (script_ok : ℕ → Bool) (max : ℤ) where
  retry-here :
      (fuel k : ℕ) → script_ok k ≡ true → retry script_ok max (suc fuel) k ≡ some (true, suc k)
  unfolding retry
  retry-here fuel k h = rw h refl

  retry-last :
      (fuel k : ℕ)
      → script_ok k ≡ false
      → ltb_ℤ (pos k) max ≡ false
      → retry script_ok max (suc fuel) k ≡ some (false, suc k)
  unfolding retry
  retry-last fuel k h l = rw (h, l) refl

  retry-next :
      (fuel k : ℕ)
      → script_ok k ≡ false
      → ltb_ℤ (pos k) max ≡ true
      → retry script_ok max (suc fuel) k ≡ retry script_ok max fuel (suc k)
  unfolding retry
  retry-next fuel k h l = rw (h, l) refl

  -- the failure of run k in front of the runs from suc k on
  fails_and :
      (k bound : ℕ)
      → script_ok k ≡ false
      → ((j : ℕ) → suc k ≤ j → j ≤ bound → script_ok j ≡ false)
      → (j : ℕ) → k ≤ j
      → j ≤ bound
      → script_ok j ≡ false
  fails_and k bound h later j a b = elim (compare_le k j a) [
    | inl e ↦ rw (← e) h
    | inr lt ↦ later j lt b
  ]

  Outcome-step :
      (k : ℕ) (r : Bool × ℕ)
      → script_ok k ≡ false
      → Outcome script_ok max (suc k) r
      → Outcome script_ok max k r
  Outcome-step k (true, runs) h (i, (e, (ok, (le, first)))) = (
    i,
    (
      e,
      (
        ok,
        (
          omega arith,
          λ j a b. fails_and k j h (λ j' a' b'. first j' a' (omega arith)) j a (omega arith),
        ),
      ),
    ),
  )
  Outcome-step k (false, runs) h all = fails_and k (pos_part max) h all

  retry_total :
      (fuel k : ℕ) → k ≤ pos_part max → enough max ≤ fuel + k → Result script_ok max fuel k
  retry_total zero k le h = absurd (omega arith)
  retry_total (suc fuel) k le h = elim (Bool-cases (script_ok k)) [
    | inl ok ↦ (
      (true, suc k),
      (
        retry-here fuel k ok,
        (
          omega arith,
          (omega arith, (k, (refl, (ok, (omega arith, λ j a b. absurd (omega arith)))))),
        ),
      ),
    )
    | inr fails ↦ elim (Bool-cases (ltb_ℤ (pos k) max)) [
      | inr last ↦
          let e = at_last k max le last in
          (
            (false, suc k),
            (
              retry-last fuel k fails last,
              (
                omega arith,
                (omega (arith, e), λ j a b. let e' : j ≡ k = omega (arith, e) in rw e' fails),
              ),
            ),
          )
      | inl more ↦
          let (r, (e, (above, (bound, outcome)))) =
            retry_total fuel (suc k) (before_last k max more) (omega (arith, h)) in
          (
            r,
            (
              retry-next fuel k fails more ∙ e,
              (omega (arith, above), (bound, Outcome-step k r fails outcome)),
            ),
          )
    ]
  ]

  -- The loop of runScript always ends: with one round for the first run and one for each retry it
  -- gives a result after at least one and at most that many runs; on success the last run is the
  -- first one that succeeds, and on failure every run up to the maximum of retries failed.
  pub run_script_total :
      (r : Bool × ℕ) × ((retry script_ok max (enough max) 0 ≡ some r)
        × ((0 < r.1) × ((r.1 ≤ enough max) × Outcome script_ok max 0 r)))
  run_script_total = retry_total (enough max) 0 (omega arith) (omega arith)
