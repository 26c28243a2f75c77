-- ===== src/Wbft/Waiting.antt =====
-- The waits of the coordinator: what their answers must contain for them to succeed.
use wemixvisor.Base.{
  ℕ, suc, ◌+◌, ◌≤◌, ◌≡◌, ◌↔◌, refl, Option, none, some, Bool, true, false, List, [], ◌∷◌, In, arith,
  Bool-cases, inl, inr, ◌⊎◌, if◌then◌else◌, leb, ◌&&◌,
}
use wemixvisor.Base.Int.{ℤ, pos, ◌≤ℤ◌, ◌-ℤ◌, ltb_ℤ, leb_ℤ}
use wemixvisor.Types.{UpgradeInfo}
use wemixvisor.Wbft.{
  ConsensusState, count_rounds, wait_for_participation, wait_for_height, wait_for_upgrade_height,
}

-- an answer that shows the validator in a later round
abbrev pub participates : ConsensusState → Option ConsensusState → Bool
participates s none = false
participates s (some t) = t.is_validator && ltb_ℤ s.round t.round

abbrev pub rounds : ConsensusState → List (Option ConsensusState) → ℕ
rounds s [] = 0
rounds s (answer ∷ answers) = (if participates s answer then 1 else 0) + rounds s answers

count_rounds_exact :
    (s : ConsensusState) (n : ℕ) (answers : List (Option ConsensusState))
    → n ≤ 2
    → count_rounds s n answers ≡ leb 3 (n + rounds s answers)
unfolding count_rounds
count_rounds_exact s n [] h = ground (arith, h)
count_rounds_exact s n (none ∷ answers) h = ground (arith, count_rounds_exact s n answers h)
count_rounds_exact s n (some t ∷ answers) h =
    ground (arith, h, count_rounds_exact s n answers h, count_rounds_exact s (suc n) answers)

-- The wait for participation succeeds just when the node is no validator or at least three of the
-- answers show it as a validator in a later round.
pub wait_for_participation_exact :
    (s : ConsensusState) (answers : List (Option ConsensusState))
    → (wait_for_participation s answers ≡ true)
      ↔ ((s.is_validator ≡ false) ⊎ (3 ≤ rounds s answers))
unfolding wait_for_participation
wait_for_participation_exact s answers =
    let count = count_rounds_exact s 0 answers (omega arith) in
    elim (Bool-cases s.is_validator) [
      | inl v ↦ (
        λ h. inr (ground (arith, count, v, h)),
        λ h. elim h [ inl w ↦ cc (v, w) | inr three ↦ ground (arith, count, v, three) ],
      )
      | inr v ↦ (λ h. inl v, λ h. ground (arith, v))
    ]

abbrev pub Reaches : ℤ → List (Option ℤ) → Type 0
Reaches target answers = (h : ℤ) × (In (some h) answers × (target ≤ℤ h))

wait_for_height-Reaches :
    (target : ℤ) (answers : List (Option ℤ))
    → wait_for_height target answers ≡ true
    → Reaches target answers
unfolding wait_for_height
wait_for_height-Reaches target [] w = cc w
wait_for_height-Reaches target (none ∷ answers) w =
    let (h, (m, reached)) = wait_for_height-Reaches target answers w in (h, (inr m, reached))
wait_for_height-Reaches target (some g ∷ answers) w = elim (Bool-cases (leb_ℤ target g)) [
  | inl e ↦ (g, (inl refl, ground (arith, e)))
  | inr e ↦
      let (h, (m, reached)) = wait_for_height-Reaches target answers (ground (arith, e, w)) in
      (h, (inr m, reached))
]

Reaches-wait_for_height :
    (target : ℤ) (answers : List (Option ℤ)) (h : ℤ)
    → In (some h) answers
    → target ≤ℤ h
    → wait_for_height target answers ≡ true
unfolding wait_for_height
Reaches-wait_for_height target [] h m r = absurd m
Reaches-wait_for_height target (none ∷ answers) h (inl e) r = cc e
Reaches-wait_for_height target (none ∷ answers) h (inr m) r =
    Reaches-wait_for_height target answers h m r
Reaches-wait_for_height target (some g ∷ answers) h (inl e) r = ground (arith, e, r)
Reaches-wait_for_height target (some g ∷ answers) h (inr m) r =
    ground (arith, Reaches-wait_for_height target answers h m r)

sub-nonpositive : (a b : ℤ) → leb_ℤ (a -ℤ b) (pos 0) ≡ true → a ≤ℤ b
sub-nonpositive a b h = ground (arith, h)

sub-positive : (a b : ℤ) → leb_ℤ (a -ℤ b) (pos 0) ≡ false → a ≤ℤ b → ⊥
sub-positive a b h k = ground (arith, h, k)

-- When the height is known at first, the wait for the height of an upgrade succeeds just when it
-- is reached then or at one of the later answers.
pub wait_for_upgrade_height_exact :
    (u : UpgradeInfo) (h : ℤ) (answers : List (Option ℤ))
    → (wait_for_upgrade_height u (some h) answers ≡ true)
      ↔ ((u.height ≤ℤ h) ⊎ Reaches u.height answers)
unfolding wait_for_upgrade_height
wait_for_upgrade_height_exact u h answers = elim (Bool-cases (leb_ℤ (u.height -ℤ h) (pos 0))) [
  | inl e ↦ rw (e, wait_for_upgrade_height) (λ w. inl (sub-nonpositive u.height h e), λ r. refl)
  | inr e ↦
      rw (e, wait_for_upgrade_height)
        (
          λ w. inr (wait_for_height-Reaches u.height answers w),
          λ r. elim r [
            | inl reached ↦ absurd (sub-positive u.height h e reached)
            | inr (g, (m, reached)) ↦ Reaches-wait_for_height u.height answers g m reached
          ],
        )
]
