-- ===== src/Wbft/Preparation.antt =====
-- When the coordinator writes the upgrade file, and that it triggers no upgrade.
use wemixvisor.Base.{
  ◌≡◌, refl, Option, none, some, Bool, true, false, List, [], ◌∷◌, ◌++◌, All, All-append, In,
  In-append_left, In-append_right, arith, Bool-cases, Option-cases, inl, inr, if◌then◌else◌,
  if_both, ◌∙◌, ◌&&◌,
}
use wemixvisor.Base.Int.{ℤ, pos, ◌≤ℤ◌, ◌<ℤ◌, ◌-ℤ◌, ltb_ℤ, leb_ℤ}
use wemixvisor.Types.{UpgradeInfo}
use wemixvisor.Batch.{UpgradePlan, get_next_upgrade}
use wemixvisor.Wbft.{ConsensusState, Coordinator, prepare_upgrade, approach, on_state, on_states}

pub get_next_upgrade-above :
    (us : List UpgradeInfo) (h : ℤ) (u : UpgradeInfo)
    → get_next_upgrade us h ≡ some u
    → In u us × (h <ℤ u.height)
unfolding get_next_upgrade
get_next_upgrade-above [] h u e = cc e
get_next_upgrade-above (v ∷ us) h u e = elim (Bool-cases (ltb_ℤ h v.height)) [
  | inl b ↦ let same : v ≡ u = ground (arith, e, b) in (inl same, rw (← same) (ground (arith, b)))
  | inr b ↦ let (m, above) = get_next_upgrade-above us h u (ground (arith, e, b)) in (inr m, above)
]

-- written for an upgrade of the plan, in the last ten blocks before its height
abbrev pub IsEarly : UpgradePlan → ℤ × UpgradeInfo → Type 0
IsEarly plan w = In (w.1) plan.upgrades × ((w.0 <ℤ w.1.height) × (w.1.height -ℤ w.0 ≤ℤ pos 10))

sub-positive : (a b : ℤ) → a <ℤ b → ltb_ℤ (pos 0) (b -ℤ a) ≡ true
sub-positive a b h = ground (arith, h)

ten_in_hundred : (n : ℤ) → leb_ℤ n (pos 10) ≡ true → leb_ℤ n (pos 100) ≡ true
ten_in_hundred n h = ground arith

-- within ten blocks of the height of the upgrade
abbrev pub near : ConsensusState → UpgradeInfo → Bool
near s u = leb_ℤ (u.height -ℤ s.height) (pos 10)

near_tests : (a b c : Bool) → (c ≡ true → a ≡ true) → b ≡ true → (a && b && c) ≡ c
near_tests a b true h k = rw (h refl, k) refl
near_tests true b false h k = rw k refl
near_tests false b false h k = refl

late : (a b : ℤ) → a <ℤ b → leb_ℤ b a ≡ false
late a b h = ground (arith, h)

within : (n : ℤ) → leb_ℤ n (pos 10) ≡ true → n ≤ℤ pos 10
within n h = ground arith

module _ (write_ok : UpgradeInfo → Bool) where
  approach_below :
      (answers : List (Option ConsensusState)) (s : ConsensusState) (u : UpgradeInfo)
      (c : Coordinator)
      → s.height <ℤ u.height
      → approach write_ok answers s u c
        ≡ (if near s u then prepare_upgrade write_ok s.height u c else c)
  unfolding approach
  approach_below answers s u c h =
      rw
        (
          late s.height u.height h,
          near_tests _ _ (near s u) (ten_in_hundred (u.height -ℤ s.height))
              (sub-positive s.height u.height h),
        )
        refl

  -- what a round may do to the coordinator
  abbrev IsRound : UpgradePlan → Coordinator → Coordinator → Type 0
  IsRound plan c d =
      (d.triggered ≡ c.triggered)
      × ((All (IsEarly plan) c.written → All (IsEarly plan) d.written)
          × ((w : ℤ × UpgradeInfo) → In w c.written → In w d.written))

  IsRound-trans :
      (plan : UpgradePlan) (c d e : Coordinator)
      → IsRound plan c d
      → IsRound plan d e
      → IsRound plan c e
  IsRound-trans plan c d e (h, (k, l)) (h', (k', l')) =
      (h' ∙ h, (λ a. k' (k a), λ w m. l' w (l w m)))

  IsRound-refl : (plan : UpgradePlan) (c : Coordinator) → IsRound plan c c
  IsRound-refl plan c = (refl, (λ a. a, λ w m. m))

  prepare_upgrade-IsRound :
      (plan : UpgradePlan) (height : ℤ) (u : UpgradeInfo) (c : Coordinator)
      → IsEarly plan (height, u)
      → IsRound plan c (prepare_upgrade write_ok height u c)
  unfolding prepare_upgrade
  prepare_upgrade-IsRound plan height u c e =
      if_both (IsRound plan c) (write_ok u)
        {x = record c { written = c.written ++ (height, u) ∷ [] }} {y = c}
        (
          refl,
          (
            λ a. All-append (IsEarly plan) c.written ((height, u) ∷ []) a (e, tt),
            λ w m. In-append_left w c.written ((height, u) ∷ []) m,
          ),
        )
        (IsRound-refl plan c)

  approach-IsRound :
      (plan : UpgradePlan) (answers : List (Option ConsensusState)) (s : ConsensusState)
      (u : UpgradeInfo) (c : Coordinator)
      → In u plan.upgrades
      → s.height <ℤ u.height
      → IsRound plan c (approach write_ok answers s u c)
  approach-IsRound plan answers s u c m h =
      rw (approach_below answers s u c h) (elim (Bool-cases (near s u)) [
        | inl e ↦
            rw e
              (prepare_upgrade-IsRound plan s.height u c (m, (h, within (u.height -ℤ s.height) e)))
        | inr e ↦ rw e (IsRound-refl plan c)
      ])

  on_state-IsRound :
      (plan : UpgradePlan) (s : Option ConsensusState) (answers : List (Option ConsensusState))
      (c : Coordinator)
      → IsRound plan c (on_state write_ok plan (s, answers) c).0
  unfolding on_state
  on_state-IsRound plan none answers c = IsRound-refl plan c
  on_state-IsRound plan (some s) answers c =
      elim (Option-cases (get_next_upgrade plan.upgrades s.height)) [
        | inl e ↦ rw (e, on_state) (IsRound-refl plan c)
        | inr (u, e) ↦
            let (m, above) = get_next_upgrade-above plan.upgrades s.height u e in
            rw (e, on_state) (approach-IsRound plan answers s u c m above)
      ]

  on_states-IsRound :
      (plan : UpgradePlan) (states : List (Option ConsensusState × List (Option ConsensusState)))
      (c : Coordinator)
      → IsRound plan c (on_states write_ok plan states c).0
  unfolding on_states
  on_states-IsRound plan [] c = IsRound-refl plan c
  on_states-IsRound plan ((s, answers) ∷ states) c =
      let r = on_state write_ok plan (s, answers) c in
      let first = on_state-IsRound plan s answers c in
      elim (Bool-cases (r.1)) [
        | inl e ↦ rw (e, on_states) first
        | inr e ↦
            rw (e, on_states)
              (IsRound-trans plan c (r.0) (on_states write_ok plan states (r.0)).0 first
                (on_states-IsRound plan states (r.0)))
      ]

  -- Whatever consensus states the coordinator sees, it never calls triggerUpgrade, and each write of
  -- the upgrade file is for an upgrade of the plan and comes one to ten blocks before its height.
  pub on_states-IsEarly :
      (plan : UpgradePlan) (states : List (Option ConsensusState × List (Option ConsensusState)))
      (c : Coordinator)
      → c.written ≡ []
      → ((on_states write_ok plan states c).0.triggered ≡ c.triggered)
        × All (IsEarly plan) (on_states write_ok plan states c).0.written
  on_states-IsEarly plan states c h =
      let (untriggered, (early, kept)) = on_states-IsRound plan states c in
      (untriggered, early (rw h tt))

  written_now :
      (answers : List (Option ConsensusState)) (s : ConsensusState) (u : UpgradeInfo)
      (c : Coordinator)
      → s.height <ℤ u.height
      → near s u ≡ true
      → write_ok u ≡ true
      → In (s.height, u) (approach write_ok answers s u c).written
  unfolding prepare_upgrade
  written_now answers s u c h n w =
      rw (approach_below answers s u c h, n, w, prepare_upgrade)
        (In-append_right (s.height, u) c.written ((s.height, u) ∷ []) (inl refl))

  on_states-append :
      (plan : UpgradePlan)
      (before after : List (Option ConsensusState × List (Option ConsensusState))) (c : Coordinator)
      → (on_states write_ok plan before c).1 ≡ false
      → on_states write_ok plan (before ++ after) c
        ≡ on_states write_ok plan after (on_states write_ok plan before c).0
  unfolding on_states
  on_states-append plan [] after c h = refl
  on_states-append plan (s ∷ before) after c h = elim (Bool-cases (on_state write_ok plan s c).1) [
    | inl e ↦ ground (arith, e, h)
    | inr e ↦
        ground (arith, e, h, on_states-append plan before after (on_state write_ok plan s c).0)
  ]

  on_states-next :
      (plan : UpgradePlan) (after : List (Option ConsensusState × List (Option ConsensusState)))
      (s : ConsensusState) (answers : List (Option ConsensusState)) (u : UpgradeInfo)
      (c : Coordinator)
      → get_next_upgrade plan.upgrades s.height ≡ some u
      → on_states write_ok plan ((some s, answers) ∷ after) c
        ≡ on_states write_ok plan after (approach write_ok answers s u c)
  unfolding on_states on_state
  on_states-next plan after s answers u c e = ground (arith, e)

  -- If the next upgrade is at most ten blocks away at some state that the coordinator sees before
  -- its plan is completed, and the file can be written, then the file is written for this upgrade,
  -- whatever came before and comes after.
  pub on_states-written :
      (plan : UpgradePlan)
      (before after : List (Option ConsensusState × List (Option ConsensusState)))
      (s : ConsensusState) (answers : List (Option ConsensusState)) (u : UpgradeInfo)
      (c : Coordinator)
      → (on_states write_ok plan before c).1 ≡ false
      → get_next_upgrade plan.upgrades s.height ≡ some u
      → near s u ≡ true
      → write_ok u ≡ true
      → In (s.height, u) (on_states write_ok plan (before ++ (some s, answers) ∷ after) c).0.written
  on_states-written plan before after s answers u c h e n w =
      let d = (on_states write_ok plan before c).0 in
      let (kept_plan, (early, kept)) =
        on_states-IsRound plan after (approach write_ok answers s u d) in
      rw
        (
          on_states-append plan before ((some s, answers) ∷ after) c h,
          on_states-next plan after s answers u d e,
        )
        (kept (s.height, u)
          (written_now answers s u d (get_next_upgrade-above plan.upgrades s.height u e).1 n w))
