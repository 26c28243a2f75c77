-- ===== src/Config/Migrator/Progress.antt =====
-- The loop of `Migrate` ends: every round moves up the progression or reaches the target.
use wemixvisor.Base.{
  ℕ, zero, suc, ◌+◌, ◌≤◌, ◌<◌, ◌≡◌, ◌⊎◌, inl, inr, refl, some, Bool, true, false, List, [], ◌∷◌,
  String, length, In, arith, Bool-cases, if◌then◌else◌, ◌&&◌,
}
use wemixvisor.Base.Int.{ℤ, ◌≤ℤ◌, ◌<ℤ◌, ltb_ℤ, ltb_ℤ→lt, eq_ℤ→eq}
use wemixvisor.Config.{Config}
use wemixvisor.Config.Migrator.{
  Version, equal, greater_than, progression, next_in, get_next_version, Platform, migration,
  migrate_loop, enough, migrated, migrate, parse_version,
}

-- the order of the versions, as the comparison of major, minor and patch in turn
abbrev IsAbove : Version → Version → Type 0
IsAbove v w =
    (w.major <ℤ v.major)
    ⊎ ((w.major ≤ℤ v.major)
        × ((w.minor <ℤ v.minor) ⊎ ((w.minor ≤ℤ v.minor) × (w.patch <ℤ v.patch))))

IsAbove-trans : (a b c : Version) → IsAbove a b → IsAbove b c → IsAbove a c
IsAbove-trans a b c (inl h) (inl k) = inl (omega arith)
IsAbove-trans a b c (inl h) (inr (e, k)) = inl (omega arith)
IsAbove-trans a b c (inr (e, h)) (inl k) = inl (omega arith)
IsAbove-trans a b c (inr (e, inl h)) (inr (f, inl k)) = inr (omega arith, inl (omega arith))
IsAbove-trans a b c (inr (e, inl h)) (inr (f, inr (g, k))) = inr (omega arith, inl (omega arith))
IsAbove-trans a b c (inr (e, inr (h, i))) (inr (f, inl k)) = inr (omega arith, inl (omega arith))
IsAbove-trans a b c (inr (e, inr (h, i))) (inr (f, inr (g, k))) =
    inr (omega arith, inr (omega arith, omega arith))

first-cases :
    (x y : ℤ) (b : Bool)
    → (if ltb_ℤ y x then true else if ltb_ℤ x y then false else b) ≡ true
    → (y <ℤ x) ⊎ ((y ≤ℤ x) × (b ≡ true))
first-cases x y b h = ground arith

first-of :
    (x y : ℤ) (b : Bool)
    → (y <ℤ x) ⊎ ((y ≤ℤ x) × (b ≡ true))
    → (if ltb_ℤ y x then true else if ltb_ℤ x y then false else b) ≡ true
first-of x y b h = ground arith

greater_than→IsAbove : (v w : Version) → greater_than v w ≡ true → IsAbove v w
unfolding greater_than
greater_than→IsAbove v w h = elim (first-cases v.major w.major _ h) [
  | inl lt ↦ inl lt
  | inr (le, h') ↦ inr (
    le,
    elim (first-cases v.minor w.minor _ h') [
      | inl lt ↦ inl lt
      | inr (le', h'') ↦ inr (le', ltb_ℤ→lt w.patch v.patch h'')
    ],
  )
]

IsAbove→greater_than : (v w : Version) → IsAbove v w → greater_than v w ≡ true
unfolding greater_than
IsAbove→greater_than v w h = first-of v.major w.major _ (elim h [
  | inl lt ↦ inl lt
  | inr (le, h') ↦ inr (
    le,
    first-of v.minor w.minor _
        (elim h' [ inl lt ↦ inl lt | inr (le', lt) ↦ inr (le', ground arith) ]),
  )
])

greater_than_trans :
    (a b c : Version) → greater_than a b ≡ true → greater_than b c ≡ true → greater_than a c ≡ true
greater_than_trans a b c h k =
    IsAbove→greater_than a c
      (IsAbove-trans a b c (greater_than→IsAbove a b h) (greater_than→IsAbove b c k))

and3 : (a b c : Bool) → a && b && c ≡ true → (a ≡ true) × ((b ≡ true) × (c ≡ true))
and3 a b c h = ground arith

Version-eq : (a b : Version) → a.major ≡ b.major → a.minor ≡ b.minor → a.patch ≡ b.patch → a ≡ b
Version-eq a b e f g = cc

equal→eq : (a b : Version) → equal a b ≡ true → a ≡ b
unfolding equal
equal→eq a b h =
    let (e, (f, g)) = and3 _ _ _ h in Version-eq a b (eq_ℤ→eq _ _ e) (eq_ℤ→eq _ _ f) (eq_ℤ→eq _ _ g)

greater_than-equal :
    (a b c : Version) → equal b c ≡ true → greater_than a c ≡ true → greater_than a b ≡ true
greater_than-equal a b c h k = rw (equal→eq b c h) k

greater_than_irrefl : (a : Version) → greater_than a a ≡ false
unfolding greater_than
greater_than_irrefl a = ground arith

equal_refl : (a : Version) → equal a a ≡ true
unfolding equal
equal_refl a = ground arith

-- the versions above one
abbrev above : List Version → Version → ℕ
above [] x = 0
above (v ∷ vs) x = (if greater_than v x then 1 else 0) + above vs x

above-le : (vs : List Version) (w x : Version) → greater_than w x ≡ true → above vs w ≤ above vs x
above-le [] w x h = omega arith
above-le (v ∷ vs) w x h = ground (arith, greater_than_trans v w x, above-le vs w x)

above-lt :
    (vs : List Version) (w x : Version)
    → greater_than w x ≡ true
    → In w vs
    → above vs w < above vs x
above-lt [] w x h m = absurd m
above-lt (v ∷ vs) w x h (inl e) = rw e (ground (arith, greater_than_irrefl w, above-le vs w x h))
above-lt (v ∷ vs) w x h (inr m) = ground (arith, greater_than_trans v w x, above-lt vs w x h m)

above-le-length : (vs : List Version) (x : Version) → above vs x ≤ length vs
above-le-length [] x = omega arith
above-le-length (v ∷ vs) x = ground (arith, above-le-length vs x)

-- each version is above the one before
abbrev IsRising : List Version → Type 0
IsRising [] = Unit
IsRising (v ∷ []) = Unit
IsRising (v ∷ w ∷ vs) = (greater_than w v ≡ true) × IsRising (w ∷ vs)

next_in-here :
    (v w : Version) (vs : List Version) (current target : Version)
    → equal current v ≡ true
    → next_in (v ∷ w ∷ vs) current target ≡ (if greater_than w target then target else w)
unfolding next_in
next_in-here v w vs current target h = rw h refl

next_in-later :
    (v w : Version) (vs : List Version) (current target : Version)
    → equal current v ≡ false
    → next_in (v ∷ w ∷ vs) current target ≡ next_in (w ∷ vs) current target
unfolding next_in
next_in-later v w vs current target h = rw h refl

abbrev IsStep : List Version → Version → Version → Version → Type 0
IsStep vs current target next = (next ≡ target) ⊎ (In next vs × (greater_than next current ≡ true))

next_in_nil : (current target : Version) → next_in [] current target ≡ target
unfolding next_in
next_in_nil current target = refl

next_in_last : (v current target : Version) → next_in (v ∷ []) current target ≡ target
unfolding next_in
next_in_last v current target = refl

IsStep-of :
    (vs : List Version) (current target n m : Version)
    → n ≡ m
    → IsStep vs current target m
    → IsStep vs current target n
IsStep-of vs current target n m e s = rw e s

IsStep-later :
    (v : Version) (vs : List Version) (current target n : Version)
    → IsStep vs current target n
    → IsStep (v ∷ vs) current target n
IsStep-later v vs current target n (inl t) = inl t
IsStep-later v vs current target n (inr (m, g)) = inr (inr m, g)

next_in_cases :
    (vs : List Version) (current target : Version)
    → IsRising vs
    → IsStep vs current target (next_in vs current target)
next_in_cases [] current target r = inl (next_in_nil current target)
next_in_cases (v ∷ []) current target r = inl (next_in_last v current target)
next_in_cases (v ∷ w ∷ vs) current target (up, r) = elim (Bool-cases (equal current v)) [
  | inl e ↦ rw (next_in-here v w vs current target e) (elim (Bool-cases (greater_than w target)) [
    | inl g ↦ inl (rw g refl)
    | inr g ↦ rw g (inr (inr (inl refl), greater_than-equal w current v e up))
  ])
  | inr e ↦
      IsStep-of (v ∷ w ∷ vs) current target _ _ (next_in-later v w vs current target e)
        (IsStep-later v (w ∷ vs) current target _ (next_in_cases (w ∷ vs) current target r))
]

progression-IsRising : IsRising progression
unfolding greater_than
progression-IsRising = (refl, (refl, (refl, (refl, (refl, (refl, (refl, tt)))))))

module _ (p : Platform) where
  migrate_loop_reached :
      (fuel : ℕ) (to : Version) (c : Config) → migrate_loop p (suc fuel) to to c ≡ some c
  unfolding migrate_loop
  migrate_loop_reached fuel to c = rw (equal_refl to)

  migrate_loop_at :
      (fuel : ℕ) (current to : Version) (c : Config)
      → current ≡ to
      → migrate_loop p (suc fuel) current to c ≡ some c
  migrate_loop_at fuel current to c e = rw e (migrate_loop_reached fuel to c)

  migrate_loop_step :
      (fuel : ℕ) (current to : Version) (c : Config)
      → equal current to ≡ false
      → migrate_loop p (suc fuel) current to c
        ≡ migrate_loop p fuel
            (get_next_version current to)
            to
            (migration p current (get_next_version current to) c)
  unfolding migrate_loop
  migrate_loop_step fuel current to c h = rw h refl

  migrate_loop_total :
      (fuel : ℕ) (current to : Version) (c : Config)
      → above progression current + 2 ≤ fuel
      → (c' : Config) × (migrate_loop p fuel current to c ≡ some c')
  unfolding get_next_version
  migrate_loop_total zero current to c h = absurd (omega arith)
  migrate_loop_total (suc zero) current to c h = absurd (omega arith)
  migrate_loop_total (suc (suc fuel)) current to c h = elim (Bool-cases (equal current to)) [
    | inl e ↦ (c, migrate_loop_at (suc fuel) current to c (equal→eq current to e))
    | inr e ↦
        let next = get_next_version current to in
        let c' = migration p current next c in
        rw (migrate_loop_step (suc fuel) current to c e)
          (elim (next_in_cases progression current to progression-IsRising) [
            | inl t ↦ (c', migrate_loop_at fuel next to c' t)
            | inr (m, g) ↦
                migrate_loop_total (suc fuel) next to c'
                  (omega (arith, above-lt progression next current g m))
          ])
  ]

  migrate_same :
      (c : Config) (from_version to_version : String) (v w : Version)
      → parse_version p from_version ≡ some v
      → parse_version p to_version ≡ some w
      → equal v w ≡ true
      → migrate p (some c) from_version to_version ≡ migrated c
  unfolding migrate
  migrate_same c from_version to_version v w ev ew e = ground (arith, ev, ew, e)

  migrate_up :
      (c c' : Config) (from_version to_version : String) (v w : Version)
      → parse_version p from_version ≡ some v
      → parse_version p to_version ≡ some w
      → equal v w ≡ false
      → greater_than v w ≡ false
      → migrate_loop p enough v w c ≡ some c'
      → migrate p (some c) from_version to_version ≡ migrated c'
  unfolding migrate
  migrate_up c c' from_version to_version v w ev ew e g done = ground (arith, ev, ew, e, g, done)

  -- Between two versions that parse, the first not above the second, Migrate comes to an end and
  -- gives a configuration: ten rounds of its loop are enough for any versions.
  pub migrate_total :
      (c : Config) (from_version to_version : String) (v w : Version)
      → parse_version p from_version ≡ some v
      → parse_version p to_version ≡ some w
      → greater_than v w ≡ false
      → (c' : Config) × (migrate p (some c) from_version to_version ≡ migrated c')
  migrate_total c from_version to_version v w ev ew g = elim (Bool-cases (equal v w)) [
    | inl e ↦ (c, migrate_same c from_version to_version v w ev ew e)
    | inr e ↦
        let (c', done) =
          migrate_loop_total enough v w c (omega (arith, above-le-length progression v)) in
        (c', migrate_up c c' from_version to_version v w ev ew e g done)
  ]
