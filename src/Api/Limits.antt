-- ===== src/Api/Limits.antt =====
-- The times of one address: those that are kept agree with those that were admitted, and the
-- limiter's test bounds both.
use wemixvisor.Base.{
  ℕ, ◌+◌, ◌≤◌, ◌≡◌, refl, sym, ap, ◌∙◌, true, false, List, [], ◌∷◌, ◌++◌, length, length-append,
  arith, Bool-cases, inl, inr, if◌then◌else◌,
}
use wemixvisor.Base.Int.{ℤ, pos, pos_part, ◌≤ℤ◌, ◌-ℤ◌, leb_ℤ}
use wemixvisor.Api.{minute, later_than, admit}

later_than-append :
    (m : ℤ) (xs ys : List ℤ) → later_than m (xs ++ ys) ≡ later_than m xs ++ later_than m ys
unfolding later_than
later_than-append m [] ys = refl
later_than-append m (x ∷ xs) ys = ground (arith, later_than-append m xs ys)

later_than-later_than :
    (m n : ℤ) (xs : List ℤ) → n ≤ℤ m → later_than m (later_than n xs) ≡ later_than m xs
unfolding later_than
later_than-later_than m n [] h = refl
later_than-later_than m n (x ∷ xs) h = ground (arith, h, later_than-later_than m n xs h)

length-later_than-le :
    (m n : ℤ) (xs : List ℤ) → n ≤ℤ m → length (later_than m xs) ≤ length (later_than n xs)
unfolding later_than
length-later_than-le m n [] h = omega arith
length-later_than-le m n (x ∷ xs) h = ground (arith, h, length-later_than-le m n xs h)

length-later_than-one : (m t : ℤ) → length (later_than m (t ∷ [])) ≤ 1
unfolding later_than
length-later_than-one m t = ground arith

pub sub_mono : (a b : ℤ) → a ≤ℤ b → a -ℤ minute ≤ℤ b -ℤ minute
sub_mono a b h = ground (arith, h)

le_trans : (a b c : ℤ) → a ≤ℤ b → b ≤ℤ c → a ≤ℤ c
le_trans a b c h k = omega (arith, h, k)

-- the times kept for the address and all that were admitted
abbrev pub Served : Type 0
Served = List ℤ × List ℤ

abbrev pub serve : ℤ → ℤ → Served → Served
serve limit now (times, log) =
    let (times', ok) = admit limit now times in (times', if ok then log ++ now ∷ [] else log)

abbrev pub IsLimited : ℤ → ℤ → Served → Type 0
IsLimited limit last (times, log) =
    ((m : ℤ) → last -ℤ minute ≤ℤ m → later_than m times ≡ later_than m log)
    × (length (later_than (last -ℤ minute) log) ≤ pos_part limit)

admit-refused :
    (limit now : ℤ) (times : List ℤ)
    → leb_ℤ limit (pos (length (later_than (now -ℤ minute) times))) ≡ true
    → admit limit now times ≡ (later_than (now -ℤ minute) times, false)
unfolding admit
admit-refused limit now times e = rw e refl

admit-admitted :
    (limit now : ℤ) (times : List ℤ)
    → leb_ℤ limit (pos (length (later_than (now -ℤ minute) times))) ≡ false
    → admit limit now times ≡ (later_than (now -ℤ minute) times ++ now ∷ [], true)
unfolding admit
admit-admitted limit now times e = rw e refl

below_limit : (limit : ℤ) (n : ℕ) → leb_ℤ limit (pos n) ≡ false → n + 1 ≤ pos_part limit
below_limit limit n h = ground (arith, h)

length-append_one :
    (m now : ℤ) (recent log : List ℤ)
    → recent ≡ later_than m log
    → length (later_than m (log ++ now ∷ [])) ≤ length recent + 1
length-append_one m now recent log e = omega (
  arith,
  ap length (later_than-append m log (now ∷ [])),
  length-append (later_than m log) (later_than m (now ∷ [])),
  length-later_than-one m now,
  ap length e,
)

pub serve-IsLimited :
    (limit last now : ℤ) (times log : List ℤ)
    → last ≤ℤ now
    → IsLimited limit last (times, log)
    → IsLimited limit now (serve limit now (times, log))
serve-IsLimited limit last now times log fwd (same, bound) =
    let from = sub_mono last now fwd in
    let start = now -ℤ minute in
    let recent = later_than start times in
    let equal_recent : recent ≡ later_than start log = same start from in
    let kept : (m : ℤ) → start ≤ℤ m → later_than m recent ≡ later_than m log =
      λ m h. later_than-later_than m start times h ∙ same m (le_trans _ start m from h) in
    elim (Bool-cases (leb_ℤ limit (pos (length recent)))) [
      | inl e ↦
          rw (admit-refused limit now times e)
            (kept, omega (arith, length-later_than-le start (last -ℤ minute) log from, bound))
      | inr e ↦ rw (admit-admitted limit now times e) (
        (λ m h.
            later_than-append m recent (now ∷ [])
            ∙ (ap (λ l. l ++ later_than m (now ∷ [])) (kept m h)
                ∙ sym (later_than-append m log (now ∷ [])))),
        omega (
          arith,
          length-append_one start now recent log equal_recent,
          below_limit limit (length recent) e,
        ),
      )
    ]

pub wait-IsLimited :
    (limit last now : ℤ) (s : Served) → last ≤ℤ now → IsLimited limit last s → IsLimited limit now s
wait-IsLimited limit last now (times, log) fwd (same, bound) =
    let from = sub_mono last now fwd in
    (
      (λ m h. same m (le_trans _ _ m from h)),
      omega (arith, length-later_than-le (now -ℤ minute) (last -ℤ minute) log from, bound),
    )
