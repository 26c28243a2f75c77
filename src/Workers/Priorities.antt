-- ===== src/Workers/Priorities.antt =====
-- The queue gives tasks by priority, and those of one priority in the order of their submission.
use wemixvisor.Base.{
  ◌≡◌, refl, ap, ◌∙◌, Option, some, Bool, true, false, List, [], ◌∷◌, arith, Bool-cases, inl, inr,
  if_both, All, All-map_imp,
}
use wemixvisor.Base.Int.{ltb_ℤ}
use wemixvisor.Base.Sort.{place, sort, IsSorted}
use wemixvisor.Workers.{Task, push, pop, push_all, Call, pushes, pops, run}

-- one priority is above the other
abbrev pub higher : Task → Task → Bool
higher t u = ltb_ℤ u.priority t.priority

push-place :
    (t x : Task) (queue : List Task) → push t (place higher x queue) ≡ place higher x (push t queue)
unfolding push place
push-place t x [] = ground arith
push-place t x (y ∷ queue) = ground (arith, push-place t x queue)

push_all-place :
    (x : Task) (ts queue : List Task)
    → push_all ts (place higher x queue) ≡ place higher x (push_all ts queue)
unfolding push_all
push_all-place x [] queue = refl
push_all-place x (t ∷ ts) queue =
    ap (push_all ts) (push-place t x queue) ∙ push_all-place x ts (push t queue)

push-empty : (t : Task) → push t [] ≡ place higher t []
unfolding push place
push-empty t = refl

-- Tasks pushed one after the other into an empty queue stand in it as a stable sort by priority
-- has them: the higher priority first, and equal ones in the order in which they came.
pub push_all_exact : (ts : List Task) → push_all ts [] ≡ sort higher ts
unfolding push_all sort
push_all_exact [] = refl
push_all_exact (t ∷ ts) =
    ap (push_all ts) (push-empty t)
    ∙ (push_all-place t ts [] ∙ ap (place higher t) (push_all_exact ts))

push-All :
    (P : Task → Type 0) (t : Task) (queue : List Task) → P t → All P queue → All P (push t queue)
unfolding push
push-All P t [] p h = (p, tt)
push-All P t (u ∷ queue) p h =
    if_both (All P) (ltb_ℤ u.priority t.priority) (p, h) (h.0, push-All P t queue p h.1)

higher_trans : (a b c : Task) → higher a b ≡ true → higher c b ≡ false → higher c a ≡ false
higher_trans a b c h k = ground (arith, h, k)

higher_asym : (a b : Task) → higher a b ≡ true → higher b a ≡ false
higher_asym a b h = ground (arith, h)

push-IsSorted :
    (t : Task) (queue : List Task) → IsSorted higher queue → IsSorted higher (push t queue)
unfolding push
push-IsSorted t [] h = (tt, tt)
push-IsSorted t (u ∷ queue) (h, hs) = elim (Bool-cases (higher t u)) [
  | inl e ↦
      rw (e, push)
        (
          (
            higher_asym t u e,
            All-map_imp (λ v. higher v u ≡ false) (λ v. higher v t ≡ false)
                (λ v k. higher_trans t u v e k) queue h,
          ),
          (h, hs),
        )
  | inr e ↦ rw (e, push) (push-All (λ v. higher v u ≡ false) t queue e h, push-IsSorted t queue hs)
]

run-IsSorted :
    (calls : List Call) (queue : List Task)
    → IsSorted higher queue
    → IsSorted higher (run calls queue).0
unfolding run pop
run-IsSorted [] queue h = h
run-IsSorted (pushes t ∷ calls) queue h =
    run-IsSorted calls (push t queue) (push-IsSorted t queue h)
run-IsSorted (pops ∷ calls) [] h = run-IsSorted calls [] h
run-IsSorted (pops ∷ calls) (t ∷ queue) h = run-IsSorted calls queue h.1

pop-highest :
    (queue : List Task) (t : Task) (rest : List Task)
    → IsSorted higher queue
    → pop queue ≡ (some t, rest)
    → All (λ u. higher u t ≡ false) rest
unfolding pop
pop-highest [] t rest h e = absurd (cc (ap (λ (r : Option Task × List Task). r.0) e))
pop-highest (u ∷ queue) t rest h e =
    let same : u ≡ t = cc (ap (λ (r : Option Task × List Task). r.0) e) in
    let left : queue ≡ rest = ap (λ (r : Option Task × List Task). r.1) e in rw (← same, ← left) h.0

-- After any pushes and pops on an empty queue, the task that Pop gives next has a priority that no
-- task left in the queue exceeds.
pub pop-run :
    (calls : List Call) (t : Task) (rest : List Task)
    → pop (run calls []).0 ≡ (some t, rest)
    → All (λ u. higher u t ≡ false) rest
pop-run calls t rest h = pop-highest (run calls []).0 t rest (run-IsSorted calls [] tt) h
