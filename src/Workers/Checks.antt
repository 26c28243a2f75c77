-- ===== src/Workers/Checks.antt =====
-- Runs of the priority queue, and its theorems at concrete inputs.
use wemixvisor.Base.{◌≡◌, refl, some, List, [], ◌∷◌, String}
use wemixvisor.Base.Int.{ℤ, pos}
use wemixvisor.Base.Sort.{sort}
use wemixvisor.Workers.{Task, push, pop, push_all, Call, pushes, pops, run}
use wemixvisor.Workers.Priorities.{higher, push_all_exact}

abbrev task : String → ℤ → Task
task id p = record { id = id; priority = p }

abbrev given : List Task
given = task "a" (pos 1) ∷ task "b" (pos 5) ∷ task "c" (pos 1) ∷ task "d" (pos 5) ∷ []

queue_of_given :
    push_all given []
    ≡ task "b" (pos 5) ∷ task "d" (pos 5) ∷ task "a" (pos 1) ∷ task "c" (pos 1) ∷ []
unfolding push_all push
queue_of_given = refl

push_all_exact_example : push_all given [] ≡ sort higher given
push_all_exact_example = push_all_exact given

abbrev calls : List Call
calls =
    pushes (task "a" (pos 1)) ∷ pushes (task "b" (pos 5)) ∷ pops ∷ pushes (task "c" (pos 3)) ∷ []

next_popped : pop (run calls []).0 ≡ (some (task "c" (pos 3)), task "a" (pos 1) ∷ [])
unfolding run pop push
next_popped = refl
