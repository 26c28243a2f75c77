-- ===== src/Workers.antt =====
-- The priority queue of internal/performance/worker.go. A task is what its interface gives; its
-- function is left out.
use wemixvisor.Base.{
  ℕ, suc, ◌+◌, Option, none, some, Bool, true, false, List, [], ◌∷◌, ◌++◌, String, length,
  if◌then◌else◌,
}
use wemixvisor.Base.Int.{ℤ, ltb_ℤ}
pub mod Priorities
mod Checks

pub record Task : Type 0 where
  pub id : String
  pub priority : ℤ

-- `Push`: in front of the first task of a smaller priority
unfoldable pub push : Task → List Task → List Task
push t [] = t ∷ []
push t (u ∷ queue) =
    let later = push t queue in if ltb_ℤ u.priority t.priority then t ∷ u ∷ queue else u ∷ later

-- `Pop`: the task and what is left
unfoldable pub pop : List Task → Option Task × List Task
pop [] = (none, [])
pop (t ∷ queue) = (some t, queue)

unfoldable pub push_all : List Task → List Task → List Task
push_all [] queue = queue
push_all (t ∷ ts) queue = push_all ts (push t queue)

-- one call of the queue
pub data Call : Type 0 where
  pushes : Task → Call
  pops : Call

-- the queue after the calls, and the tasks that were popped, in order
unfoldable pub run : List Call → List Task → List Task × List Task
run [] queue = (queue, [])
run (pushes t ∷ calls) queue = run calls (push t queue)
run (pops ∷ calls) queue =
    let (t, rest) = pop queue in
    let (queue', popped) = run calls rest in
    (queue', elim t [ none ↦ popped | some u ↦ u ∷ popped ])
