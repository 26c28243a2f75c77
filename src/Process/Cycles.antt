-- ===== src/Process/Cycles.antt =====
-- The cycles of the main loop in which an upgrade is detected.
use wemixvisor.Base.{◌≡◌, refl, Option, none, true, false, List, [], ◌∷◌, ◌++◌, All, arith}
use wemixvisor.Types.{UpgradeInfo}
use wemixvisor.Process.{
  Settings, Host, StopAnswers, Event, tick, Start, Answers, ended, stop_process,
  wait_for_process_or_upgrade, run_process, goes_on, run_process_cycle, main_loop,
}

-- The process starts, runs through ticks without an update to one with an update, and is then
-- stopped without an error.
pub record Detects (c : Settings) (s : Start) : Type 0 where
  pub binary : s.binary_exists ≡ true
  pub started : s.start_ok ≡ true
  pub quiet : List Event
  pub later : List Event
  pub none_before : All (λ e. e ≡ tick false) quiet
  pub seen : s.events ≡ quiet ++ tick true ∷ later
  pub stopped : stop_process c s.answers ≡ none

wait_detects :
    (c : Settings) (a : StopAnswers) (quiet later : List Event)
    → All (λ e. e ≡ tick false) quiet
    → wait_for_process_or_upgrade c a (quiet ++ tick true ∷ later) ≡ ended (stop_process c a)
unfolding wait_for_process_or_upgrade
wait_detects c a [] later q = refl
wait_detects c a (e ∷ quiet) later (h, q) = rw h (wait_detects c a quiet later q)

run_process-Detects : (c : Settings) (s : Start) → Detects c s → run_process c s ≡ ended none
unfolding run_process
run_process-Detects c s d = ground (
  arith,
  d.binary,
  d.started,
  d.seen,
  d.stopped,
  wait_detects c s.answers d.quiet d.later d.none_before,
)

run_process_cycle-Detects :
    (c : Settings) (upgrade : Option UpgradeInfo) (s : Start) (a : Answers) (h : Host)
    → Detects c s
    → run_process_cycle c upgrade s a h ≡ goes_on h
unfolding run_process_cycle
run_process_cycle-Detects c upgrade s a h d = ground (arith, run_process-Detects c s d)

-- However many cycles detect an upgrade and stop the process without an error, the main loop
-- performs none: it goes on with the same binary and restores nothing.
pub main_loop-Detects :
    (c : Settings) (cycles : List (Option UpgradeInfo × (Start × Answers))) (h : Host)
    → All (λ x. Detects c (x.1.0)) cycles
    → main_loop c cycles h ≡ (h, none)
unfolding main_loop
main_loop-Detects c [] h d = refl
main_loop-Detects c ((upgrade, (s, a)) ∷ cycles) h (d, ds) =
    ground (arith, run_process_cycle-Detects c upgrade s a h d, main_loop-Detects c cycles h ds)
