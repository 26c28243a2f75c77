-- ===== src/Hooks/Checks.antt =====
-- Runs of the hook, and its theorem at a concrete input.
use wemixvisor.Base.{ℕ, ◌≤◌, ◌<◌, ◌≡◌, refl, none, some, Bool, true, false, str_dec, leb}
use wemixvisor.Base.Int.{pos}
use wemixvisor.Hooks.{present, retry, enough, run_script, execute_script, execute}
use wemixvisor.Hooks.Retries.{Outcome, run_script_total}

-- a script that succeeds at its third run
abbrev third : ℕ → Bool
third i = leb 2 i

retries : retry third (pos 3) (enough (pos 3)) 0 ≡ some (true, 3)
unfolding retry
retries = refl

gives_up : retry third (pos 1) (enough (pos 1)) 0 ≡ some (false, 2)
unfolding retry
gives_up = refl

executes : execute (λ s. present true) third "hook.sh" "pre-upgrade" (pos 3) true ≡ none
unfolding execute execute_script run_script retry str_dec
executes = refl

run_script_total_example :
    (r : Bool × ℕ) × ((retry third (pos 3) (enough (pos 3)) 0 ≡ some r)
      × ((0 < r.1) × ((r.1 ≤ enough (pos 3)) × Outcome third (pos 3) 0 r)))
run_script_total_example = run_script_total third (pos 3)
