-- ===== src/Node/Budget.antt =====
-- The number of restarts of the node manager.
use wemixvisor.Base.{
  ℕ, ◌+◌, ◌-◌, ◌≤◌, ◌≡◌, ◌≢◌, refl, ◌∙◌, Bool, true, List, [], ◌∷◌, String, arith, is_some,
  Bool-cases, inl, inr, All, ◌==◌, ◌||◌,
}
use wemixvisor.Base.Int.{ℤ}
use wemixvisor.Node.{
  NodeState, Manager, StartEnv, StopEnv, new_manager, start, stop, restart, monitor_exit,
  handle_process_crash, should_auto_restart, close_done_ch, start_again, reset_state, renew_done_ch,
  set_node_args, cleanup_state, is_stopped, is_running, is_stopping,
}
use wemixvisor.Node.Events.{
  Event, start_call, stop_call, restart_call, auto_restart, process_exit, set_args_call, step, run,
  start_cases, stop_cases, start_again_cases, restart_cases,
}

-- an event that no user's call of `Restart` is
abbrev pub IsAutomatic : Event → Type 0
IsAutomatic (start_call env args) = Unit
IsAutomatic (stop_call env) = Unit
IsAutomatic (restart_call stop_env env) = ⊥
IsAutomatic (auto_restart stop_env env) = Unit
IsAutomatic process_exit = Unit
IsAutomatic (set_args_call args) = Unit

abbrev is_idle : NodeState → Bool
is_idle s = is_running s || is_stopping s || is_stopped s

-- No restart is due while the node runs, stops or is stopped, and the restarts made and due stay
-- within the maximum.
record IsWithin (most : ℕ) (m : Manager) : Type 0 where
  same : m.max_restarts ≡ most
  within : m.restart_count + m.pending_restarts ≤ most
  single : m.pending_restarts ≤ 1
  idle : is_idle m.state ≡ true → m.pending_restarts ≡ 0

start-IsWithin :
    (most : ℕ) (env : StartEnv) (args : List String) (m : Manager)
    → IsWithin most m
    → IsWithin most (start env args m).0
start-IsWithin most env args m w = elim (start_cases env args m) [
  | inl e ↦ rw e w
  | inr (inl e) ↦
      rw e
        (record { same = w.same; within = w.within; single = w.single; idle = λ i. ground arith })
  | inr (inr (pid, s, e)) ↦ rw e (record {
    same = w.same;
    within = w.within;
    single = w.single;
    idle = λ i. w.idle (ground arith);
  })
]

stop-IsWithin :
    (most : ℕ) (env : StopEnv) (m : Manager) → IsWithin most m → IsWithin most (stop env m).0
unfolding cleanup_state close_done_ch
stop-IsWithin most env m w = elim (stop_cases env m) [
  | inl e ↦ rw e w
  | inr (inl (r, e)) ↦ rw e (record {
    same = w.same;
    within = w.within;
    single = w.single;
    idle = λ i. w.idle (ground arith);
  })
  | inr (inr (r, e)) ↦ rw e (record {
    same = w.same;
    within = w.within;
    single = w.single;
    idle = λ i. w.idle (ground arith);
  })
]

handle_process_crash-IsWithin :
    (most : ℕ) (m : Manager)
    → IsWithin most m
    → m.pending_restarts ≡ 0
    → IsWithin most (handle_process_crash m)
unfolding handle_process_crash close_done_ch should_auto_restart
handle_process_crash-IsWithin most m w z = record {
  same = ground (arith, w.same);
  within = ground (arith, w.within);
  single = ground arith;
  idle = λ i. ground arith;
}

-- what a restart may change of the counters
abbrev SameCounts : ℕ → Manager → Manager → Type 0
SameCounts by k m =
    (k.pending_restarts ≡ m.pending_restarts)
    × (k.max_restarts ≡ m.max_restarts)
    × (k.restart_count ≤ m.restart_count + by)

start_counts :
    (env : StartEnv) (args : List String) (m : Manager) → SameCounts 0 (start env args m).0 m
start_counts env args m = elim (start_cases env args m) [
  | inl e ↦ rw e (refl, refl, omega arith)
  | inr (inl e) ↦ rw e (refl, refl, omega arith)
  | inr (inr (pid, s, e)) ↦ rw e (refl, refl, omega arith)
]

stop_counts : (env : StopEnv) (m : Manager) → SameCounts 0 (stop env m).0 m
unfolding cleanup_state close_done_ch
stop_counts env m = elim (stop_cases env m) [
  | inl e ↦ rw e (refl, refl, omega arith)
  | inr (inl (r, e)) ↦ rw e (refl, refl, omega arith)
  | inr (inr (r, e)) ↦ rw e (refl, refl, omega arith)
]

renew_counts : (m : Manager) → SameCounts 0 (renew_done_ch m) m
unfolding renew_done_ch
renew_counts m = elim (Bool-cases (is_some m.done_ch)) [
  | inl e ↦ rw e (refl, refl, omega arith)
  | inr e ↦ rw e (refl, refl, omega arith)
]

start_again_counts :
    (env : StartEnv) (args : List String) (m : Manager) → SameCounts 1 (start_again env args m).0 m
start_again_counts env args m = elim (start_again_cases env args m) [
  | inl e ↦ rw e (ground (arith, start_counts env args (renew_done_ch m), renew_counts m))
  | inr e ↦ rw e (ground (arith, start_counts env args (renew_done_ch m), renew_counts m))
]

restart_counts :
    (stop_env : StopEnv) (env : StartEnv) (m : Manager) → SameCounts 1 (restart stop_env env m).0 m
unfolding reset_state
restart_counts stop_env env m = elim (restart_cases stop_env env m) [
  | inl e ↦ rw e (ground (arith, stop_counts stop_env m))
  | inr (k, e, inl d) ↦
      rw e (ground (arith, d, start_again_counts env m.node_args k, stop_counts stop_env m))
  | inr (k, e, inr (inl d)) ↦ rw e (ground (arith, d, start_again_counts env m.node_args k))
  | inr (k, e, inr (inr d)) ↦ rw e (ground (arith, d, start_again_counts env m.node_args k))
]

auto_restart-IsWithin :
    (most : ℕ) (stop_env : StopEnv) (env : StartEnv) (m : Manager)
    → IsWithin most m
    → m.pending_restarts ≢ 0
    → IsWithin most
        (restart stop_env env (record m { pending_restarts = m.pending_restarts - 1 })).0
auto_restart-IsWithin most stop_env env m w n =
    let (p, x, c) =
      restart_counts stop_env env (record m { pending_restarts = m.pending_restarts - 1 }) in
    let z : m.pending_restarts - 1 ≡ 0 = ground (arith, w.single) in
    record {
      same = x ∙ w.same;
      within = ground (arith, w.within);
      single = ground arith;
      idle = λ i. p ∙ z;
    }

step-IsWithin :
    (most : ℕ) (e : Event) (m : Manager)
    → IsAutomatic e
    → IsWithin most m
    → IsWithin most (step e m)
unfolding step set_node_args monitor_exit
step-IsWithin most (start_call env args) m a w = start-IsWithin most env args m w
step-IsWithin most (stop_call env) m a w = stop-IsWithin most env m w
step-IsWithin most (restart_call stop_env env) m a w = ground arith
step-IsWithin most (auto_restart stop_env env) m a w = elim (Bool-cases (m.pending_restarts == 0)) [
  | inl e ↦ rw e w
  | inr e ↦ rw e (auto_restart-IsWithin most stop_env env m w (ground arith))
]
step-IsWithin most process_exit m a w =
    elim (Bool-cases (is_running m.state || is_stopping m.state)) [
      | inr e ↦ rw e w
      | inl e ↦ rw e (elim (Bool-cases (is_stopping m.state)) [
        | inl s ↦ rw s w
        | inr s ↦ rw s (handle_process_crash-IsWithin most m w (w.idle (ground arith)))
      ])
    ]
step-IsWithin most (set_args_call args) m a w = record {
  same = w.same;
  within = w.within;
  single = w.single;
  idle = w.idle;
}

run-IsWithin :
    (most : ℕ) (es : List Event) (m : Manager)
    → All IsAutomatic es
    → IsWithin most m
    → IsWithin most (run es m)
unfolding run
run-IsWithin most [] m all w = w
run-IsWithin most (e ∷ es) m (a, all) w =
    run-IsWithin most es (step e m) all (step-IsWithin most e m a w)

new_manager-IsWithin :
    (max_restarts : ℤ) (restart_on_failure : Bool)
    → IsWithin
        (new_manager max_restarts restart_on_failure).max_restarts
        (new_manager max_restarts restart_on_failure)
unfolding new_manager
new_manager-IsWithin max_restarts restart_on_failure = record {
  same = refl;
  within = ground arith;
  single = ground arith;
  idle = λ i. refl;
}

-- After any events on a new manager among which no user's restart is, the restarts made and those
-- that are due are together no more than the maximum, which is still the one it was made with.
pub restarts_bounded :
    (max_restarts : ℤ) (restart_on_failure : Bool) (es : List Event)
    → All IsAutomatic es
    → let m = run es (new_manager max_restarts restart_on_failure) in
      (m.restart_count + m.pending_restarts
        ≤ (new_manager max_restarts restart_on_failure).max_restarts)
      × (m.max_restarts ≡ (new_manager max_restarts restart_on_failure).max_restarts)
restarts_bounded max_restarts restart_on_failure es all =
    let m = new_manager max_restarts restart_on_failure in
    let w =
      run-IsWithin m.max_restarts es m all (new_manager-IsWithin max_restarts restart_on_failure) in
    (w.within, w.same)
