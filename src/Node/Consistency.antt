-- ===== src/Node/Consistency.antt =====
-- The states of the node manager that runs reach, and what a stop makes of them.
use wemixvisor.Base.{
  ℕ, ◌+◌, ◌-◌, ◌<◌, ◌≡◌, refl, Option, none, some, Bool, true, false, List, [], ◌∷◌, String, arith,
  is_some, Bool-cases, inl, inr, All, ◌==◌, ◌||◌, ◌&&◌, ltb,
}
use wemixvisor.Base.Int.{ℤ}
use wemixvisor.Node.{
  NodeState, stopped, starting, running, stopping, upgrading, error, crashed, Manager, StartEnv,
  StopEnv, new_manager, start, stop, restart, monitor_exit, handle_process_crash,
  should_auto_restart, close_done_ch, start_again, reset_state, renew_done_ch, set_node_args,
  cleanup_state, contains_ch, is_running, is_stopping, close_ch,
}
use wemixvisor.Node.Events.{
  Event, start_call, stop_call, restart_call, auto_restart, process_exit, set_args_call, step, run,
  start_cases, stop_cases, start_again_cases, restart_cases,
}

-- The process of the state is there, and the channel to wait for has not been closed.
abbrev pub HasProcess : NodeState → Option ℕ → Type 0
HasProcess running p = is_some p ≡ true
HasProcess stopping p = is_some p ≡ true
HasProcess stopped p = p ≡ none
HasProcess starting p = ⊥
HasProcess upgrading p = ⊥
HasProcess error p = Unit
HasProcess crashed p = Unit

abbrev pub IsOpen : Option ℕ → ℕ → List ℕ → Type 0
IsOpen none next closed = Unit
IsOpen (some c) next closed = (c < next) × (contains_ch c closed ≡ false)

abbrev pub HasChannels : Manager → Type 0
HasChannels m = IsOpen m.done_ch m.next_ch m.closed × All (λ c. c < m.next_ch) m.closed

pub record IsConsistent (m : Manager) : Type 0 where
  pub has_process : HasProcess m.state m.process
  pub has_channels : HasChannels m

contains_ch_made : (n : ℕ) (cs : List ℕ) → All (λ c. c < n) cs → contains_ch n cs ≡ false
contains_ch_made n [] all = refl
contains_ch_made n (c ∷ cs) (lt, all) = ground (arith, contains_ch_made n cs all)

made_suc : (n : ℕ) (cs : List ℕ) → All (λ c. c < n) cs → All (λ c. c < n + 1) cs
made_suc n [] all = all
made_suc n (c ∷ cs) (lt, all) = (omega arith, made_suc n cs all)

close_ch_made :
    (o : Option ℕ) (n : ℕ) (cs : List ℕ)
    → IsOpen o n cs
    → All (λ c. c < n) cs
    → All (λ c. c < n) (close_ch o cs)
close_ch_made none n cs o all = all
close_ch_made (some c) n cs (lt, _) all = (lt, all)

close_done_ch-HasChannels : (m : Manager) → HasChannels m → HasChannels (close_done_ch m)
unfolding close_done_ch
close_done_ch-HasChannels m (o, made) = (tt, close_ch_made m.done_ch m.next_ch m.closed o made)

start-IsConsistent :
    (env : StartEnv) (args : List String) (m : Manager)
    → IsConsistent m
    → IsConsistent (start env args m).0
start-IsConsistent env args m c = elim (start_cases env args m) [
  | inl e ↦ rw e c
  | inr (inl e) ↦ rw e (record { has_process = tt; has_channels = c.has_channels })
  | inr (inr (pid, s, e)) ↦ rw e (record { has_process = refl; has_channels = c.has_channels })
]

handle_process_crash-IsConsistent :
    (m : Manager) → HasChannels m → IsConsistent (handle_process_crash m)
unfolding handle_process_crash close_done_ch should_auto_restart
handle_process_crash-IsConsistent m h =
    elim (Bool-cases (m.restart_on_failure && ltb m.restart_count m.max_restarts)) [
      | inl e ↦ rw e (record { has_process = tt; has_channels = close_done_ch-HasChannels m h })
      | inr e ↦ rw e (record { has_process = tt; has_channels = close_done_ch-HasChannels m h })
    ]

running_process :
    (s : NodeState) (p : Option ℕ) → is_running s ≡ true → HasProcess s p → is_some p ≡ true
running_process running p r h = h
running_process stopping p r h = h
running_process stopped p r h = ground arith
running_process starting p r h = ground arith
running_process upgrading p r h = ground arith
running_process error p r h = ground arith
running_process crashed p r h = ground arith

stop-IsConsistent : (env : StopEnv) (m : Manager) → IsConsistent m → IsConsistent (stop env m).0
unfolding cleanup_state close_done_ch
stop-IsConsistent env m c = elim (stop_cases env m) [
  | inl e ↦ rw e c
  | inr (inl (r, e)) ↦ rw e (record {
    has_process = running_process m.state m.process r c.has_process;
    has_channels = c.has_channels;
  })
  | inr (inr (r, e)) ↦
      rw e
        (record { has_process = refl; has_channels = close_done_ch-HasChannels m c.has_channels })
]

renew_done_ch-IsConsistent : (m : Manager) → IsConsistent m → IsConsistent (renew_done_ch m)
unfolding renew_done_ch
renew_done_ch-IsConsistent m c = elim (Bool-cases (is_some m.done_ch)) [
  | inl e ↦ rw e c
  | inr e ↦
      let made = c.has_channels.1 in
      rw e (record {
        has_process = c.has_process;
        has_channels = (
          (omega arith, contains_ch_made m.next_ch m.closed made),
          made_suc m.next_ch m.closed made,
        );
      })
]

start_again-IsConsistent :
    (env : StartEnv) (args : List String) (m : Manager)
    → IsConsistent m
    → IsConsistent (start_again env args m).0
start_again-IsConsistent env args m c =
    let k = start-IsConsistent env args (renew_done_ch m) (renew_done_ch-IsConsistent m c) in
    elim (start_again_cases env args m) [
      | inl e ↦ rw e k
      | inr e ↦ rw e (record { has_process = k.has_process; has_channels = k.has_channels })
    ]

restart-IsConsistent :
    (stop_env : StopEnv) (env : StartEnv) (m : Manager)
    → IsConsistent m
    → IsConsistent (restart stop_env env m).0
unfolding reset_state
restart-IsConsistent stop_env env m c = elim (restart_cases stop_env env m) [
  | inl e ↦ rw e (stop-IsConsistent stop_env m c)
  | inr (k, e, inl d) ↦
      rw (e, d)
        (start_again-IsConsistent env m.node_args (stop stop_env m).0
          (stop-IsConsistent stop_env m c))
  | inr (k, e, inr (inl d)) ↦ rw (e, d) (start_again-IsConsistent env m.node_args m c)
  | inr (k, e, inr (inr d)) ↦
      rw (e, d)
        (start_again-IsConsistent env m.node_args (reset_state m)
          (record { has_process = refl; has_channels = c.has_channels }))
]

step-IsConsistent : (e : Event) (m : Manager) → IsConsistent m → IsConsistent (step e m)
unfolding step set_node_args monitor_exit
step-IsConsistent (start_call env args) m c = start-IsConsistent env args m c
step-IsConsistent (stop_call env) m c = stop-IsConsistent env m c
step-IsConsistent (restart_call stop_env env) m c = restart-IsConsistent stop_env env m c
step-IsConsistent (auto_restart stop_env env) m c = elim (Bool-cases (m.pending_restarts == 0)) [
  | inl e ↦ rw e c
  | inr e ↦ rw e (
      restart-IsConsistent stop_env env (record m { pending_restarts = m.pending_restarts - 1 })
        (record { has_process = c.has_process; has_channels = c.has_channels }))
]
step-IsConsistent process_exit m c = elim (Bool-cases (is_running m.state || is_stopping m.state)) [
  | inr e ↦ rw e c
  | inl e ↦ rw e (elim (Bool-cases (is_stopping m.state)) [
    | inl s ↦ rw s c
    | inr s ↦ rw s (handle_process_crash-IsConsistent m c.has_channels)
  ])
]
step-IsConsistent (set_args_call args) m c = record {
  has_process = c.has_process;
  has_channels = c.has_channels;
}

run-IsConsistent_from : (es : List Event) (m : Manager) → IsConsistent m → IsConsistent (run es m)
unfolding run
run-IsConsistent_from [] m c = c
run-IsConsistent_from (e ∷ es) m c = run-IsConsistent_from es (step e m) (step-IsConsistent e m c)

-- After any events on a new manager the node has a process while it runs or is being stopped and
-- none while it is stopped, the states `starting` and `upgrading` do not occur, and the channel that
-- signals the end, if there is one, has not been closed.
pub run-IsConsistent :
    (max_restarts : ℤ) (restart_on_failure : Bool) (es : List Event)
    → IsConsistent (run es (new_manager max_restarts restart_on_failure))
unfolding new_manager
run-IsConsistent max_restarts restart_on_failure es =
    run-IsConsistent_from es (new_manager max_restarts restart_on_failure)
      (record { has_process = refl; has_channels = ((omega arith, refl), tt) })
