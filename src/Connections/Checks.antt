-- ===== src/Connections/Checks.antt =====
-- Runs of the connection pool, and its theorem at a concrete input.
use wemixvisor.Base.{
  ℕ, zero, suc, ◌≡◌, ◌++◌, refl, Option, none, some, Bool, true, false, List, [], ◌∷◌,
}
use wemixvisor.Base.Int.{ℤ, pos}
use wemixvisor.Connections.{
  Connection, new_pool, is_connection_valid, advance, first_select, last_select, send, moved, move,
  add_active, record_created, Answer, Event, gets, puts, moves, happens, run, unused, panics,
  put_sends,
}
use wemixvisor.Connections.Accounting.{Accounted, run-Accounted}

abbrev conn : ℕ → Connection
conn k = record { key = k; last_used = pos 0 }

abbrev alive : Connection → Bool
alive c = true

abbrev at : ℤ → Option Connection → Answer
at now made = record { now = now; cancels = false; times_out = false; made = made }

-- n steps of the call in this place
abbrev steps : ℕ → ℤ → ℕ → List Event
steps i now zero = []
steps i now (suc n) = moves i (at now (some (conn 1))) ∷ steps i now n

-- Two calls test the active count before one of them counts its connection.
abbrev race : List Event
race =
    gets
    ∷ gets
    ∷ (steps 0 (pos 1) 3 ++ (steps 1 (pos 1) 3 ++ (steps 0 (pos 1) 3 ++ steps 0 (pos 1) 3)))

race_exceeds_size :
    ((run alive race (unused 1)).held ≡ 2) × ((run alive race (unused 1)).pool.max_size ≡ 1)
unfolding run happens move moved advance first_select new_pool add_active record_created
race_exceeds_size = (refl, refl)

-- one connection is used and put back; one Get takes it, another one waits; it comes back too old
abbrev waited : List Event
waited =
    gets
    ∷ (steps 0 (pos 0) 6
        ++ (gets
            ∷ (steps 0 (pos 1) 4
                ++ (puts (conn 1) ∷ (steps 0 (pos 5) 3 ++ steps 0 (pos 900_000_000_000) 1)))))

waiting_drops :
    ((run alive waited (unused 1)).lost ≡ 1)
    × ((run alive waited (unused 1)).pool.created ≡ 1)
    × ((run alive waited (unused 1)).pool.destroyed ≡ 0)
unfolding run happens move moved advance first_select last_select is_connection_valid send new_pool
    add_active record_created
waiting_drops = (refl, refl, refl)

-- a Put that passed its test of `closed` before the pool was stopped
put_panics :
    (advance alive (at (pos 1) none) (put_sends (conn 1)) (record (new_pool 1) { closed = true })).1
    ≡ panics
unfolding advance send new_pool
put_panics = refl

run-Accounted_example : Accounted (run alive race (unused 1))
run-Accounted_example = run-Accounted alive 1 race
