-- ===== src/Connections/Accounting.antt =====
-- However the calls of the pool interleave, the connections that are handed out, idle, in the hands
-- of a call, destroyed and lost add up to those created.
use wemixvisor.Base.{
  ℕ, zero, suc, ◌+◌, ◌-◌, ◌≡◌, ◌==◌, refl, Bool, true, false, List, [], ◌∷◌, arith, Bool-cases, inl,
  inr,
}
use wemixvisor.Connections.{
  Connection, Pool, new_pool, Phase, Next, Answer, advance, Moved, moved, move, System, Event,
  happens, run, unused, goes, drops, served, fails, finished, panics, gets, stops, puts, cleans,
  moves,
}
use wemixvisor.Connections.Steps.{
  counted, carried, draining, sum_of, IsAccounted, IsNext, after, got, dropped, advance-IsNext,
}

IsMoved : Pool × Moved → ℕ → ℕ → ℕ → ℕ → ℕ → Type 0
IsMoved r x y z held lost =
    IsAccounted r.0 (sum_of counted r.1.calls + x) (sum_of carried r.1.calls + y)
      (sum_of draining r.1.calls + z) (held + r.1.served_ones) (lost + r.1.dropped_ones)

moved-IsMoved :
    (p : Pool) (next : Next) (calls : List Phase) (x y z held lost : ℕ)
    → IsNext
        (p, next)
        (sum_of counted calls + x)
        (sum_of carried calls + y)
        (sum_of draining calls + z)
        held
        lost
    → IsMoved (p, moved next calls) x y z held lost
unfolding moved IsNext IsMoved after got dropped
moved-IsMoved p (goes c) calls x y z held lost h = ground (arith, h)
moved-IsMoved p (drops c) calls x y z held lost h = ground (arith, h)
moved-IsMoved p (served c) calls x y z held lost h = ground (arith, h)
moved-IsMoved p (fails e) calls x y z held lost h = ground (arith, h)
moved-IsMoved p finished calls x y z held lost h = ground (arith, h)
moved-IsMoved p panics calls x y z held lost h = ground (arith, h)

-- one more call that did not move
abbrev beside : Phase → Pool × Moved → Pool × Moved
beside c (p, m) = (p, record m { calls = c ∷ m.calls })

behind :
    (c : Phase) (r : Pool × Moved) (x y z held lost : ℕ)
    → IsMoved r (counted c + x) (carried c + y) (draining c + z) held lost
    → IsMoved (beside c r) x y z held lost
unfolding IsMoved
behind c (p, m) x y z held lost h = ground (arith, h)

module _ (alive : Connection → Bool) where
  move-here :
      (a : Answer) (i : ℕ) (c : Phase) (calls : List Phase) (p : Pool)
      → (i == 0) ≡ true
      → move alive a i (c ∷ calls) p
        ≡ ((advance alive a c p).0, moved (advance alive a c p).1 calls)
  unfolding move
  move-here a i c calls p e = ground (arith, e)

  move-there :
      (a : Answer) (i : ℕ) (c : Phase) (calls : List Phase) (p : Pool)
      → (i == 0) ≡ false
      → move alive a i (c ∷ calls) p ≡ beside c (move alive a (i - 1) calls p)
  unfolding move
  move-there a i c calls p e = ground (arith, e)

  move-IsMoved :
      (a : Answer) (i : ℕ) (calls : List Phase) (p : Pool) (x y z held lost : ℕ)
      → IsAccounted p
          (sum_of counted calls + x)
          (sum_of carried calls + y)
          (sum_of draining calls + z)
          held
          lost
      → IsMoved (move alive a i calls p) x y z held lost
  unfolding move IsMoved
  move-IsMoved a i [] p x y z held lost h = ground (arith, h)
  move-IsMoved a i (c ∷ calls) p x y z held lost h = elim (Bool-cases (i == 0)) [
    | inl e ↦ rw (move-here a i c calls p e) (
        moved-IsMoved (advance alive a c p).0 (advance alive a c p).1 calls x y z held lost (
          advance-IsNext alive a c p (sum_of counted calls + x) (sum_of carried calls + y)
            (sum_of draining calls + z) held lost (ground (arith, h))))
    | inr e ↦ rw (move-there a i c calls p e) (
        behind c (move alive a (i - 1) calls p) x y z held lost (
          move-IsMoved a (i - 1) calls p (counted c + x) (carried c + y) (draining c + z) held lost
            (ground (arith, h))))
  ]

abbrev pub Accounted : System → Type 0
Accounted s =
    IsAccounted s.pool (sum_of counted s.calls) (sum_of carried s.calls) (sum_of draining s.calls)
      s.held s.lost

module _ (alive : Connection → Bool) where
  puts-Accounted :
      (c : Connection) (p : Pool) (calls : List Phase) (held lost : ℕ)
      → Accounted (record { pool = p; calls = calls; held = held; lost = lost })
      → Accounted
          (happens alive (puts c) (record { pool = p; calls = calls; held = held; lost = lost }))
  unfolding happens
  puts-Accounted c p calls zero lost h = h
  puts-Accounted c p calls (suc n) lost h = ground (arith, h)

  happens-Accounted : (e : Event) (s : System) → Accounted s → Accounted (happens alive e s)
  unfolding happens IsMoved
  happens-Accounted gets s h = ground (arith, h)
  happens-Accounted stops s h = ground (arith, h)
  happens-Accounted (puts c) s h = puts-Accounted c s.pool s.calls s.held s.lost h
  happens-Accounted (cleans now) s h = ground (arith, h)
  happens-Accounted (moves i a) s h =
      ground (arith, move-IsMoved alive a i s.calls s.pool 0 0 0 s.held s.lost (ground (arith, h)))

  run-Accounted_from :
      (events : List Event) (s : System) → Accounted s → Accounted (run alive events s)
  unfolding run
  run-Accounted_from [] s h = h
  run-Accounted_from (e ∷ events) s h =
      run-Accounted_from events (happens alive e s) (happens-Accounted e s h)

  -- However calls of Get, Put, Stop and the cleanup start on a new pool and take their steps, where
  -- only as many connections are put back as are handed out: as long as the pool is not closed, the
  -- active count is the number of connections handed out and of the calls that have counted one and
  -- are not done with it; at most the size of the pool are idle; and every connection that counts as
  -- created counts as destroyed, is handed out, is idle, is in the hands of a call, or was dropped by
  -- a Get that had waited.
  pub run-Accounted :
      (max_size : ℕ) (events : List Event) → Accounted (run alive events (unused max_size))
  unfolding new_pool
  run-Accounted max_size events =
      run-Accounted_from events (unused max_size) (λ unclosed. (refl, omega arith, refl, refl))
