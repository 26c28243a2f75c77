-- ===== src/Connections/Steps.antt =====
-- One step of a call of the pool: what it does to the count of its connections.
use wemixvisor.Base.{
  ℕ, ◌+◌, ◌≤◌, ◌≡◌, refl, Bool, true, false, List, [], ◌∷◌, ◌++◌, length, length-append, arith,
  Bool-cases, inl, inr, ◌⊎◌, if◌then◌else◌,
}
use wemixvisor.Base.Int.{ℤ, pos, ◌-ℤ◌, ltb_ℤ}
use wemixvisor.Connections.{
  Connection, Pool, Phase, Next, Answer, add_active, record_destroyed, record_created,
  record_timeout, send, first_select, last_select, drain, advance, get_starts, get_selects,
  get_counts, get_destroys, get_tests, get_creates, get_adds, get_records, get_waits, put_starts,
  put_sends, put_counts, put_destroys, put_subtracts, clean_starts, clean_drains, clean_drops,
  clean_returns, clean_closes, stop_starts, stop_drains, goes, drops, served,
}

-- 1 for a call that the active count counts
abbrev pub counted : Phase → ℕ
counted (get_records c) = 1
counted (put_starts c) = 1
counted (put_sends c) = 1
counted put_counts = 1
counted put_destroys = 1
counted put_subtracts = 1
counted _ = 0

-- how many connections that were created, are not idle, and are not counted as destroyed the call has
abbrev pub carried : Phase → ℕ
carried (get_counts c) = 1
carried get_destroys = 1
carried (put_starts c) = 1
carried (put_sends c) = 1
carried put_destroys = 1
carried (clean_drains now kept) = length kept
carried (clean_drops now kept) = length kept + 1
carried (clean_returns kept) = length kept
carried (clean_closes kept) = length kept + 1
carried _ = 0

-- 1 for a `Stop` that has closed the pool
abbrev pub draining : Phase → ℕ
draining stop_drains = 1
draining _ = 0

abbrev pub sum_of : (Phase → ℕ) → List Phase → ℕ
sum_of f [] = 0
sum_of f (c ∷ calls) = f c + sum_of f calls

-- While the pool is open: `held` connections are handed out, `lost` were dropped, the calls that are
-- counted are x, the connections they carry are y, and no call drains the channel of a closed pool.
abbrev pub IsAccounted : Pool → ℕ → ℕ → ℕ → ℕ → ℕ → Type 0
IsAccounted p x y z held lost =
    p.closed ≡ false
    → (p.active ≡ pos (held + x))
      × (length p.idle ≤ p.max_size)
      × (p.created ≡ p.destroyed + (held + length p.idle + lost + y))
      × (z ≡ 0)

unfoldable pub after : (Phase → ℕ) → Next → ℕ
after f (goes c) = f c
after f (drops c) = f c
after f _ = 0

unfoldable pub got : Next → ℕ
got (served c) = 1
got _ = 0

unfoldable pub dropped : Next → ℕ
dropped (drops c) = 1
dropped _ = 0

unfoldable pub IsNext : Pool × Next → ℕ → ℕ → ℕ → ℕ → ℕ → Type 0
IsNext r x y z held lost =
    IsAccounted r.0 (after counted r.1 + x) (after carried r.1 + y) (after draining r.1 + z)
      (held + got r.1) (lost + dropped r.1)

send-IsNext :
    (c : Connection) (sent full : Phase) (p : Pool) (x y z held lost n m : ℕ)
    → counted full ≡ n
    → counted sent ≡ n
    → carried sent ≡ m
    → carried full ≡ m + 1
    → draining sent ≡ 0
    → draining full ≡ 0
    → IsAccounted p (n + x) (m + 1 + y) (0 + z) held lost
    → IsNext (send c sent full p) x y z held lost
unfolding send IsNext after got dropped
send-IsNext c sent full p x y z held lost n m f s cs cf ds df h =
    ground (arith, h, f, s, cs, cf, ds, df, length-append p.idle (c ∷ []))

list_cases :
    (l : List Connection)
    → (l ≡ []) ⊎ ((c : Connection) × ((rest : List Connection) × (l ≡ c ∷ rest)))
list_cases [] = inl refl
list_cases (c ∷ rest) = inr (c, (rest, refl))

module _ (alive : Connection → Bool) where
  first_select-IsNext :
      (a : Answer) (p : Pool) (x y z held lost : ℕ)
      → IsAccounted p (0 + x) (0 + y) (0 + z) held lost
      → IsNext (first_select alive a p) x y z held lost
  unfolding first_select IsNext after got dropped
  first_select-IsNext a p x y z held lost h = ground (arith, h)

  last_select-IsNext :
      (a : Answer) (p : Pool) (x y z held lost : ℕ)
      → IsAccounted p (0 + x) (0 + y) (0 + z) held lost
      → IsNext (last_select alive a p) x y z held lost
  unfolding last_select record_timeout IsNext after got dropped
  last_select-IsNext a p x y z held lost h = ground (arith, h)

  drain-empty :
      (now : ℤ) (kept : List Connection) (p : Pool)
      → p.idle ≡ []
      → drain alive now kept p
        ≡ (p, if p.closed then goes (clean_drains now kept) else goes (clean_returns kept))
  unfolding drain
  drain-empty now kept p e = ground (arith, e)

  drain-fresh :
      (now : ℤ) (kept : List Connection) (p : Pool) (c : Connection) (rest : List Connection)
      → p.idle ≡ c ∷ rest
      → ltb_ℤ (now -ℤ c.last_used) p.idle_timeout ≡ true
      → drain alive now kept p
        ≡ (record p { idle = rest }, goes (clean_drains now (kept ++ c ∷ [])))
  unfolding drain
  drain-fresh now kept p c rest e f = ground (arith, e, f)

  drain-old :
      (now : ℤ) (kept : List Connection) (p : Pool) (c : Connection) (rest : List Connection)
      → p.idle ≡ c ∷ rest
      → ltb_ℤ (now -ℤ c.last_used) p.idle_timeout ≡ false
      → drain alive now kept p ≡ (record p { idle = rest }, goes (clean_drops now kept))
  unfolding drain
  drain-old now kept p c rest e f = ground (arith, e, f)

  drain-IsNext :
      (now : ℤ) (kept : List Connection) (p : Pool) (x y z held lost : ℕ)
      → IsAccounted p (0 + x) (length kept + y) (0 + z) held lost
      → IsNext (drain alive now kept p) x y z held lost
  unfolding IsNext after got dropped
  drain-IsNext now kept p x y z held lost h = elim (list_cases p.idle) [
    | inl e ↦ rw (drain-empty now kept p e) (ground (arith, h))
    | inr (c, (rest, e)) ↦
        let size : length p.idle ≡ length rest + 1 = rw e refl in
        elim (Bool-cases (ltb_ℤ (now -ℤ c.last_used) p.idle_timeout)) [
          | inl f ↦
              rw (drain-fresh now kept p c rest e f)
                (ground (arith, h, size, length-append kept (c ∷ [])))
          | inr f ↦ rw (drain-old now kept p c rest e f) (ground (arith, h, size))
        ]
  ]

  pub advance-IsNext :
      (a : Answer) (c : Phase) (p : Pool) (x y z held lost : ℕ)
      → IsAccounted p (counted c + x) (carried c + y) (draining c + z) held lost
      → IsNext (advance alive a c p) x y z held lost
  unfolding advance add_active record_destroyed record_created IsNext after got dropped
  advance-IsNext a get_starts p x y z held lost h = ground (arith, h)
  advance-IsNext a get_selects p x y z held lost h = first_select-IsNext a p x y z held lost h
  advance-IsNext a (get_counts c) p x y z held lost h = ground (arith, h)
  advance-IsNext a get_destroys p x y z held lost h = ground (arith, h)
  advance-IsNext a get_tests p x y z held lost h = ground (arith, h)
  advance-IsNext a get_creates p x y z held lost h = ground (arith, h)
  advance-IsNext a (get_adds c) p x y z held lost h = ground (arith, h)
  advance-IsNext a (get_records c) p x y z held lost h = ground (arith, h)
  advance-IsNext a get_waits p x y z held lost h = last_select-IsNext a p x y z held lost h
  advance-IsNext a (put_starts c) p x y z held lost h = ground (arith, h)
  advance-IsNext a (put_sends c) p x y z held lost h =
      send-IsNext c put_counts put_destroys p x y z held lost 1 0 refl refl refl refl refl refl h
  advance-IsNext a put_counts p x y z held lost h = ground (arith, h)
  advance-IsNext a put_destroys p x y z held lost h = ground (arith, h)
  advance-IsNext a put_subtracts p x y z held lost h = ground (arith, h)
  advance-IsNext a (clean_starts now) p x y z held lost h = ground (arith, h)
  advance-IsNext a (clean_drains now kept) p x y z held lost h =
      drain-IsNext now kept p x y z held lost h
  advance-IsNext a (clean_drops now kept) p x y z held lost h = ground (arith, h)
  advance-IsNext a (clean_returns []) p x y z held lost h = ground (arith, h)
  advance-IsNext a (clean_returns (c ∷ kept)) p x y z held lost h =
      send-IsNext c (clean_returns kept) (clean_closes kept) p x y z held lost 0 (length kept) refl
        refl refl refl refl refl h
  advance-IsNext a (clean_closes kept) p x y z held lost h = ground (arith, h)
  advance-IsNext a stop_starts p x y z held lost h = ground (arith, h)
  advance-IsNext a stop_drains p x y z held lost h = ground (arith, h)
