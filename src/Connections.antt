-- ===== src/Connections.antt =====
-- The connection pool of internal/performance/pool.go. Its calls run at the same time: a `Phase` is
-- the point that a call has reached, and `advance` is its next step, which is one test of `closed`
-- under the lock, one receive or send on the channel, or one update of the statistics under their
-- lock. `idle` is the buffered channel of the idle connections, with room for `max_size` of them.
-- The clock, the choices of a select, the test of a connection by a deadline and the factory answer
-- through arguments. The count of idle connections in the statistics, which no code reads, and
-- logging are left out.
use wemixvisor.Base.{
  ℕ, zero, suc, ◌+◌, ◌-◌, Option, none, some, Bool, true, false, not, ◌&&◌, List, [], ◌∷◌, ◌++◌,
  length, ltb, ◌==◌, if◌then◌else◌,
}
use wemixvisor.Base.Int.{ℤ, pos, negsuc, ◌+ℤ◌, ◌-ℤ◌, ltb_ℤ}
pub mod Steps
pub mod Accounting
mod Checks

pub record Connection : Type 0 where
  pub key : ℕ
  pub last_used : ℤ

pub record Pool : Type 0 where
  pub max_size : ℕ
  pub idle_timeout : ℤ
  pub idle : List Connection
  pub active : ℤ
  pub created : ℕ
  pub destroyed : ℕ
  pub timeouts : ℕ
  pub closed : Bool

unfoldable pub new_pool : ℕ → Pool
new_pool max_size = record {
  max_size = max_size;
  idle_timeout = pos 300_000_000_000;
  idle = [];
  active = pos 0;
  created = 0;
  destroyed = 0;
  timeouts = 0;
  closed = false;
}

pub data PoolError : Type 0 where
  pool_closed cancelled factory_failed timed_out : PoolError

-- what comes next in a call of `Get`, `Put`, `cleanupLoop` at a tick, or `Stop`
pub data Phase : Type 0 where
  -- the test of `closed`; the first select; a valid connection is received, or one that is not
  get_starts get_selects : Phase
  get_counts : Connection → Phase
  get_destroys : Phase
  -- the test of the active count, the factory, its two updates of the statistics; the last select
  get_tests get_creates : Phase
  get_adds get_records : Connection → Phase
  get_waits : Phase
  -- the test of `closed`; the select; what follows when the channel takes it, and when it is full
  put_starts put_sends : Connection → Phase
  put_counts put_destroys put_subtracts : Phase
  -- the test of `closed`; with the time and the connections that stay: the next receive, an update
  -- of the statistics; the next send, an update of the statistics
  clean_starts : ℤ → Phase
  clean_drains clean_drops : ℤ → List Connection → Phase
  clean_returns clean_closes : List Connection → Phase
  stop_starts stop_drains : Phase

-- The call goes on, gives a connection or an error, or is done; it drops a connection without
-- closing it, and goes on; it panics.
pub data Next : Type 0 where
  goes drops : Phase → Next
  served : Connection → Next
  fails : PoolError → Next
  finished panics : Next

-- the time, whether a select takes the end of the context or of the time limit, and the factory
pub record Answer : Type 0 where
  pub now : ℤ
  pub cancels : Bool
  pub times_out : Bool
  pub made : Option Connection

unfoldable pub add_active : ℤ → Pool → Pool
add_active n p = record p { active = p.active +ℤ n }

unfoldable pub record_destroyed : Pool → Pool
record_destroyed p = record p { destroyed = p.destroyed + 1 }

unfoldable pub record_created : Pool → Pool
record_created p = record p { created = p.created + 1 }

unfoldable pub record_timeout : Pool → Pool
record_timeout p = record p { timeouts = p.timeouts + 1 }

-- a send on the channel: it panics when it is closed, and else goes on by whether there was room
unfoldable pub send : Connection → Phase → Phase → Pool → Pool × Next
send c sent full p =
    if p.closed
    then (p, panics)
    else if ltb (length p.idle) p.max_size
    then (record p { idle = p.idle ++ c ∷ [] }, goes sent)
    else (p, goes full)

-- `alive` is the test of a connection by a deadline
unfoldable pub is_connection_valid : (Connection → Bool) → ℤ → ℤ → Connection → Bool
is_connection_valid alive now timeout c = not (ltb_ℤ timeout (now -ℤ c.last_used)) && alive c

module _ (alive : Connection → Bool) where
  -- the first select; a closed channel that is empty gives nil
  unfoldable pub first_select : Answer → Pool → Pool × Next
  first_select a p = if a.cancels then (p, fails cancelled) else elim p.idle [
    | [] ↦ (p, goes get_tests)
    | c ∷ rest ↦ (
      record p { idle = rest },
      if is_connection_valid alive a.now p.idle_timeout c
          then goes (get_counts (record c { last_used = a.now }))
          else goes get_destroys,
    )
  ]

  -- the last select: it blocks on an open channel that is empty, and a connection that is not valid
  -- is dropped
  unfoldable pub last_select : Answer → Pool → Pool × Next
  last_select a p =
      if a.cancels
      then (p, fails cancelled)
      else if a.times_out
      then (record_timeout p, fails timed_out)
      else elim p.idle [
        | [] ↦ (p, if p.closed then goes get_starts else goes get_waits)
        | c ∷ rest ↦ (
          record p { idle = rest },
          if is_connection_valid alive a.now p.idle_timeout c
              then goes (get_counts (record c { last_used = a.now }))
              else drops get_starts,
        )
      ]

  -- a receive of `cleanup`: the nil of a closed channel counts as one that is old, so it does not end
  unfoldable pub drain : ℤ → List Connection → Pool → Pool × Next
  drain now kept p = elim p.idle [
    | [] ↦ (p, if p.closed then goes (clean_drains now kept) else goes (clean_returns kept))
    | c ∷ rest ↦ (
      record p { idle = rest },
      if ltb_ℤ (now -ℤ c.last_used) p.idle_timeout
          then goes (clean_drains now (kept ++ c ∷ []))
          else goes (clean_drops now kept),
    )
  ]

  unfoldable pub advance : Answer → Phase → Pool → Pool × Next
  advance a get_starts p = (p, if p.closed then fails pool_closed else goes get_selects)
  advance a get_selects p = first_select a p
  advance a (get_counts c) p = (add_active (pos 1) p, served c)
  advance a get_destroys p = (record_destroyed p, goes get_tests)
  advance a get_tests p =
      (p, if ltb_ℤ p.active (pos p.max_size) then goes get_creates else goes get_waits)
  advance a get_creates p = (
    p,
    elim a.made [
      | none ↦ fails factory_failed
      | some c ↦ goes (get_adds (record c { last_used = a.now }))
    ],
  )
  advance a (get_adds c) p = (add_active (pos 1) p, goes (get_records c))
  advance a (get_records c) p = (record_created p, served c)
  advance a get_waits p = last_select a p
  advance a (put_starts c) p =
      (p, if p.closed then finished else goes (put_sends (record c { last_used = a.now })))
  advance a (put_sends c) p = send c put_counts put_destroys p
  advance a put_counts p = (add_active (negsuc 0) p, finished)
  advance a put_destroys p = (record_destroyed p, goes put_subtracts)
  advance a put_subtracts p = (add_active (negsuc 0) p, finished)
  advance a (clean_starts now) p = (p, if p.closed then finished else goes (clean_drains now []))
  advance a (clean_drains now kept) p = drain now kept p
  advance a (clean_drops now kept) p = (record_destroyed p, goes (clean_drains now kept))
  advance a (clean_returns []) p = (p, finished)
  advance a (clean_returns (c ∷ kept)) p = send c (clean_returns kept) (clean_closes kept) p
  advance a (clean_closes kept) p = (record_destroyed p, goes (clean_returns kept))
  advance a stop_starts p =
      if p.closed then (p, finished) else (record p { closed = true }, goes stop_drains)
  advance a stop_drains p = elim p.idle [
    | [] ↦ (p, finished)
    | c ∷ rest ↦ (record p { idle = rest }, goes stop_drains)
  ]

-- the calls that have not ended, and how many connections a step has handed out and dropped
pub record Moved : Type 0 where
  pub calls : List Phase
  pub served_ones : ℕ
  pub dropped_ones : ℕ

unfoldable pub moved : Next → List Phase → Moved
moved (goes c) calls = record { calls = c ∷ calls; served_ones = 0; dropped_ones = 0 }
moved (drops c) calls = record { calls = c ∷ calls; served_ones = 0; dropped_ones = 1 }
moved (served c) calls = record { calls = calls; served_ones = 1; dropped_ones = 0 }
moved _ calls = record { calls = calls; served_ones = 0; dropped_ones = 0 }

module _ (alive : Connection → Bool) where
  -- the next step of one of the calls, by its place in the list
  unfoldable pub move : Answer → ℕ → List Phase → Pool → Pool × Moved
  move a i [] p = (p, record { calls = []; served_ones = 0; dropped_ones = 0 })
  move a i (c ∷ calls) p =
      let (here, next) = advance alive a c p in
      let (there, m) = move a (i - 1) calls p in
      if i == 0 then (here, moved next calls) else (there, record m { calls = c ∷ m.calls })

-- the pool, the calls, how many connections are handed out, and how many were dropped
pub record System : Type 0 where
  pub pool : Pool
  pub calls : List Phase
  pub held : ℕ
  pub lost : ℕ

pub data Event : Type 0 where
  gets stops : Event
  -- a connection that was handed out is put back
  puts : Connection → Event
  cleans : ℤ → Event
  moves : ℕ → Answer → Event

module _ (alive : Connection → Bool) where
  unfoldable pub happens : Event → System → System
  happens gets s = record s { calls = get_starts ∷ s.calls }
  happens stops s = record s { calls = stop_starts ∷ s.calls }
  happens (puts c) s = elim s.held [
    | zero ↦ s
    | suc n ↦ record s { held = n; calls = put_starts c ∷ s.calls }
  ]
  happens (cleans now) s = record s { calls = clean_starts now ∷ s.calls }
  happens (moves i a) s =
      let (p, m) = move alive a i s.calls s.pool in
      record {
        pool = p;
        calls = m.calls;
        held = s.held + m.served_ones;
        lost = s.lost + m.dropped_ones;
      }

  unfoldable pub run : List Event → System → System
  run [] s = s
  run (e ∷ events) s = run events (happens e s)

abbrev pub unused : ℕ → System
unused max_size = record { pool = new_pool max_size; calls = []; held = 0; lost = 0 }
