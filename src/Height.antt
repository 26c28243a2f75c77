-- ===== src/Height.antt =====
-- The height monitor of internal/height/monitor.go. A subscriber's channel is the list of the
-- updates in its buffer, the oldest first. What the provider answers is an argument (`none` for an
-- error); the ticker and the shutdown of the goroutine are left out.
use wemixvisor.Base.{
  ℕ, ◌+◌, Option, none, some, Bool, true, false, List, [], ◌∷◌, ◌++◌, map, length, ltb,
  if◌then◌else◌,
}
use wemixvisor.Base.Int.{ℤ, pos, eq_ℤ, leb_ℤ}
pub mod Delivery
mod Checks

abbrev pub default_subscriber_buffer_size : ℕ
default_subscriber_buffer_size = 10

abbrev pub default_poll_interval : ℤ
default_poll_interval = pos 5_000_000_000

pub record HeightMonitor : Type 0 where
  pub current_height : ℤ
  pub started : Bool
  pub poll_interval : ℤ
  pub subscribers : List (List ℤ)

unfoldable pub new_height_monitor : ℤ → HeightMonitor
new_height_monitor interval = record {
  current_height = pos 0;
  started = false;
  poll_interval = if leb_ℤ interval (pos 0) then default_poll_interval else interval;
  subscribers = [];
}

-- The flag tells whether the monitor was started.
unfoldable pub start : HeightMonitor → HeightMonitor × Bool
start m = if m.started then (m, false) else (record m { started = true }, true)

unfoldable pub subscribe : HeightMonitor → HeightMonitor
subscribe m = record m { subscribers = m.subscribers ++ [] ∷ [] }

-- the send of `notifySubscribers`, which does not block
unfoldable pub send : ℤ → List ℤ → List ℤ
send h ch = if ltb (length ch) default_subscriber_buffer_size then ch ++ h ∷ [] else ch

unfoldable pub notify_subscribers : ℤ → HeightMonitor → HeightMonitor
notify_subscribers h m = record m { subscribers = map (send h) m.subscribers }

-- one round of `monitorLoop`
unfoldable pub poll : Option ℤ → HeightMonitor → HeightMonitor
poll none m = m
poll (some h) m =
    if eq_ℤ h m.current_height then m else notify_subscribers h (record m { current_height = h })

unfoldable pub poll_all : List (Option ℤ) → HeightMonitor → HeightMonitor
poll_all [] m = m
poll_all (a ∷ rest) m = poll_all rest (poll a m)
