-- ===== src/Height/Checks.antt =====
-- The height monitor's theorems and operations at concrete inputs.
use wemixvisor.Base.{◌≡◌, refl, Option, none, some, false, List, [], ◌∷◌, ◌++◌, take}
use wemixvisor.Base.Int.{ℤ, pos, negsuc}
use wemixvisor.Height.{
  HeightMonitor, default_subscriber_buffer_size, new_height_monitor, start, subscribe, send,
  notify_subscribers, poll, poll_all,
}
use wemixvisor.Height.Delivery.{changes, poll_all-subscribe}

abbrev one_listener : HeightMonitor
unfolding new_height_monitor subscribe
one_listener = subscribe (new_height_monitor (negsuc 0))

abbrev answers : List (Option ℤ)
answers = some (pos 5) ∷ some (pos 5) ∷ none ∷ some (pos 6) ∷ some (pos 0) ∷ []

poll_all-subscribe_example :
    (poll_all answers (subscribe one_listener)).subscribers
    ≡ (poll_all answers one_listener).subscribers
      ++ take default_subscriber_buffer_size (changes one_listener.current_height answers) ∷ []
poll_all-subscribe_example = poll_all-subscribe answers one_listener

abbrev ten : List ℤ
ten = pos 1 ∷ pos 2 ∷ pos 3 ∷ pos 4 ∷ pos 5 ∷ pos 6 ∷ pos 7 ∷ pos 8 ∷ pos 9 ∷ pos 10 ∷ []

poll_all_test : (poll_all answers one_listener).subscribers ≡ (pos 5 ∷ pos 6 ∷ pos 0 ∷ []) ∷ []
unfolding poll_all poll notify_subscribers send one_listener
poll_all_test = refl

poll_interval_test : one_listener.poll_interval ≡ pos 5_000_000_000
unfolding one_listener
poll_interval_test = refl

start_test : (start (start one_listener).0).1 ≡ false
unfolding start one_listener
start_test = refl
