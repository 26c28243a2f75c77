-- ===== src/Governance/Notifier.antt =====
-- The notifier of internal/governance/notifier.go: the stored notifications by id, and what was
-- given to the handlers. The titles, texts and data of the notifications and logging are left out;
-- the id that `generateNotificationID` makes and `time.Now()` are arguments. A handler is its type
-- and whether it is enabled.
use wemixvisor.Base.{
  ℕ, ltb, Option, none, some, Bool, true, false, not, List, [], ◌∷◌, ◌++◌, String, str_eq, length,
  take, map, is_some, if◌then◌else◌,
}
use wemixvisor.Base.Int.{ℤ, pos, ◌-ℤ◌, ltb_ℤ}
use wemixvisor.Base.GoMap
use wemixvisor.Base.GoMap.{GoMap}
use wemixvisor.Base.Sort.{sort, remove_first}
pub mod Ids
pub mod Newest
pub mod Retention
pub mod Stored
mod Checks

pub data NotificationEvent : Type 0 where
  new_proposal proposal_passed proposal_rejected : NotificationEvent
  upgrade_scheduled upgrade_triggered upgrade_completed upgrade_failed : NotificationEvent
  voting_started voting_ended quorum_reached emergency_proposal : NotificationEvent

pub data NotificationPriority : Type 0 where
  low medium high critical : NotificationPriority

pub record Notification : Type 0 where
  pub id : String
  pub event : NotificationEvent
  pub timestamp : ℤ
  pub read : Bool
  pub priority : NotificationPriority

pub record Notifier : Type 0 where
  pub notifications : GoMap Notification
  pub handlers : List (String × Bool)
  pub handled : List (String × Notification)
  pub enabled : Bool
  pub max_notifications : ℕ
  pub max_age : ℤ

unfoldable pub new_notifier : Notifier
new_notifier = record {
  notifications = [];
  handlers = [];
  handled = [];
  enabled = true;
  max_notifications = 1000;
  max_age = pos 2_592_000_000_000_000;
}

-- `getPriority` with the default priorities, which nothing changes
unfoldable pub get_priority : NotificationEvent → NotificationPriority
get_priority new_proposal = medium
get_priority proposal_passed = high
get_priority proposal_rejected = medium
get_priority upgrade_scheduled = high
get_priority upgrade_triggered = critical
get_priority upgrade_completed = high
get_priority upgrade_failed = critical
get_priority voting_started = medium
get_priority voting_ended = medium
get_priority quorum_reached = high
get_priority emergency_proposal = critical

unfoldable pub stop : Notifier → Notifier
stop n = record n { enabled = false }

unfoldable pub set_enabled : Bool → Notifier → Notifier
set_enabled on n = record n { enabled = on }

unfoldable pub add_handler : String → Bool → Notifier → Notifier
add_handler kind on n = record n { handlers = n.handlers ++ (kind, on) ∷ [] }

unfoldable pub remove_handler : String → Notifier → Notifier
remove_handler kind n = record n { handlers = remove_first (λ h. str_eq (h.0) kind) n.handlers }

-- the loop of `sendNotification`, without the goroutines' end
unfoldable pub send_to : Notification → List (String × Bool) → List (String × Notification)
send_to x [] = []
send_to x ((kind, on) ∷ handlers) =
    if on then (kind, x) ∷ send_to x handlers else send_to x handlers

unfoldable pub send_notification : Notification → Notifier → Notifier
send_notification x n =
    if n.enabled
    then record n {
      notifications = GoMap.insert x.id x n.notifications;
      handled = n.handled ++ send_to x n.handlers;
    }
    else n

-- the `Notify` functions, which differ in the event and the texts
unfoldable pub notify : String → ℤ → NotificationEvent → Notifier → Notifier
notify id now event n =
    send_notification
      (record {
        id = id;
        event = event;
        timestamp = now;
        read = false;
        priority = get_priority event;
      })
      n

abbrev pub newer : Notification → Notification → Bool
newer a b = ltb_ℤ b.timestamp a.timestamp

abbrev pub values : GoMap Notification → List Notification
values = map (λ e. e.1)

unfoldable pub get_notifications : Notifier → List Notification
get_notifications n = sort newer (values n.notifications)

unfoldable pub unread : List Notification → List Notification
unread [] = []
unread (x ∷ xs) = if x.read then unread xs else x ∷ unread xs

unfoldable pub get_unread_notifications : Notifier → List Notification
get_unread_notifications n = sort newer (unread (values n.notifications))

-- the flag tells that the notification is there
unfoldable pub mark_as_read : String → Notifier → Notifier × Bool
mark_as_read id n = elim (GoMap.lookup id n.notifications) [
  | none ↦ (n, false)
  | some x ↦ (
    record n { notifications = GoMap.insert id (record x { read = true }) n.notifications },
    true,
  )
]

unfoldable pub mark_all : GoMap Notification → GoMap Notification
mark_all [] = []
mark_all ((id, x) ∷ m) = (id, record x { read = true }) ∷ mark_all m

unfoldable pub mark_all_as_read : Notifier → Notifier
mark_all_as_read n = record n { notifications = mark_all n.notifications }

-- the loop of `CleanupOld` that deletes by age
unfoldable pub drop_old : ℤ → GoMap Notification → GoMap Notification
drop_old cutoff [] = []
drop_old cutoff ((id, x) ∷ m) =
    let rest = drop_old cutoff m in if ltb_ℤ x.timestamp cutoff then rest else (id, x) ∷ rest

-- the newest ones, as many as may stay
unfoldable pub newest : ℕ → GoMap Notification → List Notification
newest n m = take n (sort newer (values m))

-- the new map of `CleanupOld`
unfoldable pub store_all : List Notification → GoMap Notification → GoMap Notification
store_all [] m = m
store_all (x ∷ xs) m = store_all xs (GoMap.insert x.id x m)

unfoldable pub cleanup_old : ℤ → Notifier → Notifier
cleanup_old now n =
    let recent = drop_old (now -ℤ n.max_age) n.notifications in
    record n {
      notifications =
          if ltb n.max_notifications (length recent)
          then store_all (newest n.max_notifications recent) []
          else recent;
    }
