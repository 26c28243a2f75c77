-- ===== src/Governance/Notifier/Checks.antt =====
-- Runs of the notifier, and its theorem at a concrete input.
use wemixvisor.Base.{some, String, ◌≡◌, ◌≤◌, refl, [], ◌∷◌, In, true, length, map, str_dec}
use wemixvisor.Base.Int.{pos, ◌-ℤ◌}
use wemixvisor.Base.GoMap
use wemixvisor.Base.GoMap.{IsMap}
use wemixvisor.Base.Sort.{sort}
use wemixvisor.Governance.Notifier.{
  Notification, new_proposal, upgrade_failed, Notifier, new_notifier, add_handler, notify,
  send_notification, send_to, get_priority, get_notifications, values, drop_old, newest, store_all,
  cleanup_old, mark_as_read, get_unread_notifications, unread,
}
use wemixvisor.Governance.Notifier.Stored.{IsStore, notify-IsStore}
use wemixvisor.Governance.Notifier.Retention.{IsRecent, IsKept, cleanup_old_sound}

-- a notifier with room for one notification, and three of them, one of which is old
abbrev small : Notifier
small = record new_notifier { max_notifications = 1; max_age = pos 50 }

abbrev filled : Notifier
filled = notify "c" (pos 80) upgrade_failed (
    notify "b" (pos 90) new_proposal
      (notify "a" (pos 10) new_proposal (add_handler "log" true small)))

hands_over : map (λ e. (e.1).id) filled.handled ≡ "a" ∷ "b" ∷ "c" ∷ []
unfolding new_notifier add_handler notify send_notification send_to get_priority
hands_over = refl

orders_newest : map (λ x. x.id) (get_notifications filled) ≡ "b" ∷ "c" ∷ "a" ∷ []
unfolding new_notifier add_handler notify send_notification send_to get_priority get_notifications
    sort str_dec GoMap.insert
orders_newest = refl

marks_read : map (λ x. x.id) (get_unread_notifications (mark_as_read "b" filled).0) ≡ "c" ∷ "a" ∷ []
unfolding new_notifier add_handler notify send_notification send_to get_priority
    get_unread_notifications unread mark_as_read sort str_dec GoMap.insert GoMap.lookup
marks_read = refl

keeps_newest : GoMap.keys (cleanup_old (pos 100) filled).notifications ≡ "b" ∷ []
unfolding new_notifier add_handler notify send_notification send_to get_priority cleanup_old
    drop_old newest store_all sort str_dec GoMap.insert
keeps_newest = refl

filled-IsStore : IsStore filled.notifications
unfolding new_notifier add_handler
filled-IsStore = notify-IsStore "c" (pos 80) upgrade_failed _ (
    notify-IsStore "b" (pos 90) new_proposal _
      (notify-IsStore "a" (pos 10) new_proposal (add_handler "log" true small) (tt, tt)))

abbrev cleaned : Notifier
cleaned = cleanup_old (pos 100) filled

cleanup_old_sound_example :
    (length cleaned.notifications ≤ filled.max_notifications)
    × GoMap.AllValues
        (λ b. IsRecent (pos 100 -ℤ filled.max_age) b × In b (values filled.notifications))
        cleaned.notifications
    × ((j : String) (a : Notification)
        → GoMap.lookup j filled.notifications ≡ some a
        → IsRecent (pos 100 -ℤ filled.max_age) a
        → IsKept j a filled.max_notifications cleaned.notifications)
cleanup_old_sound_example = cleanup_old_sound (pos 100) filled filled-IsStore.0 filled-IsStore.1
