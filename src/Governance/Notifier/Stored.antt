-- ===== src/Governance/Notifier/Stored.antt =====
-- Every operation of the notifier keeps each notification stored under its id.
use wemixvisor.Base.{
  ◌≡◌, refl, true, String, List, [], ◌∷◌, arith, str_dec, Bool-cases, Option-cases, inl, inr,
  if_both, ite_both, ltb, length,
}
use wemixvisor.Base.Int.{ℤ, ◌-ℤ◌}
use wemixvisor.Base.GoMap
use wemixvisor.Base.GoMap.{GoMap, IsMap}
use wemixvisor.Governance.Notifier.{
  Notification, NotificationEvent, Notifier, notify, send_notification, mark_as_read, mark_all,
  mark_all_as_read, cleanup_old, drop_old, newest, store_all,
}
use wemixvisor.Governance.Notifier.Ids.{IsKeyed, lookup-values}
use wemixvisor.Governance.Notifier.Retention.{drop_old-IsMap, drop_old-IsKeyed}

abbrev pub IsStore : GoMap Notification → Type 0
IsStore m = IsMap m × IsKeyed m

insert-IsKeyed :
    (x : Notification) (m : GoMap Notification) → IsKeyed m → IsKeyed (GoMap.insert x.id x m)
unfolding GoMap.insert
insert-IsKeyed x [] k = (refl, tt)
insert-IsKeyed x ((j, w) ∷ m) k =
    ite_both IsKeyed (str_dec j x.id) (refl, k.1) (k.0, insert-IsKeyed x m k.1)

insert-IsStore :
    (x : Notification) (m : GoMap Notification) → IsStore m → IsStore (GoMap.insert x.id x m)
insert-IsStore x m h = (GoMap.insert-IsMap x.id x m h.0, insert-IsKeyed x m h.1)

pub notify-IsStore :
    (id : String) (now : ℤ) (event : NotificationEvent) (n : Notifier)
    → IsStore n.notifications
    → IsStore (notify id now event n).notifications
unfolding notify send_notification
notify-IsStore id now event n h = elim (Bool-cases n.enabled) [
  | inl e ↦ rw (e, notify, send_notification) (insert-IsStore _ n.notifications h)
  | inr e ↦ rw (e, notify, send_notification) h
]

pub mark_as_read-IsStore :
    (id : String) (n : Notifier)
    → IsStore n.notifications
    → IsStore (mark_as_read id n).0.notifications
unfolding mark_as_read
mark_as_read-IsStore id n h = elim (Option-cases (GoMap.lookup id n.notifications)) [
  | inl e ↦ rw (e, mark_as_read) h
  | inr (x, e) ↦
      let key = (lookup-values id x n.notifications h.1 e).1 in
      rw (e, mark_as_read)
        (rw (← key) (insert-IsStore (record x { read = true }) n.notifications h))
]

keys-mark_all : (m : GoMap Notification) → GoMap.keys (mark_all m) ≡ GoMap.keys m
unfolding mark_all
keys-mark_all [] = refl
keys-mark_all ((id, x) ∷ m) = ground (arith, keys-mark_all m)

mark_all-IsKeyed : (m : GoMap Notification) → IsKeyed m → IsKeyed (mark_all m)
unfolding mark_all
mark_all-IsKeyed [] k = tt
mark_all-IsKeyed ((id, x) ∷ m) k = (k.0, mark_all-IsKeyed m k.1)

pub mark_all_as_read-IsStore :
    (n : Notifier) → IsStore n.notifications → IsStore (mark_all_as_read n).notifications
unfolding mark_all_as_read
mark_all_as_read-IsStore n h =
    (rw (keys-mark_all n.notifications) h.0, mark_all-IsKeyed n.notifications h.1)

store_all-IsStore :
    (xs : List Notification) (m : GoMap Notification) → IsStore m → IsStore (store_all xs m)
unfolding store_all
store_all-IsStore [] m h = h
store_all-IsStore (x ∷ xs) m h = store_all-IsStore xs _ (insert-IsStore x m h)

pub cleanup_old-IsStore :
    (now : ℤ) (n : Notifier) → IsStore n.notifications → IsStore (cleanup_old now n).notifications
unfolding cleanup_old
cleanup_old-IsStore now n h =
    let recent = drop_old (now -ℤ n.max_age) n.notifications in
    if_both IsStore (ltb n.max_notifications (length recent))
      (store_all-IsStore (newest n.max_notifications recent) [] (tt, tt))
      (
        drop_old-IsMap (now -ℤ n.max_age) n.notifications h.0,
        drop_old-IsKeyed (now -ℤ n.max_age) n.notifications h.1,
      )
