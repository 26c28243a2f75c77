-- ===== src/Process/Upgrades.antt =====
-- What an upgrade leaves behind, when it succeeds and when it fails.
use wemixvisor.Base.{
  ◌≡◌, ◌≢◌, sym, ◌∙◌, ◌⊎◌, inl, inr, refl, Option, none, some, Bool, true, false, not, ◌&&◌, ◌||◌,
  [], ◌∷◌, ◌++◌, String, str_eq, arith, Bool-cases, Option-cases, is_some, if◌then◌else◌,
}
use wemixvisor.Types.{UpgradeInfo}
use wemixvisor.Process.{
  Settings, Host, Target, ProcessError, Answers, LinkAnswers, create_symlink, link_to_upgrade,
  create_pre_upgrade_backup, restore_backup_on_failure, execute_upgrade, perform_upgrade,
}

abbrev pub is_linked : LinkAnswers → Bool
is_linked l = l.directory_exists && l.remove_ok && l.symlink_ok

abbrev pub AllOk : Answers → Type 0
AllOk a =
    (a.valid ≡ true) × ((a.hook_ok ≡ true) × ((a.download_ok ≡ true) × (is_linked a.link ≡ true)))

-- The steps before the link succeed, and the link is removed but not made again.
abbrev pub loses_link : Settings → Answers → Bool
loses_link c a =
    a.valid
    && is_some (create_pre_upgrade_backup c a)
    && a.hook_ok
    && a.download_ok
    && a.link.directory_exists
    && a.link.remove_ok
    && not a.link.symlink_ok

-- The link is switched and nothing restored; or the link stays, unless it was lost, and the backup
-- is restored, if one was made and can be.
abbrev pub IsExact : Settings → UpgradeInfo → Answers → Host → Host × Option ProcessError → Type 0
IsExact c u a h (h', error) =
    ((error ≡ none) × ((h' ≡ record h { current = some (Target.upgrade_dir u.name) }) × AllOk a))
    ⊎ ((error ≢ none)
        × ((h'.current ≡ (if loses_link c a then none else h.current))
            × ((path : String)
                → a.valid ≡ true
                → create_pre_upgrade_backup c a ≡ some path
                → h'.restored ≡ (
                    if str_eq path "" || not a.restore_ok
                    then h.restored
                    else h.restored ++ path ∷ []))))

-- what a failure leaves, where `lost` tells that the link is gone
failed_with : String → Answers → Host → Bool → Host
failed_with path a h lost = record h {
  current = if lost then none else h.current;
  restored = if str_eq path "" || not a.restore_ok then h.restored else h.restored ++ path ∷ [];
}

restore_backup-failed :
    (path : String) (a : Answers) (h : Host)
    → restore_backup_on_failure path a h ≡ failed_with path a h false
unfolding restore_backup_on_failure failed_with
restore_backup-failed path a h = ground arith

lost_of : Answers → Bool
lost_of a =
    a.hook_ok
    && a.download_ok
    && a.link.directory_exists
    && a.link.remove_ok
    && not a.link.symlink_ok

execute_upgrade_cases :
    (u : UpgradeInfo) (path : String) (a : Answers) (h : Host)
    → ((execute_upgrade u path a h
          ≡ (record h { current = some (Target.upgrade_dir u.name) }, none))
        × ((a.hook_ok ≡ true) × ((a.download_ok ≡ true) × (is_linked a.link ≡ true))))
      ⊎ ((e : ProcessError) × (execute_upgrade u path a h
            ≡ (failed_with path a h (lost_of a), some e)))
unfolding execute_upgrade link_to_upgrade create_symlink restore_backup_on_failure failed_with
    lost_of
execute_upgrade_cases u path a h = elim (Bool-cases a.hook_ok) [
  | inr k ↦ inr (ProcessError.hook_failed, ground (arith, k))
  | inl k ↦ elim (Bool-cases a.download_ok) [
    | inr d ↦ inr (ProcessError.download_failed, ground (arith, k, d))
    | inl d ↦ elim (Bool-cases (is_linked a.link)) [
      | inr l ↦ inr (ProcessError.link_failed, ground (arith, k, d, l))
      | inl l ↦ inl (ground (arith, k, d, l), (k, (d, l)))
    ]
  ]
]

perform_upgrade-invalid :
    (c : Settings) (u : UpgradeInfo) (a : Answers) (h : Host)
    → a.valid ≡ false
    → perform_upgrade c u a h ≡ (h, some ProcessError.validation_failed)
unfolding perform_upgrade
perform_upgrade-invalid c u a h v = ground (arith, v)

perform_upgrade-no_backup :
    (c : Settings) (u : UpgradeInfo) (a : Answers) (h : Host)
    → a.valid ≡ true
    → create_pre_upgrade_backup c a ≡ none
    → perform_upgrade c u a h ≡ (h, some ProcessError.backup_failed)
unfolding perform_upgrade
perform_upgrade-no_backup c u a h v b = ground (arith, v, b)

perform_upgrade-proceeds :
    (c : Settings) (u : UpgradeInfo) (a : Answers) (h : Host) (path : String)
    → a.valid ≡ true
    → create_pre_upgrade_backup c a ≡ some path
    → perform_upgrade c u a h ≡ execute_upgrade u path a h
unfolding perform_upgrade
perform_upgrade-proceeds c u a h path v b = ground (arith, v, b)

same_path : (p q : String) → ◌≡◌ {A = Option String} (some p) (some q) → q ≡ p
same_path p q e = cc e

loses_link-lost :
    (c : Settings) (a : Answers) (path : String)
    → a.valid ≡ true
    → create_pre_upgrade_backup c a ≡ some path
    → loses_link c a ≡ lost_of a
unfolding lost_of
loses_link-lost c a path v b = ground (arith, v, b)

failed_with-IsExact :
    (c : Settings) (u : UpgradeInfo) (a : Answers) (h : Host) (path : String) (e : ProcessError)
    → a.valid ≡ true
    → create_pre_upgrade_backup c a ≡ some path
    → IsExact c u a h (failed_with path a h (lost_of a), some e)
unfolding failed_with
failed_with-IsExact c u a h path e v b = inr (
  λ x. cc x,
  (
    rw (loses_link-lost c a path v b) refl,
    λ q valid made. rw (same_path path q (sym b ∙ made)) refl,
  ),
)

-- An upgrade of the process manager either passes each step and switches the current link to the
-- new binary, or returns an error and restores the backup, if one was made and can be restored.
-- After an error the link is the old one, except when it was removed and the new one could not be
-- made: then there is none.
pub perform_upgrade-IsExact :
    (c : Settings) (u : UpgradeInfo) (a : Answers) (h : Host)
    → IsExact c u a h (perform_upgrade c u a h)
perform_upgrade-IsExact c u a h = elim (Bool-cases a.valid) [
  | inr v ↦
      rw (perform_upgrade-invalid c u a h v)
        (inr (λ e. cc e, (ground (arith, v), λ path t made. cc (v, t))))
  | inl v ↦ elim (Option-cases (create_pre_upgrade_backup c a)) [
    | inl b ↦
        rw (perform_upgrade-no_backup c u a h v b)
          (inr (λ e. cc e, (ground (arith, v, b), λ path t made. cc (b, made))))
    | inr (path, b) ↦ elim (execute_upgrade_cases u path a h) [
      | inl (e, (k, (d, l))) ↦
          rw (perform_upgrade-proceeds c u a h path v b ∙ e) (inl (refl, (refl, (v, (k, (d, l))))))
      | inr (x, e) ↦
          rw (perform_upgrade-proceeds c u a h path v b ∙ e)
            (failed_with-IsExact c u a h path x v b)
    ]
  ]
]
