-- ===== src/Watcher/Detection.antt =====
-- Which changes of the upgrade file are detected.
use wemixvisor.Base.{
  ℕ, ◌≡◌, ◌<◌, refl, Option, none, some, true, false, arith, ◌||◌, inl, inr, Bool-cases,
}
use wemixvisor.Base.Int.{ℤ, eq_ℤ→eq, ◌<ℤ◌}
use wemixvisor.Types.{UpgradeInfo, ParseResult}
use wemixvisor.Watcher.{
  FileState, present, FileWatcher, differs, found, check_for_update, check_file,
}

check_file_found :
    (size : ℕ) (mtime : ℤ) (info : UpgradeInfo) (w : FileWatcher)
    → 0 < size
    → w.last_mod_time <ℤ mtime
    → check_file (present size mtime (ParseResult.ok info)) w
      ≡ (record w { last_mod_time = mtime }, found info)
unfolding check_file
check_file_found size mtime info w s n = ground arith

differs_none :
    (info : UpgradeInfo) (o : Option UpgradeInfo)
    → differs info o ≡ false
    → (cur : UpgradeInfo) × (o ≡ some cur) × (cur.name ≡ info.name) × (cur.height ≡ info.height)
differs_none info none d = ground arith
differs_none info (some old) d =
    (old, refl, ground arith, ground (arith, eq_ℤ→eq info.height old.height))

pub check_for_update_new :
    (size : ℕ) (mtime : ℤ) (info : UpgradeInfo) (w : FileWatcher)
    → 0 < size
    → w.last_mod_time <ℤ mtime
    → differs info w.current_info ≡ true
    → check_for_update (present size mtime (ParseResult.ok info)) w
      ≡ (record w { last_mod_time = mtime; current_info = some info; needs_update = true }, true)
unfolding check_for_update
check_for_update_new size mtime info w s n d =
    ground (arith, check_file_found size mtime info w s n)

check_for_update_same :
    (size : ℕ) (mtime : ℤ) (info : UpgradeInfo) (w : FileWatcher)
    → 0 < size
    → w.last_mod_time <ℤ mtime
    → differs info w.current_info ≡ false
    → check_for_update (present size mtime (ParseResult.ok info)) w
      ≡ (record w { last_mod_time = mtime }, false)
unfolding check_for_update
check_for_update_same size mtime info w s n d =
    ground (arith, check_file_found size mtime info w s n)

-- A file that is not empty, is newer than the last one read and parses is always taken note of:
-- afterwards the current upgrade has the name and the height of the file, the update is reported
-- exactly if they differ from the upgrade before, and the flag is set exactly if it was set before
-- or an update is reported.
pub check_for_update_complete :
    (size : ℕ) (mtime : ℤ) (info : UpgradeInfo) (w : FileWatcher)
    → 0 < size
    → w.last_mod_time <ℤ mtime
    → let (w', reported) = check_for_update (present size mtime (ParseResult.ok info)) w in
      (reported ≡ differs info w.current_info)
      × (w'.needs_update ≡ (w.needs_update || reported))
      × (w'.last_mod_time ≡ mtime)
      × ((cur : UpgradeInfo) × (w'.current_info ≡ some cur)
          × (cur.name ≡ info.name)
          × (cur.height ≡ info.height))
check_for_update_complete size mtime info w s n = elim (Bool-cases (differs info w.current_info)) [
  | inl d ↦
      rw (d, check_for_update_new size mtime info w s n d)
        (refl, ground arith, refl, (info, refl, refl, refl))
  | inr d ↦
      rw (d, check_for_update_same size mtime info w s n d)
        (refl, ground arith, refl, differs_none info w.current_info d)
]

-- Checking the same file once more reports nothing and changes nothing.
pub check_for_update_idem :
    (f : FileState) (w : FileWatcher)
    → check_for_update f (check_for_update f w).0 ≡ ((check_for_update f w).0, false)
unfolding check_for_update
check_for_update_idem f w = ground arith
