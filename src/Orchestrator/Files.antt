-- ===== src/Orchestrator/Files.antt =====
-- The way of an upgrade from the upgrade file through the watcher and the orchestrator to the node.
use wemixvisor.Base.{
  ℕ, ◌≡◌, ◌≢◌, ◌<◌, refl, Option, none, some, true, false, List, ◌∷◌, ◌++◌, String, All, arith,
  Option-cases, inl, inr, str_eq, if◌then◌else◌,
}
use wemixvisor.Base.Int.{ℤ, pos, ◌<ℤ◌, leb_ℤ}
use wemixvisor.Types.{UpgradeInfo, ParseError, ParseResult, parse_upgrade_info_file}
use wemixvisor.Watcher.{FileWatcher, present, differs, check_for_update, clear_update_flag}
use wemixvisor.Watcher.Detection.{check_for_update_new}
use wemixvisor.Orchestrator.{NodeManager, Orchestrator, watch_tick, schedule_upgrade, on_heights}
use wemixvisor.Orchestrator.Heights.{upgrade_node, on_heights_exact}

-- What the checks after the decoding let through.
checked_sound :
    (read info : UpgradeInfo)
    → (if str_eq read.name ""
        then ParseResult.err ParseError.empty_name
        else if leb_ℤ read.height (pos 0)
        then ParseResult.err ParseError.invalid_height
        else ParseResult.ok read)
      ≡ ParseResult.ok info
    → (info.name ≢ "") × (pos 0 <ℤ info.height)
checked_sound read info p = (λ named. ground (arith, p), ground (arith, p))

parse_upgrade_info_file_sound :
    (unmarshal : String → Option UpgradeInfo) (content : Option String) (info : UpgradeInfo)
    → parse_upgrade_info_file unmarshal content ≡ ParseResult.ok info
    → (info.name ≢ "") × (pos 0 <ℤ info.height)
unfolding parse_upgrade_info_file
parse_upgrade_info_file_sound unmarshal none info p = absurd (ground (arith, p))
parse_upgrade_info_file_sound unmarshal (some text) info p = elim (Option-cases (unmarshal text)) [
  | inl e ↦ absurd (ground (arith, p))
  | inr (read, e) ↦ checked_sound read info (rw (e, parse_upgrade_info_file) at p)
]

watch_tick_found :
    {N : Type 0} (w : FileWatcher) (info : UpgradeInfo) (o : Orchestrator N)
    → watch_tick (record w { current_info = some info; needs_update = true }) o
      ≡ (record w { current_info = some info; needs_update = false }, schedule_upgrade info o)
unfolding watch_tick clear_update_flag
watch_tick_found w info o = refl

-- If no upgrade is under way, an upgrade file that is not empty, is newer than the last one read
-- and parses to an upgrade that differs from the known one reaches the node: after the watcher's
-- check and a tick of the orchestrator, once the height of the upgrade is received and only lower
-- ones were before it, the node has been stopped and started as for `upgrade_node`, and nothing is
-- pending. Nothing is assumed of the upgrade's name and height, which the parser checks. The
-- watcher's flag is clear again after the tick.
pub detected_upgrade_executed :
    {N : Type 0} (M : NodeManager N) (unmarshal : String → Option UpgradeInfo)
    (content : Option String) (info : UpgradeInfo) (size : ℕ) (mtime : ℤ) (w : FileWatcher)
    (o : Orchestrator N) (before rest : List (ℤ × List UpgradeInfo)) (during : List UpgradeInfo)
    → parse_upgrade_info_file unmarshal content ≡ ParseResult.ok info
    → 0 < size
    → w.last_mod_time <ℤ mtime
    → differs info w.current_info ≡ true
    → o.upgrading ≡ false
    → All (λ b. b.0 <ℤ info.height) before
    → let file = present size mtime (parse_upgrade_info_file unmarshal content) in
      let (w', o') = watch_tick (check_for_update file w).0 o in
      (on_heights M (before ++ (info.height, during) ∷ rest) o'
        ≡ record o { node = upgrade_node M o.node; pending_upgrade = none })
      × (w'.needs_update ≡ false)
unfolding schedule_upgrade
detected_upgrade_executed M unmarshal content info size mtime w o before rest during p s n d idle
      all =
    let (named, positive) = parse_upgrade_info_file_sound unmarshal content info p in
    rw
      (
        p,
        check_for_update_new size mtime info w s n d,
        watch_tick_found (record w { last_mod_time = mtime }) info o,
      )
      (
        on_heights_exact M before rest during (record o { pending_upgrade = some info }) info refl
            idle named positive all,
        refl,
      )
