-- ===== src/Types.antt =====
-- The data of pkg/types/upgrade.go. The free-form `info` map is kept as a text.
use wemixvisor.Base.{String, Option, none, some, str_eq, if◌then◌else◌}
use wemixvisor.Base.Int.{ℤ, pos, leb_ℤ}

pub record UpgradeInfo : Type 0 where
  pub name : String
  pub height : ℤ
  pub info : String

pub data ParseError : Type 0 where
  unreadable malformed empty_name invalid_height : ParseError

pub data ParseResult : Type 0 where
  ok : UpgradeInfo → ParseResult
  err : ParseError → ParseResult

-- `ParseUpgradeInfoFile`: what the file system and the JSON decoder give are arguments.
unfoldable pub parse_upgrade_info_file : (String → Option UpgradeInfo) → Option String → ParseResult
parse_upgrade_info_file unmarshal none = err unreadable
parse_upgrade_info_file unmarshal (some text) = elim (unmarshal text) [
  | none ↦ err malformed
  | some info ↦
      if str_eq info.name ""
      then err empty_name
      else if leb_ℤ info.height (pos 0)
      then err invalid_height
      else ok info
]
