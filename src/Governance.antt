-- ===== src/Governance.antt =====
-- The data of internal/governance/types.go. The string types have a constructor for each constant
-- and `other` for any other text; metadata and voting statistics, which no modelled code reads, are
-- left out.
use wemixvisor.Base.{String, Option}
use wemixvisor.Base.Int.{ℤ}
use wemixvisor.Base.GoMap.{GoMap}
pub mod Scheduler
pub mod Proposals
pub mod Monitor
pub mod Notifier

pub data ProposalType : Type 0 where
  upgrade parameter text community emergency : ProposalType
  other : String → ProposalType

pub data ProposalStatus : Type 0 where
  submitted voting passed rejected failed expired : ProposalStatus
  other : String → ProposalStatus

pub data UpgradeStatus : Type 0 where
  scheduled in_progress completed failed cancelled : UpgradeStatus
  other : String → UpgradeStatus

pub record BinaryInfo : Type 0 where
  pub url : String
  pub checksum : String
  pub platform : String
  pub arch : String

pub record UpgradeInfo : Type 0 where
  pub name : String
  pub height : ℤ
  pub info : String
  pub binaries : GoMap BinaryInfo
  pub upgrade_url : String
  pub checksum_url : String
  pub status : UpgradeStatus
  pub scheduled_time : ℤ
  pub started_time : Option ℤ
  pub completed_time : Option ℤ

pub record Proposal : Type 0 where
  pub id : String
  pub title : String
  pub kind : ProposalType
  pub status : ProposalStatus
  pub submit_time : ℤ
  pub voting_end_time : ℤ
  pub upgrade_height : ℤ
  pub upgrade_info : Option UpgradeInfo
