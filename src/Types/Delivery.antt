-- ===== src/Types/Delivery.antt =====
-- internal/runtime/types_workflow.go: approvals, releases, deploys, rollbacks and their targets.
use layeros.Base.{String, not, ◌&&◌, ◌||◌, Option, List, Result, ok, ◌>>◌, reject_if, is_none, ◌==◌}
use layeros.Text.{is_blank}
use layeros.Json.{Fields}
use layeros.Types.Vocabulary.{
  Time, is_zero, no_time, any_blank, has_none, validate_map, first_is_abs, some_relative,
  valid_stage, valid_surface, valid_rollback_status, valid_approval_status, valid_deploy_status,
}

pub record ApprovalItem : Type 0 where
  pub approval_id : String
  pub work_item_id : String
  pub stage : String
  pub summary : String
  pub risks : Option (List String)
  pub rollback_plan : String
  pub decision_surface : String
  pub status : String
  pub requested_at : Time
  pub resolved_at : Option Time

unfoldable pub validate_approval_item : ApprovalItem → Result (Unit {0})
validate_approval_item a = do
  reject_if (is_blank a.approval_id) "approval_id is required"
  reject_if (is_blank a.work_item_id) "work_item_id is required"
  reject_if (not (valid_stage a.stage)) "approval stage is invalid"
  reject_if (not (valid_surface a.decision_surface)) "decision_surface is invalid"
  reject_if (is_blank a.summary) "approval summary is required"
  reject_if (not (valid_approval_status a.status)) "approval status is invalid"
  reject_if (is_zero a.requested_at) "requested_at is required"
  reject_if ((a.status == "approved" || a.status == "rejected") && no_time a.resolved_at)
      "resolved_at is required for resolved approval"
  ok tt

pub record ReleasePacket : Type 0 where
  pub release_id : String
  pub work_item_id : String
  pub target : String
  pub channel : String
  pub artifacts : Option (List String)
  pub metrics : Option Fields
  pub rollback_plan : String
  pub approval_refs : Option (List String)
  pub released_at : Option Time

unfoldable pub validate_release_packet : ReleasePacket → Result (Unit {0})
validate_release_packet r = do
  reject_if (is_blank r.release_id) "release_id is required"
  reject_if (is_blank r.work_item_id) "work_item_id is required"
  reject_if (is_blank r.target) "release target is required"
  reject_if (is_blank r.channel) "release channel is required"
  reject_if (is_none r.artifacts) "release artifacts are required"
  reject_if (is_none r.metrics) "release metrics are required"
  validate_map r.metrics "release metrics"
  reject_if (is_none r.approval_refs) "release approval_refs are required"
  reject_if (no_time r.released_at) "released_at is required"
  ok tt

pub record DeployRun : Type 0 where
  pub deploy_id : String
  pub release_id : String
  pub target : String
  pub status : String
  pub notes : Option (List String)
  pub started_at : Time
  pub finished_at : Option Time

unfoldable pub validate_deploy_run : DeployRun → Result (Unit {0})
validate_deploy_run d = do
  reject_if (is_blank d.deploy_id) "deploy_id is required"
  reject_if (is_blank d.release_id) "release_id is required"
  reject_if (is_blank d.target) "deploy target is required"
  reject_if (not (valid_deploy_status d.status)) "deploy status is invalid"
  reject_if (is_none d.notes) "deploy notes are required"
  reject_if (is_zero d.started_at) "deploy started_at is required"
  reject_if ((d.status == "succeeded" || d.status == "failed") && no_time d.finished_at)
      "deploy finished_at is required for completed deploy"
  ok tt

pub record RollbackRun : Type 0 where
  pub rollback_id : String
  pub release_id : String
  pub deploy_id : Option String
  pub target : String
  pub status : String
  pub notes : Option (List String)
  pub started_at : Time
  pub finished_at : Option Time

unfoldable pub validate_rollback_run : RollbackRun → Result (Unit {0})
validate_rollback_run r = do
  reject_if (is_blank r.rollback_id) "rollback_id is required"
  reject_if (is_blank r.release_id) "release_id is required"
  reject_if (is_blank r.target) "rollback target is required"
  reject_if (not (valid_rollback_status r.status)) "rollback status is invalid"
  reject_if (is_none r.notes) "rollback notes are required"
  reject_if (is_zero r.started_at) "rollback started_at is required"
  reject_if ((r.status == "succeeded" || r.status == "failed") && no_time r.finished_at)
      "rollback finished_at is required for completed rollback"
  ok tt

pub record DeployTarget : Type 0 where
  pub target_id : String
  pub command : Option (List String)
  pub workdir : Option String

unfoldable pub validate_deploy_target : DeployTarget → Result (Unit {0})
validate_deploy_target d = do
  reject_if (is_blank d.target_id) "target_id is required"
  reject_if (has_none d.command) "deploy target command is required"
  reject_if (any_blank d.command) "deploy target command parts must not be empty"
  reject_if (not (first_is_abs d.command))
      "deploy target command must start with an absolute binary path"
  reject_if (some_relative d.workdir) "deploy target workdir must be an absolute path"
  ok tt
