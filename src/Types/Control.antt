-- ===== src/Types/Control.antt =====
-- internal/runtime/types_workflow.go: flows, preflights, policies, gateway calls, executions, verifications.
use layeros.Base.{
  ℤ, String, Bool, not, ◌&&◌, ◌||◌, Option, List, Result, ok, ◌>>◌, reject_if, is_none, is_negative,
  ◌==◌,
}
use layeros.Text.{is_blank}
use layeros.Types.Vocabulary.{
  Time, is_zero, no_time, any_blank, has_none, first_is_abs, valid_preflight_status,
  valid_preflight_decision, valid_policy_scale, valid_token_class, valid_policy_mode,
  valid_gateway_status, valid_execute_status, valid_verification_status, valid_flow_status,
}

pub record FlowRun : Type 0 where
  pub flow_id : String
  pub work_item_id : String
  pub approval_id : Option String
  pub policy_decision_id : Option String
  pub execute_id : Option String
  pub verification_id : Option String
  pub release_id : Option String
  pub deploy_id : Option String
  pub rollback_id : Option String
  pub status : String
  pub notes : Option (List String)
  pub created_at : Time
  pub updated_at : Time

unfoldable pub validate_flow_run : FlowRun → Result (Unit {0})
validate_flow_run f = do
  reject_if (is_blank f.flow_id) "flow_id is required"
  reject_if (is_blank f.work_item_id) "flow work_item_id is required"
  reject_if (not (valid_flow_status f.status)) "flow status is invalid"
  reject_if (is_none f.notes) "flow notes are required"
  reject_if (is_zero f.created_at) "flow created_at is required"
  reject_if (is_zero f.updated_at) "flow updated_at is required"
  ok tt

pub record PreflightRecord : Type 0 where
  pub record_id : String
  pub task : String
  pub mode : String
  pub status : String
  pub decision : String
  pub models_used : Option (List String)
  pub steps : Option (List String)
  pub risks : Option (List String)
  pub checks : Option (List String)
  pub generated_at : Time

unfoldable pub validate_preflight_record : PreflightRecord → Result (Unit {0})
validate_preflight_record p = do
  reject_if (is_blank p.record_id) "record_id is required"
  reject_if (is_blank p.task) "preflight task is required"
  reject_if (is_blank p.mode) "preflight mode is required"
  reject_if (not (valid_preflight_status p.status)) "preflight status is invalid"
  reject_if (not (valid_preflight_decision p.decision)) "preflight decision is invalid"
  reject_if (is_none p.models_used) "preflight models_used is required"
  reject_if (is_none p.steps) "preflight steps are required"
  reject_if (is_none p.risks) "preflight risks are required"
  reject_if (is_none p.checks) "preflight checks are required"
  reject_if (is_zero p.generated_at) "preflight generated_at is required"
  ok tt

pub record PolicyDecision : Type 0 where
  pub decision_id : String
  pub intent : String
  pub scope : String
  pub risk : String
  pub novelty : String
  pub token_class : String
  pub requires_approval : Bool
  pub mode : String
  pub decision : String
  pub reasons : Option (List String)
  pub created_at : Time

unfoldable pub validate_policy_decision : PolicyDecision → Result (Unit {0})
validate_policy_decision p = do
  reject_if (is_blank p.decision_id) "policy decision_id is required"
  reject_if (is_blank p.intent) "policy intent is required"
  reject_if (is_blank p.scope) "policy scope is required"
  reject_if (not (valid_policy_scale p.risk)) "policy risk is invalid"
  reject_if (not (valid_policy_scale p.novelty)) "policy novelty is invalid"
  reject_if (not (valid_token_class p.token_class)) "policy token_class is invalid"
  reject_if (not (valid_policy_mode p.mode)) "policy mode is invalid"
  reject_if (not (valid_preflight_decision p.decision)) "policy decision is invalid"
  reject_if (is_none p.reasons) "policy reasons are required"
  reject_if (is_zero p.created_at) "policy created_at is required"
  ok tt

pub record GatewayCall : Type 0 where
  pub call_id : String
  pub decision_id : String
  pub provider : String
  pub model : String
  pub request_kind : String
  pub status : String
  pub attempt_count : ℤ
  pub last_http_status : Option ℤ
  pub last_error : Option String
  pub response_preview : Option String
  pub dispatched_at : Option Time
  pub token_budget : ℤ
  pub notes : Option (List String)
  pub created_at : Time

unfoldable pub validate_gateway_call : GatewayCall → Result (Unit {0})
validate_gateway_call g = do
  reject_if (is_blank g.call_id) "gateway call_id is required"
  reject_if (is_blank g.decision_id) "gateway decision_id is required"
  reject_if (is_blank g.provider) "gateway provider is required"
  reject_if (is_blank g.model) "gateway model is required"
  reject_if (is_blank g.request_kind) "gateway request_kind is required"
  reject_if (not (valid_gateway_status g.status)) "gateway status is invalid"
  reject_if (is_negative g.attempt_count) "gateway attempt_count must not be negative"
  reject_if (is_negative g.token_budget) "gateway token_budget must not be negative"
  reject_if (is_none g.notes) "gateway notes are required"
  reject_if (is_zero g.created_at) "gateway created_at is required"
  ok tt

pub record ExecuteRun : Type 0 where
  pub execute_id : String
  pub work_item_id : String
  pub policy_decision_id : String
  pub mode : String
  pub status : String
  pub notes : Option (List String)
  pub started_at : Time
  pub finished_at : Option Time

unfoldable pub validate_execute_run : ExecuteRun → Result (Unit {0})
validate_execute_run e = do
  reject_if (is_blank e.execute_id) "execute_id is required"
  reject_if (is_blank e.work_item_id) "execute work_item_id is required"
  reject_if (is_blank e.policy_decision_id) "execute policy_decision_id is required"
  reject_if (not (valid_policy_mode e.mode)) "execute mode is invalid"
  reject_if (not (valid_execute_status e.status)) "execute status is invalid"
  reject_if (is_none e.notes) "execute notes are required"
  reject_if (is_zero e.started_at) "execute started_at is required"
  reject_if ((e.status == "succeeded" || e.status == "failed") && no_time e.finished_at)
      "execute finished_at is required for completed execute"
  ok tt

pub record VerificationRecord : Type 0 where
  pub record_id : String
  pub scope : String
  pub command : Option (List String)
  pub status : String
  pub notes : Option (List String)
  pub started_at : Time
  pub finished_at : Option Time

unfoldable pub validate_verification_record : VerificationRecord → Result (Unit {0})
validate_verification_record v = do
  reject_if (is_blank v.record_id) "verification record_id is required"
  reject_if (is_blank v.scope) "verification scope is required"
  reject_if (has_none v.command) "verification command is required"
  reject_if (any_blank v.command) "verification command parts must not be empty"
  reject_if (not (first_is_abs v.command)) "verification executable must be an absolute path"
  reject_if (not (valid_verification_status v.status)) "verification status is invalid"
  reject_if (is_none v.notes) "verification notes are required"
  reject_if (is_zero v.started_at) "verification started_at is required"
  reject_if ((v.status == "passed" || v.status == "failed") && no_time v.finished_at)
      "verification finished_at is required for completed verification"
  ok tt
