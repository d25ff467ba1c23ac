-- ===== src/Types/Jobs.antt =====
-- internal/runtime/types_jobs.go: agent jobs and the rules that chain them.
use layeros.Base.{
  String, Bool, not, ◌&&◌, Option, some, List, Result, ok, ◌>>◌, reject_if, is_none, ◌==◌,
}
use layeros.Text.{is_blank}
use layeros.Json.{Fields}
use layeros.Types.Vocabulary.{
  Time, is_zero, some_blank, has_none, validate_map, validate_each, valid_stage, valid_surface,
  valid_agent_job_status, valid_agent_job_terminal_status,
}

pub record AgentJob : Type 0 where
  pub job_id : String
  pub branch_id : Option String
  pub kind : String
  pub role : String
  pub summary : String
  pub status : String
  pub source : String
  pub surface : String
  pub stage : String
  pub ref : Option String
  pub payload : Option Fields
  pub result : Option Fields
  pub notes : Option (List String)
  pub created_at : Time
  pub updated_at : Time

unfoldable pub validate_agent_job : AgentJob → Result (Unit {0})
validate_agent_job j = do
  reject_if (is_blank j.job_id) "agent job job_id is required"
  reject_if (some_blank j.branch_id) "agent job branch_id must not be empty"
  reject_if (is_blank j.kind) "agent job kind is required"
  reject_if (is_blank j.role) "agent job role is required"
  reject_if (is_blank j.summary) "agent job summary is required"
  reject_if (not (valid_agent_job_status j.status)) "agent job status is invalid"
  reject_if (is_blank j.source) "agent job source is required"
  reject_if (not (valid_surface j.surface)) "agent job surface is invalid"
  reject_if (not (valid_stage j.stage)) "agent job stage is invalid"
  reject_if (some_blank j.ref) "agent job ref must not be empty"
  validate_map j.payload "agent job payload"
  validate_map j.result "agent job result"
  reject_if (is_none j.notes) "agent job notes are required"
  reject_if (is_zero j.created_at) "agent job created_at is required"
  reject_if (is_zero j.updated_at) "agent job updated_at is required"
  ok tt

pub record ChainRule : Type 0 where
  pub rule_id : String
  pub on_status : String
  pub next_kind : String
  pub next_role : String
  pub next_stage : String
  pub surface : String
  pub summary : String
  pub auto_dispatch : Bool
  pub notify_telegram : Bool
  pub payload : Option Fields
  pub notes : Option (List String)

unfoldable pub validate_chain_rule : ChainRule → Result (Unit {0})
validate_chain_rule c = do
  reject_if (is_blank c.rule_id) "chain rule rule_id is required"
  reject_if (not (valid_agent_job_terminal_status c.on_status)) "chain rule on_status is invalid"
  reject_if (is_blank c.next_kind) "chain rule next_kind is required"
  reject_if (is_blank c.next_role) "chain rule next_role is required"
  reject_if (not (c.next_stage == "") && not (valid_stage c.next_stage))
      "chain rule next_stage is invalid"
  reject_if (not (c.surface == "") && not (valid_surface c.surface)) "chain rule surface is invalid"
  reject_if (is_blank c.summary) "chain rule summary is required"
  validate_map c.payload "chain rule payload"
  ok tt

pub record ChainRules : Type 0 where
  pub rules : List ChainRule

unfoldable pub validate_chain_rules : ChainRules → Result (Unit {0})
validate_chain_rules c = do
  reject_if (has_none (some c.rules)) "chain rules are required"
  validate_each validate_chain_rule c.rules
