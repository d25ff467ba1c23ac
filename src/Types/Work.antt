-- ===== src/Types/Work.antt =====
-- internal/runtime/types_workflow.go, types_jobs.go: work items, branches, proposals.
use layeros.Base.{String, Bool, not, ◌&&◌, Option, List, Result, ok, ◌>>◌, reject_if, is_none, ◌==◌}
use layeros.Text.{is_blank}
use layeros.Json.{Fields}
use layeros.Types.Vocabulary.{
  Time, is_zero, no_time, some_blank, no_text, validate_map, valid_stage, valid_surface,
  valid_proposal_status, valid_branch_status,
}

pub record WorkItem : Type 0 where
  pub id : String
  pub branch_id : Option String
  pub title : String
  pub intent : String
  pub stage : String
  pub surface : String
  pub pack : String
  pub priority : String
  pub risk : String
  pub requires_approval : Bool
  pub payload : Option Fields
  pub correlation_id : String
  pub created_at : Time

unfoldable pub validate_work_item : WorkItem → Result (Unit {0})
validate_work_item w = do
  reject_if (is_blank w.id) "work item id is required"
  reject_if (some_blank w.branch_id) "work item branch_id must not be empty"
  reject_if (is_blank w.title) "work item title is required"
  reject_if (is_blank w.intent) "work item intent is required"
  reject_if (not (valid_stage w.stage)) "work item stage is invalid"
  reject_if (not (valid_surface w.surface)) "work item surface is invalid"
  reject_if (is_zero w.created_at) "work item created_at is required"
  reject_if (is_none w.payload) "work item payload is required"
  validate_map w.payload "work item payload"
  ok tt

pub record Branch : Type 0 where
  pub branch_id : String
  pub parent_branch_id : Option String
  pub root_branch_id : String
  pub title : String
  pub intent : String
  pub summary : String
  pub stage : String
  pub surface : String
  pub status : String
  pub basis_ref : Option String
  pub merge_target_branch_id : Option String
  pub merged_at : Option Time
  pub notes : Option (List String)
  pub created_at : Time
  pub updated_at : Time

unfoldable pub validate_branch : Branch → Result (Unit {0})
validate_branch b = do
  reject_if (is_blank b.branch_id) "branch branch_id is required"
  reject_if (some_blank b.parent_branch_id) "branch parent_branch_id must not be empty"
  reject_if (is_blank b.root_branch_id) "branch root_branch_id is required"
  reject_if (is_blank b.title) "branch title is required"
  reject_if (is_blank b.intent) "branch intent is required"
  reject_if (is_blank b.summary) "branch summary is required"
  reject_if (not (valid_stage b.stage)) "branch stage is invalid"
  reject_if (not (valid_surface b.surface)) "branch surface is invalid"
  reject_if (not (valid_branch_status b.status)) "branch status is invalid"
  reject_if (some_blank b.basis_ref) "branch basis_ref must not be empty"
  reject_if (some_blank b.merge_target_branch_id) "branch merge_target_branch_id must not be empty"
  reject_if (b.status == "merged" && no_text b.merge_target_branch_id)
      "branch merge_target_branch_id is required for merged branch"
  reject_if (b.status == "merged" && no_time b.merged_at)
      "branch merged_at is required for merged branch"
  reject_if (is_none b.notes) "branch notes are required"
  reject_if (is_zero b.created_at) "branch created_at is required"
  reject_if (is_zero b.updated_at) "branch updated_at is required"
  ok tt

pub record ProposalItem : Type 0 where
  pub proposal_id : String
  pub branch_id : Option String
  pub title : String
  pub intent : String
  pub summary : String
  pub surface : String
  pub priority : String
  pub risk : String
  pub status : String
  pub notes : Option (List String)
  pub promoted_work_item_id : Option String
  pub created_at : Time
  pub updated_at : Time

unfoldable pub validate_proposal_item : ProposalItem → Result (Unit {0})
validate_proposal_item p = do
  reject_if (is_blank p.proposal_id) "proposal item proposal_id is required"
  reject_if (some_blank p.branch_id) "proposal item branch_id must not be empty"
  reject_if (is_blank p.title) "proposal item title is required"
  reject_if (is_blank p.intent) "proposal item intent is required"
  reject_if (is_blank p.summary) "proposal item summary is required"
  reject_if (not (valid_surface p.surface)) "proposal item surface is invalid"
  reject_if (not (valid_proposal_status p.status)) "proposal item status is invalid"
  reject_if (is_none p.notes) "proposal item notes is required"
  reject_if (is_zero p.created_at) "proposal item created_at is required"
  reject_if (is_zero p.updated_at) "proposal item updated_at is required"
  ok tt
