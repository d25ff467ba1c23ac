-- ===== src/Runtime/Calls.antt =====
-- The methods of Service as calls, and runs of many calls.
pub mod Atomic
pub mod Counted
use layeros.Base.{String, Option, List, [], ◌∷◌}
use layeros.Types.Work.{WorkItem, Branch, ProposalItem}
use layeros.Types.Delivery.{ApprovalItem, ReleasePacket, DeployRun, RollbackRun, DeployTarget}
use layeros.Json.{Fields}
use layeros.Types.Vocabulary.{Time}
use layeros.Types.Jobs.{AgentJob}
use layeros.Types.Review.{ReviewRoomItem, ReviewRoomResolution}
use layeros.Types.Control.{
  FlowRun, PolicyDecision, ExecuteRun, PreflightRecord, VerificationRecord, GatewayCall,
}
use layeros.Types.Events.{SystemMemory}
use layeros.Env.{Env, Domain}
use layeros.State.{Service, Saved}
use layeros.Persist.{Outcome}
use layeros.Runtime.Work.{create_work_item, create_proposal_item, promote}
use layeros.Runtime.Delivery.{create_release, create_deploy, create_rollback, put_deploy_target}
use layeros.Runtime.Policy.{create_policy, create_execute}
use layeros.Runtime.Branch.{create_branch, merge_branch}
use layeros.Runtime.Flow.{FlowRefs, create_flow, sync_flow}
use layeros.Runtime.Verify.{create_preflight, create_verification}
use layeros.Runtime.Gateway.{Adapter, create_gateway_call}
use layeros.Runtime.Agenda.{add_structured, transition_room}
use layeros.Runtime.Jobs.{create_agent_job, update_agent_job}
use layeros.Runtime.Approval.{create_approval_item, resolve_approval_item, replace_system_memory}

pub data Call : Type 0 where
  create_work_item_call : WorkItem → Call
  create_proposal_call : ProposalItem → Call
  promote_proposal_call : String → String → Call
  create_release_call : ReleasePacket → Call
  create_deploy_call : DeployRun → Call
  create_rollback_call : RollbackRun → Call
  put_target_call : DeployTarget → Call
  create_policy_call : PolicyDecision → Call
  create_execute_call : ExecuteRun → Call
  create_branch_call : Branch → Call
  merge_branch_call : String → String → Option (List String) → Call
  create_flow_call : FlowRun → Call
  sync_flow_call : String → String → FlowRefs → Option (List String) → Call
  create_approval_call : ApprovalItem → Call
  resolve_approval_call : String → String → Call
  replace_memory_call : SystemMemory → Call
  create_preflight_call : String → String → PreflightRecord → Call
  create_verification_call : VerificationRecord → Call
  -- with the service at the first lock of the method
  create_gateway_call_call : Adapter → GatewayCall → Option Fields → Service → Call
  add_structured_call : String → ReviewRoomItem → Call
  transition_room_call : (Time → String) → String → String → Option ReviewRoomResolution → Call
  create_job_call : AgentJob → Call
  update_job_call : String → String → String → Option (List String) → Option Fields → Call

module _ (encode : (d : Domain) → Saved d → String) where
  unfoldable pub run : Call → Env → Service → Outcome
  run (create_work_item_call item) env = create_work_item encode env item
  run (create_proposal_call item) env = create_proposal_item encode env item
  run (promote_proposal_call proposal_id work_id) env = promote encode env proposal_id work_id
  run (create_release_call item) env = create_release encode env item
  run (create_deploy_call item) env = create_deploy encode env item
  run (create_rollback_call item) env = create_rollback encode env item
  run (put_target_call item) env = put_deploy_target encode env item
  run (create_policy_call item) env = create_policy encode env item
  run (create_execute_call item) env = create_execute encode env item
  run (create_branch_call item) env = create_branch encode env item
  run (merge_branch_call branch_id target_branch_id notes) env =
      merge_branch encode env branch_id target_branch_id notes
  run (create_flow_call item) env = create_flow encode env item
  run (sync_flow_call flow_id work_item_id refs notes) env =
      sync_flow encode env flow_id work_item_id refs notes
  run (create_approval_call item) env = create_approval_item encode env item
  run (resolve_approval_call approval_id status) env =
      resolve_approval_item encode env approval_id status
  run (replace_memory_call memory) env = replace_system_memory encode env memory
  run (create_preflight_call models model item) env = create_preflight encode env models model item
  run (create_verification_call item) env = create_verification encode env item
  run (create_gateway_call_call adapter item payload before) env =
      create_gateway_call encode env adapter item payload before
  run (add_structured_call section item) env = add_structured encode env section item
  run (transition_room_call format action item resolution) env =
      transition_room encode format env action item resolution
  run (create_job_call item) env = create_agent_job encode env item
  run (update_job_call kind job_id status notes result) env =
      update_agent_job encode env kind job_id status notes result

  -- calls one after the other, each in its own circumstances, whatever they answer
  unfoldable pub run_all : List (Call × Env) → Service → Service
  unfolding run
  run_all [] s = s
  run_all ((call, env) ∷ calls) s = run_all calls (run call env s).0
