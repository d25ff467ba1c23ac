-- ===== src/Runtime/Calls/Atomic.antt =====
-- An error of a method leaves the stores as they were.
use layeros.Base.{String, ◌≡◌, some}
use layeros.Env.{Env, Domain}
use layeros.State.{Service, Saved}
use layeros.Runtime.Events.{Named}
use layeros.Runtime.Intact.{Intact}
use layeros.Runtime.Work.Rollback.{create_work_item-atomic, create_proposal_item-atomic}
use layeros.Runtime.Work.Promotion.{promote-atomic}
use layeros.Runtime.Delivery.Rollback.{
  create_release-atomic, create_deploy-atomic, create_rollback-atomic, put_deploy_target-atomic,
}
use layeros.Runtime.Policy.Rollback.{create_policy-atomic, create_execute-atomic}
use layeros.Runtime.Branch.Rollback.{create_branch-atomic, merge_branch-atomic}
use layeros.Runtime.Flow.Rollback.{create_flow-atomic, sync_flow-atomic}
use layeros.Runtime.Approval.Rollback.{
  create_approval_item-atomic, resolve_approval_item-atomic, replace_system_memory-atomic,
}
use layeros.Runtime.Verify.Rollback.{create_preflight-atomic, create_verification-atomic}
use layeros.Runtime.Gateway.Rollback.{create_gateway_call-atomic}
use layeros.Runtime.Agenda.Rollback.{add_structured-atomic, transition_room-atomic}
use layeros.Runtime.Jobs.Rollback.{create_agent_job-atomic, update_agent_job-atomic}
use layeros.Runtime.Calls.{
  Call, create_work_item_call, create_proposal_call, promote_proposal_call, create_release_call,
  create_deploy_call, create_rollback_call, put_target_call, create_policy_call,
  create_execute_call, create_branch_call, merge_branch_call, create_flow_call, sync_flow_call,
  create_approval_call, resolve_approval_call, replace_memory_call, create_preflight_call,
  create_verification_call, create_gateway_call_call, add_structured_call, transition_room_call,
  create_job_call, update_job_call, run,
}

-- With an actor and a clock, a call that answers an error, be it of a guard, a check, an event, the
-- review room or the files, leaves every store, the marks and the events in memory as they were.
pub run-atomic :
    (encode : (d : Domain) → Saved d → String) (call : Call) (env : Env) (s : Service) (e : String)
    → Named env
    → (run encode call env s).1 ≡ some e
    → Intact s (run encode call env s).0
unfolding run
run-atomic f (create_work_item_call item) env s e n = create_work_item-atomic f env s e item
run-atomic f (create_proposal_call item) env s e n = create_proposal_item-atomic f env s e item n
run-atomic f (promote_proposal_call p w) env s e n = promote-atomic f env s e p w n
run-atomic f (create_release_call item) env s e n = create_release-atomic f env s e item
run-atomic f (create_deploy_call item) env s e n = create_deploy-atomic f env s e item
run-atomic f (create_rollback_call item) env s e n = create_rollback-atomic f env s e item
run-atomic f (put_target_call item) env s e n = put_deploy_target-atomic f env s e item
run-atomic f (create_policy_call item) env s e n = create_policy-atomic f env s e item
run-atomic f (create_execute_call item) env s e n = create_execute-atomic f env s e item
run-atomic f (create_branch_call item) env s e n = create_branch-atomic f env s e item
run-atomic f (merge_branch_call b t notes) env s e n = merge_branch-atomic f env s e b t notes
run-atomic f (create_flow_call item) env s e n = create_flow-atomic f env s e item
run-atomic f (sync_flow_call i w refs notes) env s e n = sync_flow-atomic f env s e i w refs notes
run-atomic f (create_approval_call item) env s e n = create_approval_item-atomic f env s e item
run-atomic f (resolve_approval_call i status) env s e n =
    resolve_approval_item-atomic f env s e i status
run-atomic f (replace_memory_call memory) env s e n = replace_system_memory-atomic f env s e memory
run-atomic f (create_preflight_call models model item) env s e n =
    create_preflight-atomic f env s e models model item
run-atomic f (create_verification_call item) env s e n = create_verification-atomic f env s e item
run-atomic f (create_gateway_call_call adapter item payload before) env s e n =
    create_gateway_call-atomic f env s e adapter item payload before
run-atomic f (add_structured_call section item) env s e n =
    add_structured-atomic f env s e section item
run-atomic f (transition_room_call format action item resolution) env s e n =
    transition_room-atomic f env s e format action item resolution
run-atomic f (create_job_call item) env s e n = create_agent_job-atomic f env s e item n
run-atomic f (update_job_call kind job_id status notes result) env s e n =
    update_agent_job-atomic f env s e kind job_id status notes result
