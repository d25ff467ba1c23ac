-- ===== src/Runtime/Calls/Counted.antt =====
-- The numbers that the state keeps of the work items and of the pending approvals.
mod Kept
mod Items
mod Delivery
mod Agents
use mathlib.Core.Path.{subst}
use layeros.Base.{String, All, ◌≡◌, sym, inl, inr, none, List, [], ◌∷◌, Option-cases}
use layeros.Env.{Env, Domain}
use layeros.State.{Service, Saved}
use layeros.Runtime.Events.{Named}
use layeros.Runtime.Calls.Atomic.{run-atomic}
use layeros.Runtime.Calls.{
  Call, create_work_item_call, create_proposal_call, promote_proposal_call, create_release_call,
  create_deploy_call, create_rollback_call, put_target_call, create_policy_call,
  create_execute_call, create_branch_call, merge_branch_call, create_flow_call, sync_flow_call,
  create_approval_call, resolve_approval_call, replace_memory_call, create_preflight_call,
  create_verification_call, create_gateway_call_call, add_structured_call, transition_room_call,
  create_job_call, update_job_call, run, run_all,
}
pub use layeros.Runtime.Calls.Counted.Kept.{Counted}
use layeros.Runtime.Calls.Counted.Items.{
  create_work_item-Counted, create_proposal_item-Counted, promote-Counted, create_branch-Counted,
  merge_branch-Counted, create_flow-Counted, sync_flow-Counted, create_approval_item-Counted,
  resolve_approval_item-Counted, replace_system_memory-Counted,
}
use layeros.Runtime.Calls.Counted.Delivery.{
  create_release-Counted, create_deploy-Counted, create_rollback-Counted, put_deploy_target-Counted,
  create_policy-Counted, create_execute-Counted, create_preflight-Counted,
  create_verification-Counted, create_gateway_call-Counted,
}
use layeros.Runtime.Calls.Counted.Agents.{
  add_structured-Counted, transition_room-Counted, create_agent_job-Counted,
  update_agent_job-Counted,
}

module _ (encode : (d : Domain) → Saved d → String) (env : Env) (s : Service) (c : Counted s) where
  run-done : (call : Call) → (run encode call env s).1 ≡ none → Counted (run encode call env s).0
  unfolding run
  run-done (create_work_item_call item) = create_work_item-Counted encode env s c item
  run-done (create_proposal_call raw) = create_proposal_item-Counted encode env s c raw
  run-done (promote_proposal_call p w) = promote-Counted encode env s c p w
  run-done (create_release_call raw) = create_release-Counted encode env s c raw
  run-done (create_deploy_call raw) = create_deploy-Counted encode env s c raw
  run-done (create_rollback_call raw) = create_rollback-Counted encode env s c raw
  run-done (put_target_call item) = put_deploy_target-Counted encode env s c item
  run-done (create_policy_call item) = create_policy-Counted encode env s c item
  run-done (create_execute_call item) = create_execute-Counted encode env s c item
  run-done (create_branch_call raw) = create_branch-Counted encode env s c raw
  run-done (merge_branch_call b t notes) = merge_branch-Counted encode env s c b t notes
  run-done (create_flow_call raw) = create_flow-Counted encode env s c raw
  run-done (sync_flow_call i w refs notes) = sync_flow-Counted encode env s c i w refs notes
  run-done (create_approval_call item) = create_approval_item-Counted encode env s c item
  run-done (resolve_approval_call i status) = resolve_approval_item-Counted encode env s c i status
  run-done (replace_memory_call memory) = replace_system_memory-Counted encode env s c memory
  run-done (create_preflight_call models model item) =
      create_preflight-Counted encode env s c models model item
  run-done (create_verification_call item) = create_verification-Counted encode env s c item
  run-done (create_gateway_call_call adapter item payload before) =
      create_gateway_call-Counted encode env s c adapter item payload before
  run-done (add_structured_call section raw) = add_structured-Counted encode env s c section raw
  run-done (transition_room_call format action item resolution) =
      transition_room-Counted encode env s c format action item resolution
  run-done (create_job_call raw) = create_agent_job-Counted encode env s c raw
  run-done (update_job_call kind job_id status notes result) =
      update_agent_job-Counted encode env s c kind job_id status notes result

  -- whatever a call answers
  pub run-Counted : (call : Call) → Named env → Counted (run encode call env s).0
  run-Counted call n = elim (Option-cases (run encode call env s).1) [
    | inl done ↦ run-done call done
    | inr (e, failed) ↦
        subst Counted (sym (run-atomic encode call env s e n failed).stores)
          (record { active = c.active; pending = c.pending })
  ]

-- After any calls, each with an actor and a clock, and whatever they answer, the state's number of work
-- items is that of the work items, and its number of pending approvals that of the pending ones.
pub run_all-Counted :
    (encode : (d : Domain) → Saved d → String) (calls : List (Call × Env)) (s : Service)
    → All (λ c. Named c.1) calls
    → Counted s
    → Counted (run_all encode calls s)
unfolding run_all
run_all-Counted encode [] s n c = c
run_all-Counted encode ((call, env) ∷ calls) s n c =
    run_all-Counted encode calls (run encode call env s).0 n.1 (run-Counted encode env s c call n.0)
