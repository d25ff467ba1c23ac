-- ===== src/Runtime/Calls/Counted/Items.antt =====
-- The methods on work items, proposals, branches, flows, approvals and the memory keep the counts.
use layeros.Base.{String, not, ◌&&◌, reject_if, ◌≡◌, refl, none, List, ◌==◌}
use layeros.Stores.Company.{
  update_work_items_active, update_approvals_pending, update_last_release_at, update_deploy_health,
}
use layeros.Env.{Env, Domain}
use layeros.State.{Service, Saved}
use layeros.Runtime.Intact.{on_error-Between, log-Between}
use layeros.Runtime.Outcomes.{finish-Stores, checked-keeps}
use layeros.Runtime.Room.Opened.{auto_open-Between}
use layeros.Stores.Work.{create_work, create_proposal, get_work, promote_proposal}
use layeros.Stores.Delivery.{create_approval, resolve_approval}
use layeros.Stores.Control.{create_flow_run, update_flow}
use layeros.Stores.Branches.{normalize_branch, create_branch_item, merge_branch_item}
use layeros.Stores.Company.{replace_memory}
use layeros.Runtime.Room.{auto_open}
use layeros.Runtime.Work.{
  create_work_item, create_proposal_item, promote, undo_promotion, ensure_active_branch, with_work,
  normalize_proposal_item, open_proposal, promoted_work,
}
use layeros.Runtime.Branch.{create_branch, merge_branch, with_root, own_root, merge_item}
use layeros.Runtime.Flow
use layeros.Runtime.Flow.{create_flow, sync_flow, flow_work, filled_flow, synced_flow}
use layeros.Runtime.Approval.{
  create_approval_item, resolve_approval_item, replace_system_memory, with_approvals, approval_room,
}
use layeros.Runtime.Approval.Rollback.{approval_room-Between}
use layeros.Runtime.Calls.Counted.Kept.{Counted, from_same, plain, guarded}
use layeros.Types.Work.{WorkItem, Branch, ProposalItem}
use layeros.Types.Delivery.{ApprovalItem}
use layeros.Types.Control.{FlowRun}
use layeros.Types.Events.{SystemMemory}
use layeros.Runtime.Flow.{FlowRefs}
use layeros.Base.{Option}

module _ (encode : (d : Domain) → Saved d → String) (env : Env) (s : Service) (c : Counted s) where
  pub create_work_item-Counted :
      (item : WorkItem)
      → (create_work_item encode env item s).1 ≡ none
      → Counted (create_work_item encode env item s).0
  unfolding create_work_item update_work_items_active update_approvals_pending
      update_last_release_at update_deploy_health
  create_work_item-Counted item =
      checked-keeps Counted s (ensure_active_branch item.branch_id s.branches) _ (λ _.
        checked-keeps Counted s (create_work item s.work_items) _ (λ works.
          plain encode env (with_work works s) _ _ _
            (record { active = refl; pending = c.pending })))

  pub create_proposal_item-Counted :
      (raw : ProposalItem)
      → (create_proposal_item encode env raw s).1 ≡ none
      → Counted (create_proposal_item encode env raw s).0
  unfolding create_proposal_item update_work_items_active update_approvals_pending
      update_last_release_at update_deploy_health
  create_proposal_item-Counted raw =
      let item = normalize_proposal_item env.now raw in
      checked-keeps Counted s (ensure_active_branch raw.branch_id s.branches) _ (λ _.
        checked-keeps Counted s (create_proposal item s.proposals) _ (λ proposals.
          plain encode env (record s { proposals = proposals }) _ _ _
            (record { active = c.active; pending = c.pending })))

  pub promote-Counted :
      (p : String) (w : String)
      → (promote encode env p w s).1 ≡ none
      → Counted (promote encode env p w s).0
  unfolding promote update_work_items_active update_approvals_pending update_last_release_at
      update_deploy_health
  promote-Counted p w = checked-keeps Counted s (open_proposal p s.proposals) _ (λ x.
      checked-keeps Counted s (create_work (promoted_work env.now w x) s.work_items) _ (λ works.
        checked-keeps Counted s (promote_proposal p w env.now s.proposals) _ (λ r h.
          from_same (record (with_work works s) { proposals = r.1 }) _
            (record { active = refl; pending = c.pending })
            (finish-Stores encode env (record (with_work works s) { proposals = r.1 }) _ _ _ _
              (λ u q. on_error-Between u _ (undo_promotion s) (log-Between _ u) q) h))))

  pub create_branch-Counted :
      (raw : Branch)
      → (create_branch encode env raw s).1 ≡ none
      → Counted (create_branch encode env raw s).0
  unfolding create_branch update_work_items_active update_approvals_pending update_last_release_at
      update_deploy_health
  create_branch-Counted raw =
      checked-keeps Counted s (with_root (normalize_branch env.now raw) s.branches) _ (λ item.
        checked-keeps Counted s (create_branch_item env.now (own_root item) s.branches) _
          (λ branches.
            plain encode env (record s { branches = branches }) _ _ _
              (record { active = c.active; pending = c.pending })))

  pub merge_branch-Counted :
      (b : String) (t : String) (notes : Option (List String))
      → (merge_branch encode env b t notes s).1 ≡ none
      → Counted (merge_branch encode env b t notes s).0
  unfolding merge_branch update_work_items_active update_approvals_pending update_last_release_at
      update_deploy_health
  merge_branch-Counted b t notes =
      checked-keeps Counted s (merge_branch_item b t notes env.now s.branches) _ (λ r.
        guarded encode env (record s { branches = r.1 }) _
          (auto_open env (merge_item env.now r.0 t)) _ _ (auto_open-Between env _)
          (record { active = c.active; pending = c.pending }))

  pub create_flow-Counted :
      (raw : FlowRun)
      → (create_flow encode env raw s).1 ≡ none
      → Counted (create_flow encode env raw s).0
  unfolding create_flow update_work_items_active update_approvals_pending update_last_release_at
      update_deploy_health
  create_flow-Counted raw =
      checked-keeps Counted s (flow_work (get_work raw.work_item_id s.work_items)) _ (λ _.
        checked-keeps Counted s (create_flow_run (filled_flow env.now raw) s.flows) _ (λ flows.
          plain encode env (record s { flows = flows }) _ _ _
            (record { active = c.active; pending = c.pending })))

  pub sync_flow-Counted :
      (i : String) (w : String) (refs : FlowRefs) (notes : Option (List String))
      → (sync_flow encode env i w refs notes s).1 ≡ none
      → Counted (sync_flow encode env i w refs notes s).0
  unfolding sync_flow update_work_items_active update_approvals_pending update_last_release_at
      update_deploy_health
  sync_flow-Counted i w refs notes =
      checked-keeps Counted s (flow_work (get_work w s.work_items)) _ (λ work.
        checked-keeps Counted s (Flow.check_refs refs s) _ (λ _.
          checked-keeps Counted s (update_flow (synced_flow env i work refs notes s) s.flows) _
            (λ flows.
              plain encode env (record s { flows = flows }) _ _ _
                (record { active = c.active; pending = c.pending }))))

  pub create_approval_item-Counted :
      (item : ApprovalItem)
      → (create_approval_item encode env item s).1 ≡ none
      → Counted (create_approval_item encode env item s).0
  unfolding create_approval_item update_work_items_active update_approvals_pending
      update_last_release_at update_deploy_health
  create_approval_item-Counted item =
      checked-keeps Counted s (create_approval item s.approvals) _ (λ approvals.
        plain encode env (with_approvals approvals s) _ _ _
          (record { active = c.active; pending = refl }))

  pub resolve_approval_item-Counted :
      (i : String) (status : String)
      → (resolve_approval_item encode env i status s).1 ≡ none
      → Counted (resolve_approval_item encode env i status s).0
  unfolding resolve_approval_item update_work_items_active update_approvals_pending
      update_last_release_at update_deploy_health
  resolve_approval_item-Counted i status =
      checked-keeps Counted s
        (reject_if (not (status == "approved") && not (status == "rejected"))
          "approval resolve status must be approved or rejected")
        _
        (λ _. checked-keeps Counted s (resolve_approval i status env.now s.approvals) _ (λ r.
          guarded encode env (with_approvals r.1 s) _ (approval_room env r.0) _ _
            (approval_room-Between env r.0) (record { active = c.active; pending = refl })))

  pub replace_system_memory-Counted :
      (memory : SystemMemory)
      → (replace_system_memory encode env memory s).1 ≡ none
      → Counted (replace_system_memory encode env memory s).0
  unfolding replace_system_memory update_work_items_active update_approvals_pending
      update_last_release_at update_deploy_health
  replace_system_memory-Counted memory = checked-keeps Counted s (replace_memory memory) _ (λ new.
      plain encode env (record s { system_memory = new }) _ _ _
        (record { active = c.active; pending = c.pending }))
