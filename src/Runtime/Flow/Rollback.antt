-- ===== src/Runtime/Flow/Rollback.antt =====
-- An error of the methods on flows leaves the stores as they were.
use layeros.Base.{String, ◌≡◌, ap, Option, some, List}
use layeros.Types.Control.{FlowRun}
use layeros.Stores.Work.{get_work}
use layeros.Stores.Control.{create_flow_run, update_flow}
use layeros.Env.{Env, Domain}
use layeros.State.{Service, Saved}
use layeros.Runtime.{restored_events}
use layeros.Runtime.Intact.{
  Intact, Intact-refl, checked-Intact, finish_plain-error, restore_events-same, Undoes,
}
use layeros.Runtime.Flow.{
  FlowRefs, create_flow, sync_flow, flow_work, check_refs, synced_flow, filled_flow,
}

module _ (encode : (d : Domain) → Saved d → String) (env : Env) (s : Service) (e : String) where
  undo_flow-Undoes :
      (flows : List FlowRun)
      → Undoes s
          (record s { flows = flows })
          (λ t. restored_events env s (record t { flows = s.flows }))
  undo_flow-Undoes flows v h = record {
    stores = ap (λ t. restored_events env s (record t { flows = s.flows })) h.same;
    evidence = restore_events-same env.event_retention s.events;
  }

  -- An error of CreateFlow leaves every store in memory as it was.
  pub create_flow-atomic :
      (item : FlowRun)
      → (create_flow encode env item s).1 ≡ some e
      → Intact s (create_flow encode env item s).0
  unfolding create_flow
  create_flow-atomic raw =
      checked-Intact s (flow_work (get_work raw.work_item_id s.work_items)) _ e (λ work _.
        checked-Intact s (create_flow_run (filled_flow env.now raw) s.flows) _ e (λ flows _.
          finish_plain-error encode env s (record s { flows = flows }) _
            (λ t. record t { flows = s.flows }) _ e (λ _. Intact-refl s) (undo_flow-Undoes flows)))

  -- An error of SyncFlow leaves every store in memory as it was.
  pub sync_flow-atomic :
      (flow_id work_item_id : String) (refs : FlowRefs) (notes : Option (List String))
      → (sync_flow encode env flow_id work_item_id refs notes s).1 ≡ some e
      → Intact s (sync_flow encode env flow_id work_item_id refs notes s).0
  unfolding sync_flow
  sync_flow-atomic flow_id work_item_id refs notes =
      checked-Intact s (flow_work (get_work work_item_id s.work_items)) _ e (λ work _.
        checked-Intact s (check_refs refs s) _ e (λ _ _.
          checked-Intact s (update_flow (synced_flow env flow_id work refs notes s) s.flows) _ e
            (λ flows _.
              finish_plain-error encode env s (record s { flows = flows }) _
                (λ t. record t { flows = s.flows }) _ e (λ _. Intact-refl s)
                (undo_flow-Undoes flows))))
