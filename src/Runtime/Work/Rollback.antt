-- ===== src/Runtime/Work/Rollback.antt =====
-- An error of the methods on work items and proposals leaves the stores as they were.
use layeros.Text.{is_blank}
use layeros.Types.Vocabulary.{valid_stage}
use layeros.Json.Check.{texts-IsObject}
use layeros.Base.{String, arith, no_error, true, false, ◌≡◌, refl, ap, some, List, ok}
use layeros.Types.Work.{WorkItem, ProposalItem, validate_proposal_item}
use layeros.Stores.Work.{create_work, create_proposal}
use layeros.Stores.Loop.{create_checked-eq-ok}
use layeros.Runtime.Events.{Named, IsEvent, service_event-valid, log-valid}
use layeros.Env.{Env, Domain}
use layeros.State.{Service, Saved}
use layeros.Runtime.{restored_events}
use layeros.Runtime.Intact.{
  Intact, Intact-refl, checked-Intact, finish_plain-error, restore_events-same, Undoes,
}
use layeros.Runtime.Work.{
  create_work_item, ensure_active_branch, undo_work, with_work, create_proposal_item,
  normalize_proposal_item, undo_promotion, proposal_fields, proposal_event,
}

module _ (encode : (d : Domain) → Saved d → String) (env : Env) (s : Service) (e : String) where
  undo_work-Undoes :
      (works : List WorkItem)
      → Undoes s (with_work works s) (λ t. restored_events env s (undo_work s t))
  undo_work-Undoes works v h = record {
    stores = ap (λ t. restored_events env s (undo_work s t)) h.same;
    evidence = restore_events-same env.event_retention s.events;
  }

  -- An error of CreateWorkItem, of its guards, its event or the files, leaves the stores as they were.
  pub create_work_item-atomic :
      (item : WorkItem)
      → (create_work_item encode env item s).1 ≡ some e
      → Intact s (create_work_item encode env item s).0
  unfolding create_work_item
  create_work_item-atomic item =
      checked-Intact s (ensure_active_branch item.branch_id s.branches) _ e (λ _ _.
        checked-Intact s (create_work item s.work_items) _ e (λ works _.
          finish_plain-error encode env s (with_work works s) _ (undo_work s) _ e
            (λ _. Intact-refl s) (undo_work-Undoes works)))

  undo_proposals-Undoes :
      (proposals : List ProposalItem)
      → Undoes s
          (record s { proposals = proposals })
          (λ t. restored_events env s (record t { proposals = s.proposals }))
  undo_proposals-Undoes proposals v h = record {
    stores = ap (λ t. restored_events env s (record t { proposals = s.proposals })) h.same;
    evidence = restore_events-same env.event_retention s.events;
  }

  created_given : is_blank "proposal.created" ≡ false
  unfolding is_blank
  created_given = refl

  keys_given :
      (is_blank "title" ≡ false)
      × ((is_blank "status" ≡ false) × ((is_blank "summary" ≡ false) × Unit {0}))
  unfolding is_blank
  keys_given = (refl, (refl, (refl, tt)))

  discover_valid : valid_stage "discover" ≡ true
  unfolding valid_stage
  discover_valid = refl

  -- what the check of a proposal says of the event on it
  proposal_created-IsEvent :
      (item : ProposalItem)
      → validate_proposal_item item ≡ ok tt
      → IsEvent "proposal.created" item.surface item.proposal_id "discover" (proposal_fields item)
  unfolding validate_proposal_item
  proposal_created-IsEvent item h = record {
    kind_given = created_given;
    surface_valid = ground (arith, h);
    work_item_given = ground (arith, h);
    stage_valid = discover_valid;
    object = texts-IsObject _ keys_given;
  }

  -- An error of CreateProposal leaves the stores as they were, though a failed event would roll
  -- nothing back: with an actor and a clock, the event of a checked proposal does not fail.
  pub create_proposal_item-atomic :
      (item : ProposalItem)
      → Named env
      → (create_proposal_item encode env item s).1 ≡ some e
      → Intact s (create_proposal_item encode env item s).0
  unfolding create_proposal_item create_proposal
  create_proposal_item-atomic raw named =
      let item = normalize_proposal_item env.now raw in
      checked-Intact s (ensure_active_branch raw.branch_id s.branches) _ e (λ _ _.
        checked-Intact s (create_proposal item s.proposals) _ e (λ proposals made.
          finish_plain-error encode env s (record s { proposals = proposals }) _ (λ t. t) _ e
            (λ failed.
              no_error _ e
                (log-valid (proposal_event env item) (record s { proposals = proposals })
                  (service_event-valid env _ _ _ _ _ named (
                    proposal_created-IsEvent item
                      (create_checked-eq-ok validate_proposal_item item s.proposals made).0)))
                failed)
            (undo_proposals-Undoes proposals)))

  undo_promotion-Undoes :
      (works : List WorkItem) (proposals : List ProposalItem)
      → Undoes s
          (record (with_work works s) { proposals = proposals })
          (λ t. restored_events env s (undo_promotion s t))
  undo_promotion-Undoes works proposals v h = record {
    stores = ap (λ t. restored_events env s (undo_promotion s t)) h.same;
    evidence = restore_events-same env.event_retention s.events;
  }
