-- ===== src/Runtime/Work/Promotion.antt =====
-- PromoteProposal: its events do not fail, and its error leaves the stores as they were.
use layeros.Base.{
  String, true, false, ◌≡◌, refl, ap, Option, none, some, List, [], ◌∷◌, ok, arith, no_error, All,
}
use layeros.Text.{is_blank}
use layeros.Json.{texts}
use layeros.Json.Check.{texts-IsObject}
use layeros.Types.Vocabulary.{valid_stage}
use layeros.Types.Events.{EventEnvelope}
use layeros.Types.Work.{WorkItem, ProposalItem, validate_work_item}
use layeros.Stores.Loop.{create_checked-eq-ok}
use layeros.Stores.Work.{create_work, promote_proposal}
use layeros.Env.{Env, Domain}
use layeros.State.{Service, Saved}
use layeros.Runtime.{on_error, log, restored_events}
use layeros.Runtime.Events.{Named, IsEvent, service_event-valid, log-valid}
use layeros.Runtime.Intact.{
  Intact, Intact-refl, checked-Intact, finish-error, on_error-Between, log-Between,
  restore_events-same, Undoes,
}
use layeros.Runtime.Work.{promote, undo_promotion, open_proposal, promoted_work, with_work}

created_given : is_blank "work_item.created" ≡ false
unfolding is_blank
created_given = refl

creation_keys : (is_blank "title" ≡ false) × ((is_blank "source" ≡ false) × Unit {0})
unfolding is_blank
creation_keys = (refl, (refl, tt))

discover_valid : valid_stage "discover" ≡ true
unfolding valid_stage
discover_valid = refl

work_created-IsEvent :
    (work : WorkItem) (l : List (String × String))
    → validate_work_item work ≡ ok tt
    → All (λ e. is_blank e.0 ≡ false) l
    → IsEvent "work_item.created" work.surface work.id work.stage (texts l)
unfolding validate_work_item
work_created-IsEvent work l h keys = record {
  kind_given = created_given;
  surface_valid = ground (arith, h);
  work_item_given = ground (arith, h);
  stage_valid = ground (arith, h);
  object = texts-IsObject l keys;
}

-- an append that does not fail leaves nothing to roll back
on_error-unused :
    {P : Type 0} (event : EventEnvelope) (u : Service) (undo : Service → Service) (e : String)
    → (log event u).1 ≡ none
    → (on_error (log event u) undo).1 ≡ some e
    → P
on_error-unused event u undo e h p = go (log event u) h p
  where
    go : {P : Type 0} (r : Service × Option String) → r.1 ≡ none → (on_error r undo).1 ≡ some e → P
    go (v, none) h p = no_error none e refl p
    go (v, some x) h p = no_error (some x) x h refl

module _ (encode : (d : Domain) → Saved d → String) (env : Env) (s : Service) (e : String) where
  undo_promotion-Undoes :
      (works : List WorkItem) (proposals : List ProposalItem)
      → Undoes s
          (record (with_work works s) { proposals = proposals })
          (λ t. restored_events env s (undo_promotion s t))
  undo_promotion-Undoes works proposals v h = record {
    stores = ap (λ t. restored_events env s (undo_promotion s t)) h.same;
    evidence = restore_events-same env.event_retention s.events;
  }

  -- An error of PromoteProposal leaves the stores as they were: the rollback of its second event would
  -- keep the first, but with an actor and a clock neither event fails.
  pub promote-atomic :
      (proposal_id work_id : String)
      → Named env
      → (promote encode env proposal_id work_id s).1 ≡ some e
      → Intact s (promote encode env proposal_id work_id s).0
  unfolding promote create_work
  promote-atomic proposal_id work_id named =
      checked-Intact s (open_proposal proposal_id s.proposals) _ e (λ x opened.
        let work = promoted_work env.now work_id x in
        checked-Intact s (create_work work s.work_items) _ e (λ works made.
          checked-Intact s (promote_proposal proposal_id work_id env.now s.proposals) _ e (λ r done.
            let valid = service_event-valid env _ _ _ _ _ named (
              work_created-IsEvent work
                (("title", work.title) ∷ ("source", "proposal.promote") ∷ [])
                (create_checked-eq-ok validate_work_item work s.work_items made).0 creation_keys) in
            finish-error encode env s (record (with_work works s) { proposals = r.1 }) _ _
              (undo_promotion s) _ e (λ _. Intact-refl s)
              (λ u _ failed. on_error-unused _ u (undo_promotion s) e (log-valid _ u valid) failed)
              (λ u p. on_error-Between u _ (undo_promotion s) (log-Between _ u) p)
              (undo_promotion-Undoes works r.1))))
