-- ===== src/Runtime/Work.antt =====
-- internal/runtime/service.go, service_proposal.go, service_branch.go: work items and proposals.
pub mod Rollback
pub mod Promotion
use layeros.Base.{
  String, false, not, Option, some, none, List, [], ◌∷◌, Result, ok, err, ◌>>=◌, ◌>>◌, reject_if,
  ◌==◌,
}
use layeros.Text.{trim_space, is_blank}
use layeros.Json.{Fields, texts}
use layeros.Types.Vocabulary.{Time, items}
use layeros.Types.Work.{WorkItem, Branch, ProposalItem}
use layeros.Stores.Work.{create_work, count_work, create_proposal, get_proposal, promote_proposal}
use layeros.Stores.Branches.{get_branch, normalize_ref, or_text, or_time}
use layeros.Stores.Company.{update_work_items_active}
use layeros.Env.{Env, Domain}
use layeros.State.{Service, Saved}
use layeros.Persist.{Outcome}
use layeros.Types.Events.{EventEnvelope}
use layeros.Runtime.{checked, on_error, log, service_event, finish, no_more, restored_events}

active_branch : Option Branch → Result (Unit {0})
active_branch none = err "branch_id not found"
active_branch (some b) =
    reject_if (not (b.status == "active")) "branch_id must reference an active branch"

unfoldable pub ensure_active_branch : Option String → List Branch → Result (Unit {0})
unfolding active_branch
ensure_active_branch none branches = ok tt
ensure_active_branch (some branch_id) branches = do
  reject_if (is_blank branch_id) "branch_id must not be empty"
  active_branch (get_branch (trim_space branch_id) branches)

-- `s.work = newWorkStore(oldItems)`, `s.state = newStateStore(oldState)`
abbrev pub undo_work : Service → Service → Service
undo_work old t = record t { work_items = old.work_items; company = old.company }

abbrev pub with_work : List WorkItem → Service → Service
with_work works s = record s {
  work_items = works;
  company = update_work_items_active (count_work works) s.company;
}

unfoldable pub normalize_proposal_item : Time → ProposalItem → ProposalItem
normalize_proposal_item now item = record item {
  summary = or_text item.summary item.title;
  status = or_text item.status "proposed";
  notes = some (items item.notes);
  created_at = or_time item.created_at now;
  updated_at = or_time item.updated_at (or_time item.created_at now);
}

-- the work item that PromoteProposal makes of a proposal
unfoldable pub promoted_work : Time → String → ProposalItem → WorkItem
promoted_work now work_id proposal = record {
  id = work_id;
  branch_id = normalize_ref proposal.branch_id;
  title = proposal.title;
  intent = proposal.intent;
  stage = "discover";
  surface = proposal.surface;
  pack = "proposal";
  priority = proposal.priority;
  risk = proposal.risk;
  requires_approval = false;
  payload = some (texts (("proposal_id", proposal.proposal_id) ∷ []));
  correlation_id = proposal.proposal_id;
  created_at = now;
}

unfoldable pub open_proposal : String → List ProposalItem → Result ProposalItem
open_proposal proposal_id proposals = elim (get_proposal proposal_id proposals) [
  | none ↦ err "proposal_id not found"
  | some proposal ↦ do
    reject_if (not (proposal.status == "proposed")) "proposal is not open"
    ok proposal
]

abbrev pub proposal_fields : ProposalItem → Fields
proposal_fields item =
    texts (("title", item.title) ∷ ("status", item.status) ∷ ("summary", item.summary) ∷ [])

abbrev pub proposal_event : Env → ProposalItem → EventEnvelope
proposal_event env item =
    service_event env "proposal.created" item.surface item.proposal_id "discover"
      (proposal_fields item)

abbrev pub undo_promotion : Service → Service → Service
undo_promotion old t = record t {
  proposals = old.proposals;
  work_items = old.work_items;
  company = old.company;
}

module _ (encode : (d : Domain) → Saved d → String) where
  unfoldable pub create_work_item : Env → WorkItem → Service → Outcome
  create_work_item env item s = checked (ensure_active_branch item.branch_id s.branches) s (λ _.
      checked (create_work item s.work_items) s (λ works.
        finish encode env
          (service_event env "work_item.created" item.surface item.id item.stage
            (texts (("title", item.title) ∷ [])))
          no_more (undo_work s) (λ t. restored_events env s (undo_work s t)) (with_work works s)))

  -- with `createProposalLocked`, whose failed event rolls nothing back
  unfoldable pub create_proposal_item : Env → ProposalItem → Service → Outcome
  create_proposal_item env raw s =
      let item = normalize_proposal_item env.now raw in
      checked (ensure_active_branch raw.branch_id s.branches) s (λ _.
        checked (create_proposal item s.proposals) s (λ proposals.
          finish encode env (proposal_event env item) no_more (λ t. t)
            (λ t. restored_events env s (record t { proposals = s.proposals }))
            (record s { proposals = proposals })))

  -- the second event's rollback keeps the first event
  unfoldable pub promote : Env → String → String → Service → Outcome
  promote env proposal_id work_id s = checked (open_proposal proposal_id s.proposals) s (λ proposal.
      let work = promoted_work env.now work_id proposal in
      checked (create_work work s.work_items) s (λ works.
        checked (promote_proposal proposal_id work_id env.now s.proposals) s (λ r.
          finish encode env
            (service_event env "proposal.promoted" proposal.surface proposal.proposal_id "discover"
              (texts (("proposal_id", proposal.proposal_id) ∷ ("work_item_id", work.id) ∷ [])))
            (λ u.
              on_error
                (log
                  (service_event env "work_item.created" work.surface work.id work.stage
                    (texts (("title", work.title) ∷ ("source", "proposal.promote") ∷ [])))
                  u)
                (undo_promotion s))
            (undo_promotion s) (λ t. restored_events env s (undo_promotion s t))
            (record (with_work works s) { proposals = r.1 }))))
