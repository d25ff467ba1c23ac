-- ===== src/Stores/Work.antt =====
-- internal/runtime/work.go, proposal.go
use layeros.Base.{
  ℕ, String, Option, some, List, Result, ok, err, ◌>>◌, if◌then◌else◌, ◌==◌, find_by, length,
}
use layeros.Types.Vocabulary.{Time}
use layeros.Types.Work.{WorkItem, validate_work_item, ProposalItem, validate_proposal_item}
use layeros.Stores.Loop.{create_checked, update_first}

unfoldable pub create_work : WorkItem → List WorkItem → Result (List WorkItem)
create_work = create_checked validate_work_item

unfoldable pub count_work : List WorkItem → ℕ
count_work items = length items

unfoldable pub get_work : String → List WorkItem → Option WorkItem
get_work = find_by (λ w. w.id)

unfoldable pub create_proposal : ProposalItem → List ProposalItem → Result (List ProposalItem)
create_proposal = create_checked validate_proposal_item

unfoldable pub get_proposal : String → List ProposalItem → Option ProposalItem
get_proposal = find_by (λ p. p.proposal_id)

-- the body of the loop of `promote`
unfoldable pub promoted : String → Time → ProposalItem → Result ProposalItem
promoted work_item_id updated_at item =
    if item.status == "promoted" then err "proposal already promoted" else do
      let item' = record item {
        status = "promoted";
        promoted_work_item_id = some work_item_id;
        updated_at = updated_at;
      }
      validate_proposal_item item'
      ok item'

unfoldable pub promote_proposal :
    String → String → Time → List ProposalItem → Result (ProposalItem × List ProposalItem)
promote_proposal proposal_id work_item_id updated_at =
    update_first (λ p. p.proposal_id) proposal_id "proposal_id not found"
      (promoted work_item_id updated_at)
