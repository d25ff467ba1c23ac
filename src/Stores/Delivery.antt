-- ===== src/Stores/Delivery.antt =====
-- internal/runtime/approval.go, release.go, deploy.go
use layeros.Base.{
  ℕ, suc, String, Option, some, List, [], ◌∷◌, Result, ok, ◌>>◌, if◌then◌else◌, ◌==◌, find_by,
}
use layeros.Types.Vocabulary.{Time}
use layeros.Types.Delivery.{
  ApprovalItem, validate_approval_item, ReleasePacket, validate_release_packet, DeployRun,
  validate_deploy_run, RollbackRun, validate_rollback_run, DeployTarget, validate_deploy_target,
}
use layeros.Stores.Loop.{create_checked, update_first}

unfoldable pub create_approval : ApprovalItem → List ApprovalItem → Result (List ApprovalItem)
create_approval = create_checked validate_approval_item

-- the pending approvals
unfoldable pub count_approvals : List ApprovalItem → ℕ
count_approvals [] = 0
count_approvals (a ∷ rest) =
    let n = count_approvals rest in if a.status == "pending" then suc n else n

unfoldable pub resolved : String → Time → ApprovalItem → Result ApprovalItem
resolved status resolved_at item = do
  let item' = record item { status = status; resolved_at = some resolved_at }
  validate_approval_item item'
  ok item'

unfoldable pub resolve_approval :
    String → String → Time → List ApprovalItem → Result (ApprovalItem × List ApprovalItem)
resolve_approval approval_id status resolved_at =
    update_first (λ a. a.approval_id) approval_id "approval_id not found"
      (resolved status resolved_at)

unfoldable pub get_approval : String → List ApprovalItem → Option ApprovalItem
get_approval = find_by (λ a. a.approval_id)

unfoldable pub create_release_packet :
    ReleasePacket → List ReleasePacket → Result (List ReleasePacket)
create_release_packet = create_checked validate_release_packet

unfoldable pub get_release : String → List ReleasePacket → Option ReleasePacket
get_release = find_by (λ r. r.release_id)

unfoldable pub create_deploy_run : DeployRun → List DeployRun → Result (List DeployRun)
create_deploy_run = create_checked validate_deploy_run

unfoldable pub get_deploy : String → List DeployRun → Option DeployRun
get_deploy = find_by (λ d. d.deploy_id)

unfoldable pub create_rollback_run : RollbackRun → List RollbackRun → Result (List RollbackRun)
create_rollback_run = create_checked validate_rollback_run

-- the loop of `targetStore.put`
unfoldable pub upsert_target : DeployTarget → List DeployTarget → List DeployTarget
upsert_target item [] = item ∷ []
upsert_target item (t ∷ ts) =
    let rest = upsert_target item ts in
    if t.target_id == item.target_id then item ∷ ts else t ∷ rest

unfoldable pub put_target : DeployTarget → List DeployTarget → Result (List DeployTarget)
unfolding upsert_target
put_target item items = do validate_deploy_target item; ok (upsert_target item items)

unfoldable pub get_target : String → List DeployTarget → Option DeployTarget
get_target = find_by (λ t. t.target_id)
