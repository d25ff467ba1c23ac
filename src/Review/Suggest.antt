-- ===== src/Review/Suggest.antt =====
-- internal/runtime/review_room_auto.go, review_room_gateway.go: the items that failures open by
-- themselves. The Korean sentences of the items are their identity in the room, and stand as in the
-- source.
use text.Mathlib.Text.{find?}
use layeros.Base.{
  String, not, ◌||◌, Option, none, some, List, [], ◌∷◌, if◌then◌else◌, ◌==◌, is_none,
}
use layeros.Text.{◌<>◌, trim_space, is_blank}
use layeros.Types.Vocabulary.{Time, canonical_policy_mode}
use layeros.Types.Review.{ReviewRoomItem}
use layeros.Types.Delivery.{ApprovalItem, DeployRun, RollbackRun}
use layeros.Types.Control.{ExecuteRun, VerificationRecord}
use layeros.Types.Jobs.{AgentJob}
use layeros.Review.Items.{new_structured_item}

unfoldable pub new_signal_item :
    Time → String → String → Option String → String → String → List String → ReviewRoomItem
new_signal_item now text trigger ref reason rule evidence =
    new_structured_item now text "runtime_signal"
      (if is_none (find? trigger "verification") then "high" else "medium") trigger ref
      (some (record { trigger = trigger; reason = reason; rule = rule })) evidence

unfoldable pub suggestion_for_execute : Time → ExecuteRun → Option ReviewRoomItem
suggestion_for_execute now item =
    let evidence =
      ("execute:" <> item.execute_id)
      ∷ ("work:" <> item.work_item_id)
      ∷ ("policy:" <> item.policy_decision_id)
      ∷ [] in
    if not (item.status == "failed")
    then none
    else if canonical_policy_mode item.mode == "blocked" || item.mode == "blocked"
    then some (
        new_signal_item now
          ("실행 `" <> item.execute_id <> "`이 작업 `" <> item.work_item_id <> "`에서 정책 `"
            <> item.policy_decision_id <> "` 때문에 막혔어. 재시도 전에 founder 검토나 범위 축소가 필요해.")
          "execute.blocked" (some item.execute_id)
          "blocked execute requires founder review or scope reduction before retry"
          "review_room.auto.execute_blocked" evidence)
    else some (
        new_signal_item now
          ("실행 `" <> item.execute_id <> "`이 작업 `" <> item.work_item_id
            <> "`에서 실패했어. 계속 가기 전에 실행 메모를 먼저 확인해야 해.")
          "execute.failed" (some item.execute_id)
          "failed execute requires note inspection before another attempt"
          "review_room.auto.execute_failed" evidence)

unfoldable pub suggestion_for_verification : Time → VerificationRecord → Option ReviewRoomItem
suggestion_for_verification now item =
    if not (item.status == "failed")
    then none
    else some (
        new_signal_item now
          ("검증 `" <> item.record_id <> "`이 범위 `" <> item.scope
            <> "`에서 실패했어. 릴리스 전에 명령 증거를 먼저 확인해야 해.")
          "verification.failed" (some item.record_id)
          "failed verification requires command evidence review before release"
          "review_room.auto.verification_failed"
          (("verification:" <> item.record_id) ∷ ("scope:" <> item.scope) ∷ []))

unfoldable pub suggestion_for_deploy : Time → DeployRun → Option ReviewRoomItem
suggestion_for_deploy now item =
    if not (item.status == "failed")
    then none
    else some (
        new_signal_item now
          ("배포 `" <> item.deploy_id <> "`이 릴리스 `" <> item.release_id <> "`의 대상 `" <> item.target
            <> "`에서 실패했어. 롤백 준비 상태를 먼저 검토해야 해.")
          "deploy.failed" (some item.deploy_id) "failed deploy requires rollback readiness review"
          "review_room.auto.deploy_failed"
          (("deploy:" <> item.deploy_id)
            ∷ ("release:" <> item.release_id)
            ∷ ("target:" <> item.target)
            ∷ []))

unfoldable pub suggestion_for_rollback : Time → RollbackRun → Option ReviewRoomItem
suggestion_for_rollback now item =
    if not (item.status == "failed")
    then none
    else some (
        new_signal_item now
          ("롤백 `" <> item.rollback_id <> "`이 릴리스 `" <> item.release_id <> "`의 대상 `" <> item.target
            <> "`에서 실패했어. 수동 복구 검토가 필요해.")
          "rollback.failed" (some item.rollback_id)
          "failed rollback requires manual recovery review" "review_room.auto.rollback_failed"
          (("rollback:" <> item.rollback_id)
            ∷ ("release:" <> item.release_id)
            ∷ ("target:" <> item.target)
            ∷ []))

unfoldable pub suggestion_for_approval : Time → ApprovalItem → Option ReviewRoomItem
suggestion_for_approval now item =
    if not (item.status == "rejected")
    then none
    else some (
        new_signal_item now
          ("승인 `" <> item.approval_id <> "`이 작업 `" <> item.work_item_id
            <> "`에서 거절됐어. 계속 진행하기 전에 founder 검토나 제안 재정리가 필요해.")
          "approval.rejected" (some item.approval_id)
          "rejected approval requires founder review before execution continues"
          "review_room.auto.approval_rejected"
          (("approval:" <> item.approval_id) ∷ ("work:" <> item.work_item_id) ∷ []))

ref_evidence : Option String → List String
ref_evidence none = []
ref_evidence (some ref) = if is_blank ref then [] else ("ref:" <> trim_space ref) ∷ []

unfoldable pub suggestion_for_job : Time → AgentJob → Option ReviewRoomItem
unfolding ref_evidence
suggestion_for_job now item =
    if not (item.status == "failed")
    then none
    else some (
        new_signal_item now
          ("에이전트 작업 `" <> item.job_id <> "`이 역할 `" <> item.role
            <> "`에서 실패했어. 레인을 이어가기 전에 founder 검토나 재시도 정책 정리가 필요해.")
          "agent_job.failed" (some item.job_id)
          "failed agent job requires founder review or retry policy before execution continues"
          "review_room.auto.agent_job_failed"
          (("job:" <> item.job_id)
            ∷ ("role:" <> item.role)
            ∷ ("kind:" <> item.kind)
            ∷ ref_evidence item.ref))
