-- ===== src/Runtime/Approval.antt =====
-- internal/runtime/service_control.go, service.go: approvals, and the system memory.
pub mod Rollback
use layeros.Base.{
  String, not, ◌&&◌, Option, some, none, List, [], ◌∷◌, reject_if, if◌then◌else◌, ◌==◌,
}
use layeros.Text.{◌<>◌}
use layeros.Json.{texts}
use layeros.Types.Events.{SystemMemory}
use layeros.Types.Delivery.{ApprovalItem}
use layeros.Types.Review.{ReviewRoomItem, ReviewRoomResolution, ReviewRoom}
use layeros.Stores.Delivery.{create_approval, count_approvals, resolve_approval}
use layeros.Stores.Company.{update_approvals_pending, replace_memory}
use layeros.Review.Suggest.{suggestion_for_approval}
use layeros.Review.Sync.{auto_resolve_item}
use layeros.Env.{Env, Domain}
use layeros.State.{Service, Saved}
use layeros.Persist.{Outcome, and_then}
use layeros.Runtime.{
  checked, on_error, log, service_event, new_system_event, finish, no_more, restored_events,
}
use layeros.Runtime.Room.{auto_open_some, keep_room, restored_room}

abbrev pub with_approvals : List ApprovalItem → Service → Service
with_approvals approvals s = record s {
  approvals = approvals;
  company = update_approvals_pending (count_approvals approvals) s.company;
}

abbrev pub undo_approval : Service → Service → Service
undo_approval old t = record t { approvals = old.approvals; company = old.company }

-- the resolution of the item that an earlier rejection opened
abbrev cleared : ApprovalItem → ReviewRoomResolution
cleared item = record {
  action = "resolve";
  reason = "approved resolution cleared the prior rejection review item";
  rule = "review_room.auto.approval_rejection_cleared";
  evidence = ("approval:" <> item.approval_id) ∷ [];
  resolved_at = 0;
}

closed : Env → Service → ApprovalItem → ReviewRoom × Option ReviewRoomItem → Outcome
closed env s item (room, none) = (s, none)
closed env s item (room, some _) =
    log
      (new_system_event env "review_room.item_auto_resolved" (
        texts (
          ("source", "approval.rejected")
          ∷ ("ref", item.approval_id)
          ∷ ("action", "resolve")
          ∷ [])))
      (keep_room env room s)

unfoldable pub clear_rejection : Env → ApprovalItem → Service → Outcome
unfolding closed
clear_rejection env item s =
    if item.status == "approved"
    then checked
        (auto_resolve_item env s.room "approval.rejected" (some item.approval_id) (cleared item)) s
        (closed env s item)
    else (s, none)

unfoldable pub approval_room : Env → ApprovalItem → Service → Outcome
approval_room env item s =
    and_then (auto_open_some env (suggestion_for_approval env.now item) s)
      (clear_rejection env item)

module _ (encode : (d : Domain) → Saved d → String) where
  unfoldable pub create_approval_item : Env → ApprovalItem → Service → Outcome
  create_approval_item env item s = checked (create_approval item s.approvals) s (λ approvals.
      finish encode env
        (service_event env "approval.created" item.decision_surface item.work_item_id item.stage
          (texts (("summary", item.summary) ∷ [])))
        no_more (undo_approval s) (λ t. restored_events env s (undo_approval s t))
        (with_approvals approvals s))

  unfoldable pub resolve_approval_item : Env → String → String → Service → Outcome
  resolve_approval_item env approval_id status s =
      let undo_all =
        λ (t : Service). restored_events env s (restored_room env s (undo_approval s t)) in
      checked
        (reject_if (not (status == "approved") && not (status == "rejected"))
          "approval resolve status must be approved or rejected")
        s
        (λ _. checked (resolve_approval approval_id status env.now s.approvals) s (λ r.
          finish encode env
            (service_event env "approval.resolved" (r.0).decision_surface (r.0).work_item_id
              (r.0).stage (texts (("status", (r.0).status) ∷ [])))
            (λ u. on_error (approval_room env r.0 u) undo_all) (undo_approval s) undo_all
            (with_approvals r.1 s)))

  unfoldable pub replace_system_memory : Env → SystemMemory → Service → Outcome
  replace_system_memory env memory s = checked (replace_memory memory) s (λ new.
      finish encode env
        (new_system_event env "memory.updated"
          (texts (("current_focus", memory.current_focus) ∷ [])))
        no_more (λ t. record t { system_memory = s.system_memory })
        (λ t. restored_events env s (record t { system_memory = s.system_memory }))
        (record s { system_memory = new }))
