-- ===== src/Runtime/Approval/Rollback.antt =====
-- An error of the methods on approvals and the memory leaves the stores as they were.
use layeros.Base.{
  String, not, ◌&&◌, ◌==◌, ◌≡◌, refl, ap, Option, none, some, List, Bool-cases, inl, inr, reject_if,
}
use layeros.Types.Events.{SystemMemory}
use layeros.Types.Review.{ReviewRoom, ReviewRoomItem}
use layeros.Types.Delivery.{ApprovalItem}
use layeros.Stores.Delivery.{create_approval, resolve_approval}
use layeros.Stores.Company.{replace_memory}
use layeros.Env.{Env, Domain}
use layeros.State.{Service, Saved}
use layeros.Runtime.{restored_events}
use layeros.Runtime.Intact.{
  Intact, Intact-refl, checked-Intact, finish_plain-error, finish_guarded-error,
  restore_events-same, Undoes, Between, Between-trans, log-Between, chain-Between, checked-Between,
}
use layeros.Runtime.Room.{restored_room, keep_room}
use layeros.Runtime.Room.Opened.{auto_open_some-Between, keep_room-Between}
use layeros.Runtime.Approval.{
  create_approval_item, resolve_approval_item, replace_system_memory, undo_approval, with_approvals,
  approval_room, clear_rejection, closed,
}

closed-Between :
    (env : Env) (s : Service) (item : ApprovalItem) (r : ReviewRoom × Option ReviewRoomItem)
    → Between s (closed env s item r).0
unfolding closed
closed-Between env s item (room, none) = record { same = refl }
closed-Between env s item (room, some _) =
    Between-trans s (keep_room env room s) _ (keep_room-Between env room s)
      (log-Between _ (keep_room env room s))

clear_rejection-Between :
    (env : Env) (item : ApprovalItem) (s : Service) → Between s (clear_rejection env item s).0
unfolding clear_rejection
clear_rejection-Between env item s = elim (Bool-cases (item.status == "approved")) [
  | inl p ↦ rw p (checked-Between s _ (closed env s item) (λ r. closed-Between env s item r))
  | inr p ↦ rw p (record { same = refl })
]

pub approval_room-Between :
    (env : Env) (item : ApprovalItem) (s : Service) → Between s (approval_room env item s).0
unfolding approval_room
approval_room-Between env item s =
    chain-Between s _ (clear_rejection env item) (auto_open_some-Between env _ s)
      (clear_rejection-Between env item)

module _ (encode : (d : Domain) → Saved d → String) (env : Env) (s : Service) (e : String) where
  -- An error of CreateApproval leaves every store in memory as it was.
  pub create_approval_item-atomic :
      (item : ApprovalItem)
      → (create_approval_item encode env item s).1 ≡ some e
      → Intact s (create_approval_item encode env item s).0
  unfolding create_approval_item
  create_approval_item-atomic item =
      checked-Intact s (create_approval item s.approvals) _ e (λ approvals _.
        finish_plain-error encode env s (with_approvals approvals s) _ (undo_approval s) _ e
          (λ _. Intact-refl s)
          (λ v h. record {
            stores = ap (λ t. restored_events env s (undo_approval s t)) h.same;
            evidence = restore_events-same env.event_retention s.events;
          }))

  undo_resolution-Undoes :
      (approvals : List ApprovalItem)
      → Undoes s
          (with_approvals approvals s)
          (λ t. restored_events env s (restored_room env s (undo_approval s t)))
  undo_resolution-Undoes approvals v h = record {
    stores = ap (λ t. restored_events env s (restored_room env s (undo_approval s t))) h.same;
    evidence = restore_events-same env.event_retention s.events;
  }

  -- An error of ResolveApproval leaves every store in memory as it was.
  pub resolve_approval_item-atomic :
      (approval_id status : String)
      → (resolve_approval_item encode env approval_id status s).1 ≡ some e
      → Intact s (resolve_approval_item encode env approval_id status s).0
  unfolding resolve_approval_item
  resolve_approval_item-atomic approval_id status =
      checked-Intact s
        (reject_if (not (status == "approved") && not (status == "rejected"))
          "approval resolve status must be approved or rejected")
        _ e
        (λ _ _.
          checked-Intact s (resolve_approval approval_id status env.now s.approvals) _ e (λ r _.
            finish_guarded-error encode env s (with_approvals r.1 s) _ (approval_room env r.0)
              (undo_approval s) _ e (approval_room-Between env r.0) (λ _. Intact-refl s)
              (undo_resolution-Undoes r.1)))

  -- An error of ReplaceMemory leaves every store in memory as it was.
  pub replace_system_memory-atomic :
      (memory : SystemMemory)
      → (replace_system_memory encode env memory s).1 ≡ some e
      → Intact s (replace_system_memory encode env memory s).0
  unfolding replace_system_memory
  replace_system_memory-atomic memory = checked-Intact s (replace_memory memory) _ e (λ new _.
      finish_plain-error encode env s (record s { system_memory = new }) _
        (λ t. record t { system_memory = s.system_memory }) _ e (λ _. Intact-refl s)
        (λ v h. record {
          stores =
              ap (λ t. restored_events env s (record t { system_memory = s.system_memory })) h.same;
          evidence = restore_events-same env.event_retention s.events;
        }))
