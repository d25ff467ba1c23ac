-- ===== src/Runtime/Agenda.antt =====
-- internal/runtime/service.go: the methods on the review room. The text that Format gives of a time is
-- a parameter.
pub mod Rollback
use layeros.Base.{String, Option, some, none, []}
use layeros.Text.{trim_space}
use layeros.Json.{Fields, field, text, object, end}
use layeros.Types.Vocabulary.{Time}
use layeros.Types.Review.{
  ReviewRoomItem, ReviewRoomResolution, validate_review_room_item, normalize_review_section,
  normalize_review_action,
}
use layeros.Review.Items.{normalize_item, new_structured_item}
use layeros.Review.Room.{copy_room, add_item, transition_structured}
use layeros.Env.{Env, Domain}
use layeros.State.{Service, Saved}
use layeros.Persist.{Outcome}
use layeros.Runtime.{checked, new_system_event, finish, no_more, restored_events}
use layeros.Runtime.Room.{item_from_section, item_fields, list_field, added_fields, restored_room}

abbrev pub undo_room : Env → Service → Service → Service
undo_room env old t = restored_events env old (restored_room env old t)

unfoldable pub resolution_fields : (Time → String) → ReviewRoomResolution → Fields
resolution_fields format r = field "action" (text r.action) (
    field "reason" (text r.reason) (
      field "rule" (text r.rule)
        (field "resolved_at" (text (format r.resolved_at)) (list_field "evidence" r.evidence end))))

resolution_field : (Time → String) → Option ReviewRoomResolution → Fields → Fields
unfolding resolution_fields
resolution_field format none rest = rest
resolution_field format (some r) rest =
    field "resolution" (object (resolution_fields format r)) rest

unfoldable pub transitioned_fields : (Time → String) → String → String → ReviewRoomItem → Fields
unfolding resolution_field
transitioned_fields format action item moved =
    field "action" (text (normalize_review_action action)) (
      field "item" (text (trim_space item)) (
        item_fields moved
          (resolution_field format moved.resolution (list_field "evidence" moved.evidence end))))

module _ (encode : (d : Domain) → Saved d → String) where
  unfoldable pub add_structured : Env → String → ReviewRoomItem → Service → Outcome
  add_structured env section raw s =
      let item = normalize_item env.now raw in
      checked (validate_review_room_item item) s (λ _.
        checked (add_item env section item s.room) s (λ room.
          finish encode env
            (new_system_event env "review_room.item_added" (
              added_fields (normalize_review_section section)
                (item_from_section env (copy_room env.now room) section item.text)))
            no_more (restored_room env s) (undo_room env s) (record s { room = room })))

  -- `AddReviewRoomItem`
  unfoldable pub add_agenda : Env → String → String → Service → Outcome
  add_agenda env section item =
      add_structured env section
        (new_structured_item env.now item "agenda" "medium" "manual" none none [])

  unfoldable pub transition_room :
      (Time → String) → Env → String → String → Option ReviewRoomResolution → Service → Outcome
  transition_room format env action item resolution s =
      checked (transition_structured env action item resolution s.room) s (λ r.
        finish encode env
          (new_system_event env "review_room.item_transitioned"
            (transitioned_fields format action item r.1))
          no_more (restored_room env s) (undo_room env s) (record s { room = r.0 }))
