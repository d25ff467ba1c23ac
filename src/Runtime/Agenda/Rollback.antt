-- ===== src/Runtime/Agenda/Rollback.antt =====
-- An error of the methods on the review room leaves the stores as they were.
use layeros.Base.{String, ◌≡◌, refl, ap, Option, some}
use layeros.Types.Vocabulary.{Time}
use layeros.Types.Review.{
  ReviewRoomItem, ReviewRoomResolution, ReviewRoom, validate_review_room_item,
}
use layeros.Review.Items.{normalize_item}
use layeros.Review.Room.{add_item, transition_structured}
use layeros.Env.{Env, Domain}
use layeros.State.{Service, Saved}
use layeros.Runtime.Intact.{Intact, checked-Intact, finish_plain-error, restore_events-same, Undoes}
use layeros.Runtime.Room.{restored_room}
use layeros.Runtime.Agenda.{undo_room, add_structured, transition_room}

module _ (encode : (d : Domain) → Saved d → String) (env : Env) (s : Service) (e : String) where
  undo_room-Undoes : (room : ReviewRoom) → Undoes s (record s { room = room }) (undo_room env s)
  undo_room-Undoes room v h = record {
    stores = ap (undo_room env s) h.same;
    evidence = restore_events-same env.event_retention s.events;
  }

  restored-Intact : (room : ReviewRoom) → Intact s (restored_room env s (record s { room = room }))
  restored-Intact room = record { stores = refl; evidence = (refl, refl, refl) }

  -- An error of AddStructuredReviewRoomItem leaves every store but the room as it was.
  pub add_structured-atomic :
      (section : String) (item : ReviewRoomItem)
      → (add_structured encode env section item s).1 ≡ some e
      → Intact s (add_structured encode env section item s).0
  unfolding add_structured
  add_structured-atomic section raw =
      let item = normalize_item env.now raw in
      checked-Intact s (validate_review_room_item item) _ e (λ _ _.
        checked-Intact s (add_item env section item s.room) _ e (λ room _.
          finish_plain-error encode env s (record s { room = room }) _ (restored_room env s)
            (undo_room env s) e (λ _. restored-Intact room) (undo_room-Undoes room)))

  -- An error of TransitionStructuredReviewRoomItem leaves every store but the room as it was.
  pub transition_room-atomic :
      (format : Time → String) (action item : String) (resolution : Option ReviewRoomResolution)
      → (transition_room encode format env action item resolution s).1 ≡ some e
      → Intact s (transition_room encode format env action item resolution s).0
  unfolding transition_room
  transition_room-atomic format action item resolution =
      checked-Intact s (transition_structured env action item resolution s.room) _ e (λ r _.
        finish_plain-error encode env s (record s { room = r.0 }) _ (restored_room env s)
          (undo_room env s) e (λ _. restored-Intact r.0) (undo_room-Undoes r.0))
