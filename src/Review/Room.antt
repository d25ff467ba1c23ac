-- ===== src/Review/Room.antt =====
-- internal/runtime/review_room.go, review_room_auto.go: adding an item to a section, and moving one.
pub mod Moves
pub mod Sections
use layeros.Base.{
  String, Bool, true, false, ◌||◌, Option, none, some, List, [], ◌∷◌, ◌++◌, Result, ok, err, ◌>>=◌,
  ◌>>◌, reject_if, if◌then◌else◌, ◌==◌,
}
use layeros.Text.{trim_space, is_blank}
use layeros.Types.Vocabulary.{Time, is_zero}
use layeros.Types.Review.{
  normalize_review_section, normalize_review_action, ReviewRoomResolution, ReviewRoomItem,
  ReviewRoom,
}
use layeros.Env.{Env}
use layeros.Review.Items.{
  normalize_item, normalize_items, normalize_resolution, no_items, stamp_deferred_why_unresolved,
}
use layeros.Review.Contradiction.{annotate_contradictions}

unfoldable pub normalize_room : Time → ReviewRoom → ReviewRoom
normalize_room now room = record room {
  source = if is_blank room.source then "review_room.json" else room.source;
  accepted = normalize_items now room.accepted;
  open_items = normalize_items now room.open_items;
  deferred = normalize_items now room.deferred;
}

unfoldable pub copy_room : Time → ReviewRoom → ReviewRoom
unfolding normalize_room
copy_room now raw =
    let room = normalize_room now raw in
    record room {
      accepted = normalize_items now room.accepted;
      open_items = normalize_items now room.open_items;
      deferred = normalize_items now room.deferred;
    }

-- whether a section holds an item with a text
unfoldable pub has_text : String → List ReviewRoomItem → Bool
has_text text [] = false
has_text text (i ∷ is) = i.text == text || has_text text is

unfoldable pub room_has_item : ReviewRoom → String → Bool
unfolding has_text
room_has_item room raw =
    let text = trim_space raw in
    if is_blank raw
    then false
    else has_text text room.accepted || has_text text room.open_items || has_text text room.deferred

-- `reviewRoomSection`, to read and to append; any other word is the nil section
unfoldable pub section_items : String → ReviewRoom → Option (List ReviewRoomItem)
section_items section room =
    if section == "accepted"
    then some room.accepted
    else if section == "open"
    then some room.open_items
    else if section == "deferred"
    then some room.deferred
    else none

unfoldable pub append_to : String → ReviewRoomItem → ReviewRoom → Result ReviewRoom
append_to section item room =
    if section == "accepted"
    then ok (record room { accepted = room.accepted ++ item ∷ [] })
    else if section == "open"
    then ok (record room { open_items = room.open_items ++ item ∷ [] })
    else if section == "deferred"
    then ok (record room { deferred = room.deferred ++ item ∷ [] })
    else err "review room section is invalid"

-- the room, and whether the item is new to it
unfoldable pub ensure_item : Env → ReviewRoom → String → ReviewRoomItem → Result (ReviewRoom × Bool)
unfolding copy_room append_to room_has_item
ensure_item env raw_room raw_section raw_item = do
  let section = normalize_review_section raw_section
  reject_if (section == "") "review room section is invalid"
  let item = normalize_item env.now raw_item
  reject_if (item.text == "") "review room item is required"
  let room = copy_room env.now raw_room
  if room_has_item room item.text then ok (room, false) else do
    added ← append_to section (annotate_contradictions env room section item) room
    ok (normalize_room env.now (record added { updated_at = some env.now }), true)

-- `reviewRoomStore.add`
unfoldable pub add_item : Env → String → ReviewRoomItem → ReviewRoom → Result ReviewRoom
unfolding ensure_item section_items has_text
add_item env raw_section raw_item store = do
  let section = normalize_review_section raw_section
  reject_if (section == "") "review room section is invalid"
  let item = normalize_item env.now raw_item
  reject_if (item.text == "") "review room item is required"
  let room = copy_room env.now store
  elim (section_items section room) [
    | none ↦ err "review room section is invalid"
    | some existing ↦ do
      reject_if (has_text item.text existing) "review room item already exists in section"
      r ← ensure_item env room section item
      if r.1 then ok r.0 else err "review room item already exists in section"
  ]

abbrev pub Removed : Type 0
Removed = Option (ReviewRoomItem × List ReviewRoomItem)

abbrev pub keep_before : ReviewRoomItem → Removed → Removed
keep_before i none = none
keep_before i (some r) = some (r.0, i ∷ r.1)

-- The first item with a text, and the section without it; none if there is none.
unfoldable pub remove_item : String → List ReviewRoomItem → Removed
remove_item target [] = none
remove_item target (i ∷ is) =
    let rest = remove_item target is in
    if i.text == target then some (i, is) else keep_before i rest

-- the item that a removal took and the room that it leaves, or the next removal
abbrev pub taken :
    Removed
    → (List ReviewRoomItem → ReviewRoom)
    → Option (ReviewRoomItem × ReviewRoom)
    → Option (ReviewRoomItem × ReviewRoom)
taken none put next = next
taken (some r) put next = some (r.0, put r.1)

-- The removal of a transition: from the accepted, else the open, else the deferred items.
unfoldable pub take_item : String → ReviewRoom → Option (ReviewRoomItem × ReviewRoom)
take_item target room =
    taken (remove_item target room.accepted) (λ items. record room { accepted = items })
      (taken (remove_item target room.open_items) (λ items. record room { open_items = items })
        (taken (remove_item target room.deferred) (λ items. record room { deferred = items }) none))

-- internal/runtime/service.go: the resolution that an action gives where the caller gives none
default_reason : String → String
default_reason action =
    if action == "accept"
    then "operator accepted the agenda item into the active decision set"
    else if action == "defer"
    then "operator deferred the agenda item for later review"
    else "operator resolved the agenda item and closed the loop"

override : ReviewRoomResolution → Option ReviewRoomResolution → ReviewRoomResolution
override base none = base
override base (some value) = record {
  action = if value.action == "" then base.action else value.action;
  reason = if value.reason == "" then base.reason else value.reason;
  rule = if value.rule == "" then base.rule else value.rule;
  evidence = if no_items value.evidence then base.evidence else value.evidence;
  resolved_at = if is_zero value.resolved_at then base.resolved_at else value.resolved_at;
}

unfoldable pub default_resolution :
    String → Option ReviewRoomResolution → Time → Option ReviewRoomResolution
unfolding default_reason override
default_resolution raw resolution resolved_at =
    let action = normalize_review_action raw in
    if action == ""
    then normalize_resolution resolution
    else normalize_resolution (
        some (
          override
            (record {
              action = action;
              reason = default_reason action;
              rule =
                  if action == "accept"
                  then "review_room.transition.accept"
                  else if action == "defer"
                  then "review_room.transition.defer"
                  else "review_room.transition.resolve";
              evidence = [];
              resolved_at = resolved_at;
            })
            (normalize_resolution resolution)))

-- where a transition puts the item that it removed
unfoldable pub place_item : String → ReviewRoomItem → ReviewRoom → ReviewRoom
place_item action item room =
    if action == "accept"
    then record room { accepted = room.accepted ++ item ∷ [] }
    else if action == "defer"
    then record room { deferred = room.deferred ++ item ∷ [] }
    else room

-- the item as a transition leaves it
unfoldable pub stamped_item :
    Env → String → Option ReviewRoomResolution → ReviewRoomItem → ReviewRoomItem
stamped_item env action resolution removed =
    let stamped = record removed {
      updated_at = env.now;
      resolution = default_resolution action resolution env.now;
    } in
    if action == "defer" then stamp_deferred_why_unresolved env.now stamped else stamped

abbrev pub moved :
    Env
    → String
    → Option ReviewRoomResolution
    → ReviewRoom
    → Option (ReviewRoomItem × ReviewRoom)
    → ReviewRoom × Option ReviewRoomItem
moved env action resolution room none = (room, none)
moved env action resolution room (some r) =
    let item = stamped_item env action resolution r.0 in
    let placed = place_item action item r.1 in
    (normalize_room env.now (record placed { updated_at = some env.now }), some item)

-- the room and the item that moved, or the room and none where no section holds the text
unfoldable pub transition_item :
    Env
    → ReviewRoom
    → String
    → String
    → Option ReviewRoomResolution
    → Result (ReviewRoom × Option ReviewRoomItem)
transition_item env raw_room raw_action raw_item resolution = do
  let action = normalize_review_action raw_action
  reject_if (action == "") "review room action is invalid"
  let target = trim_space raw_item
  reject_if (target == "") "review room item is required"
  let room = record (copy_room env.now raw_room) { issues = [] }
  ok (moved env action resolution room (take_item target room))

-- `reviewRoomStore.transitionStructured`
unfoldable pub transition_structured :
    Env
    → String
    → String
    → Option ReviewRoomResolution
    → ReviewRoom
    → Result (ReviewRoom × ReviewRoomItem)
unfolding transition_item
transition_structured env raw_action raw_item resolution store = do
  let action = normalize_review_action raw_action
  reject_if (action == "") "review room action is invalid"
  reject_if (is_blank raw_item) "review room item is required"
  r ← transition_item env store action (trim_space raw_item) resolution
  elim (r.1) [ none ↦ err "review room item not found" | some item ↦ ok (r.0, item) ]
