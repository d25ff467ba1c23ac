-- ===== src/Review/Sync.antt =====
-- internal/runtime/review_room_audit.go: the items that the repository's audits manage, and
-- internal/runtime/review_room_auto.go: closing open items by their source.
use text.Mathlib.Text.{starts_with}
use layeros.Base.{
  String, Bool, true, false, not, ◌&&◌, Option, none, some, List, [], ◌∷◌, Result, ok, err,
  if◌then◌else◌, ◌==◌,
}
use layeros.Text.{trim_space, to_lower}
use layeros.Types.Review.{ReviewRoomResolution, ReviewRoomItem, ReviewRoom}
use layeros.Env.{Env}
use layeros.Review.Room.{normalize_room, copy_room, ensure_item, transition_item}

unfoldable pub is_managed_audit_source : String → Bool
is_managed_audit_source source = starts_with (trim_space (to_lower source)) "audit."

unfoldable pub filter_managed : List ReviewRoomItem → List ReviewRoomItem
unfolding is_managed_audit_source
filter_managed [] = []
filter_managed (i ∷ is) =
    let rest = filter_managed is in if is_managed_audit_source i.source then rest else i ∷ rest

unfoldable pub ref_string : Option String → String
ref_string none = ""
ref_string (some ref) = trim_space ref

unfoldable pub items_equal : List ReviewRoomItem → List ReviewRoomItem → Bool
unfolding ref_string
items_equal [] [] = true
items_equal (l ∷ ls) (r ∷ rs) =
    (l.text == r.text)
    && (l.kind == r.kind)
    && (l.severity == r.severity)
    && (l.source == r.source)
    && (ref_string l.ref == ref_string r.ref)
    && items_equal ls rs
items_equal _ _ = false

unfoldable pub texts_equal : List String → List String → Bool
texts_equal [] [] = true
texts_equal (l ∷ ls) (r ∷ rs) = l == r && texts_equal ls rs
texts_equal _ _ = false

unfoldable pub rooms_equal : Env → ReviewRoom → ReviewRoom → Bool
unfolding items_equal texts_equal
rooms_equal env raw_left raw_right =
    let left = normalize_room env.now raw_left in
    let right = normalize_room env.now raw_right in
    items_equal left.accepted right.accepted
    && items_equal left.open_items right.open_items
    && items_equal left.deferred right.deferred
    && texts_equal left.issues right.issues
    && (trim_space left.source == trim_space right.source)

-- `for _, item := range auditReviewRoomItems(…)`: an item that is refused is passed over
kept_room : ReviewRoom → Result (ReviewRoom × Bool) → ReviewRoom
kept_room room (ok r) = r.0
kept_room room (err e) = room

add_audits : Env → ReviewRoom → List ReviewRoomItem → ReviewRoom
unfolding kept_room
add_audits env room [] = room
add_audits env room (i ∷ is) = add_audits env (kept_room room (ensure_item env room "open" i)) is

-- the room to keep, and whether it changed
unfoldable pub sync_audit_room : Env → ReviewRoom → ReviewRoom × Bool
unfolding filter_managed add_audits rooms_equal
sync_audit_room env room = elim (env.audit_items) [
  | none ↦ (copy_room env.now room, false)
  | some audits ↦
      let current = copy_room env.now room in
      let kept = record current {
        accepted = filter_managed current.accepted;
        open_items = filter_managed current.open_items;
        deferred = filter_managed current.deferred;
      } in
      let synced = normalize_room env.now (add_audits env kept audits) in
      if rooms_equal env current synced
      then (synced, false)
      else (record synced { updated_at = some env.now }, true)
]

unfoldable pub find_open_item : String → String → List ReviewRoomItem → Option String
unfolding ref_string
find_open_item source target_ref [] = none
find_open_item source target_ref (i ∷ is) =
    let rest = find_open_item source target_ref is in
    if not (trim_space i.source == trim_space source)
    then rest
    else if not (target_ref == "") && not (trim_space (ref_string i.ref) == target_ref)
    then rest
    else some i.text

-- the room, the item that was closed, and whether one was
unfoldable pub auto_resolve_item :
    Env
    → ReviewRoom
    → String
    → Option String
    → ReviewRoomResolution
    → Result (ReviewRoom × Option ReviewRoomItem)
unfolding find_open_item
auto_resolve_item env store source ref resolution =
    let room = copy_room env.now store in
    elim (find_open_item source (trim_space (ref_string ref)) room.open_items) [
      | none ↦ ok (room, none)
      | some target ↦ transition_item env room "resolve" target (some resolution)
    ]
