-- ===== src/Types/Review.antt =====
-- internal/runtime/types_review.go, and the section and action words of review_room.go. A nil slice
-- of texts or items stands as the empty one: every room and item is normalised before it is kept,
-- which makes the one of the other.
use layeros.Base.{String, ◌||◌, Option, List, Result, ok, ◌>>◌, reject_if, if◌then◌else◌, ◌==◌}
use layeros.Text.{trim_space, is_blank, to_lower}
use layeros.Types.Vocabulary.{Time, is_zero, some_blank, blank_among, validate_some}

unfoldable pub normalize_review_section : String → String
normalize_review_section section =
    let word = trim_space (to_lower section) in
    if word == "accepted" || word == "open" || word == "deferred" then word else ""

unfoldable pub normalize_review_action : String → String
normalize_review_action action =
    let word = trim_space (to_lower action) in
    if word == "accept" || word == "defer" || word == "resolve" then word else ""

pub record ReviewRoomRationale : Type 0 where
  pub trigger : String
  pub reason : String
  pub rule : String

unfoldable pub validate_review_room_rationale : ReviewRoomRationale → Result (Unit {0})
validate_review_room_rationale r = do
  reject_if (is_blank r.trigger) "review room rationale trigger is required"
  reject_if (is_blank r.reason) "review room rationale reason is required"
  reject_if (is_blank r.rule) "review room rationale rule is required"
  ok tt

pub record ReviewRoomResolution : Type 0 where
  pub action : String
  pub reason : String
  pub rule : String
  pub evidence : List String
  pub resolved_at : Time

unfoldable pub validate_review_room_resolution : ReviewRoomResolution → Result (Unit {0})
unfolding normalize_review_action
validate_review_room_resolution r = do
  reject_if (normalize_review_action r.action == "") "review room resolution action is invalid"
  reject_if (is_blank r.reason) "review room resolution reason is required"
  reject_if (is_blank r.rule) "review room resolution rule is required"
  reject_if (is_zero r.resolved_at) "review room resolution resolved_at is required"
  reject_if (blank_among r.evidence) "review room resolution evidence must not contain empty items"
  ok tt

pub record ReviewRoomItem : Type 0 where
  pub text : String
  pub kind : String
  pub severity : String
  pub source : String
  pub ref : Option String
  pub why : String
  pub why_unresolved : Option String
  pub contradiction : Option String
  pub contradictions : List String
  pub pattern_refs : List String
  pub rationale : Option ReviewRoomRationale
  pub resolution : Option ReviewRoomResolution
  pub evidence : List String
  pub created_at : Time
  pub updated_at : Time

unfoldable pub validate_review_room_item : ReviewRoomItem → Result (Unit {0})
validate_review_room_item r = do
  reject_if (is_blank r.text) "review room item text is required"
  reject_if (is_blank r.kind) "review room item kind is required"
  reject_if (is_blank r.severity) "review room item severity is required"
  reject_if (is_blank r.source) "review room item source is required"
  reject_if (some_blank r.ref) "review room item ref must not be empty"
  reject_if (some_blank r.why_unresolved) "review room item why_unresolved must not be empty"
  reject_if (some_blank r.contradiction) "review room item contradiction must not be empty"
  reject_if (blank_among r.contradictions)
      "review room item contradictions must not contain empty items"
  reject_if (blank_among r.pattern_refs)
      "review room item pattern_refs must not contain empty items"
  validate_some validate_review_room_rationale r.rationale
  validate_some validate_review_room_resolution r.resolution
  reject_if (blank_among r.evidence) "review room item evidence must not contain empty items"
  reject_if (is_zero r.created_at) "review room item created_at is required"
  reject_if (is_zero r.updated_at) "review room item updated_at is required"
  ok tt

pub record ReviewRoom : Type 0 where
  pub source : String
  pub accepted : List ReviewRoomItem
  pub open_items : List ReviewRoomItem
  pub deferred : List ReviewRoomItem
  pub issues : List String
  pub updated_at : Option Time
