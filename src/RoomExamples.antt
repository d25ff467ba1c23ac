-- ===== src/RoomExamples.antt =====
-- The theorems on the review room and branches, on concrete items.
use layeros.Base.{String, ◌≡◌, refl, some, none, ok, [], ◌∷◌}
use layeros.Text.{is_blank, trim_space}
use layeros.Types.Vocabulary.{is_zero}
use layeros.Types.Work.{Branch}
use layeros.Types.Review.{ReviewRoomItem, ReviewRoom, ReviewRoomResolution, normalize_review_action}
use layeros.Review.Room.{transition_item, copy_room}
use layeros.Review.Room.Sections.{Transition, transition_item-Transition}
use layeros.Stores.Branches.{merge_branch_item}
use layeros.Stores.Branches.Merge.{Merge, merge_branch_item-Merge}
use layeros.Samples.{env, branch_item, room}

abbrev room_item : ReviewRoomItem
room_item = record {
  text = "check";
  kind = "risk";
  severity = "high";
  source = "operator";
  ref = none;
  why = "why";
  why_unresolved = none;
  contradiction = none;
  contradictions = [];
  pattern_refs = [];
  rationale = none;
  resolution = none;
  evidence = [];
  created_at = 50;
  updated_at = 50;
}

abbrev room_open : ReviewRoom
room_open = record room { open_items = room_item ∷ [] }

abbrev resolution : ReviewRoomResolution
resolution = record {
  action = "accept";
  reason = "reviewed";
  rule = "rule";
  evidence = [];
  resolved_at = 100;
}

abbrev accepted_item : ReviewRoomItem
accepted_item = record room_item { updated_at = 100; resolution = some resolution }

abbrev room_accepted : ReviewRoom
room_accepted = record room { accepted = accepted_item ∷ []; updated_at = some 100 }

transition_run :
    transition_item env room_open "accept" "check" (some resolution)
    ≡ ok (room_accepted, some accepted_item)
unfolding transition_item normalize_review_action trim_space layeros.Text.to_lower
    layeros.Review.Room.take_item layeros.Review.Room.remove_item layeros.Review.Room.copy_room
    layeros.Review.Items.normalize_items layeros.Review.Items.normalize_item is_blank
    layeros.Review.Room.place_item layeros.Review.Room.stamped_item
    layeros.Review.Room.default_resolution
transition_run = refl

transition_item-Transition_example :
    Transition env
      (normalize_review_action "accept")
      (trim_space "check")
      (some resolution)
      (record (copy_room env.now room_open) { issues = [] })
      (room_accepted, some accepted_item)
transition_item-Transition_example =
    transition_item-Transition env room_open "accept" "check" (some resolution)
      (room_accepted, some accepted_item) transition_run

abbrev branch_named : String → Branch
branch_named id = record branch_item {
  branch_id = id;
  root_branch_id = id;
  summary = "Branch";
  stage = "compose";
  surface = "api";
  status = "active";
  notes = some [];
  created_at = 50;
  updated_at = 50;
}

abbrev merged_branch : Branch
merged_branch = record (branch_named "B1") {
  status = "merged";
  merge_target_branch_id = some "B2";
  merged_at = some 100;
  updated_at = 100;
}

merge_run :
    merge_branch_item "B1" " B2 " none 100 (branch_named "B1" ∷ branch_named "B2" ∷ [])
    ≡ ok (merged_branch, merged_branch ∷ branch_named "B2" ∷ [])
unfolding merge_branch_item trim_space layeros.Types.Work.validate_branch is_blank
    layeros.Types.Vocabulary.valid_stage layeros.Types.Vocabulary.valid_surface
    layeros.Types.Vocabulary.valid_branch_status
merge_run = refl

merge_branch_item-Merge_example :
    let bs = branch_named "B1" ∷ branch_named "B2" ∷ [] in
    Merge
      (trim_space "B1")
      (trim_space " B2 ")
      100
      bs
      (merged_branch, merged_branch ∷ branch_named "B2" ∷ [])
merge_branch_item-Merge_example =
    merge_branch_item-Merge "B1" " B2 " none 100 (branch_named "B1" ∷ branch_named "B2" ∷ [])
      (merged_branch, merged_branch ∷ branch_named "B2" ∷ []) merge_run
