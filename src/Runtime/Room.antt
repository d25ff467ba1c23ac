-- ===== src/Runtime/Room.antt =====
-- internal/runtime/service.go: the methods on the review room, and the item that a failure opens.
pub mod Opened
use layeros.Base.{String, Bool, true, false, Option, some, none, List, [], ◌∷◌, if◌then◌else◌, ◌==◌}
use layeros.Text.{trim_space, is_blank}
use layeros.Json.{Fields, texts, text_items, field, text, array, object, end}
use layeros.Types.Review.{ReviewRoomItem, ReviewRoomRationale, ReviewRoom, normalize_review_section}
use layeros.Review.Room.{normalize_room, copy_room, ensure_item, section_items}
use layeros.Env.{Env}
use layeros.State.{Service}
use layeros.Persist.{Outcome}
use layeros.Runtime.{checked, log, new_system_event}

-- the first item of a section with a text
find_text : String → List ReviewRoomItem → Option ReviewRoomItem
find_text wanted [] = none
find_text wanted (i ∷ is) =
    let rest = find_text wanted is in if i.text == wanted then some i else rest

abbrev bare_item : String → ReviewRoomItem
bare_item wanted = record {
  text = wanted;
  kind = "";
  severity = "";
  source = "";
  ref = none;
  why = "";
  why_unresolved = none;
  contradiction = none;
  contradictions = [];
  pattern_refs = [];
  rationale = none;
  resolution = none;
  evidence = [];
  created_at = 0;
  updated_at = 0;
}

or_bare : String → Option ReviewRoomItem → ReviewRoomItem
or_bare wanted none = bare_item wanted
or_bare wanted (some i) = i

-- `reviewRoomItemFromSection`
unfoldable pub item_from_section : Env → ReviewRoom → String → String → ReviewRoomItem
unfolding find_text or_bare
item_from_section env room section raw =
    let wanted = trim_space raw in
    elim (section_items (normalize_review_section section) (normalize_room env.now room)) [
      | none ↦ bare_item wanted
      | some items ↦ or_bare wanted (find_text wanted items)
    ]

-- the entries that the map gets only where there is something to say
some_field : String → Option String → Fields → Fields
some_field key none rest = rest
some_field key (some s) rest = field key (text (trim_space s)) rest

unfoldable pub list_field : String → List String → Fields → Fields
list_field key [] rest = rest
list_field key (s ∷ ss) rest = field key (array (text_items (s ∷ ss))) rest

rationale_field : Option ReviewRoomRationale → Fields → Fields
rationale_field none rest = rest
rationale_field (some r) rest =
    field "rationale"
      (object (texts (("trigger", r.trigger) ∷ ("reason", r.reason) ∷ ("rule", r.rule) ∷ []))) rest

-- the entries on an item, up to its rationale, and from its evidence on
unfoldable pub item_fields : ReviewRoomItem → Fields → Fields
unfolding some_field list_field rationale_field
item_fields item rest = field "kind" (text item.kind) (
    field "severity" (text item.severity) (
      field "source" (text item.source) (
        some_field "ref" item.ref (
          (if is_blank item.why then (λ (fs : Fields). fs) else field "why" (text item.why)) (
            some_field "why_unresolved" item.why_unresolved (
              some_field "contradiction" item.contradiction (
                list_field "contradictions" item.contradictions (
                  list_field "pattern_refs" item.pattern_refs
                    (rationale_field item.rationale rest)))))))))

unfoldable pub added_fields : String → ReviewRoomItem → Fields
unfolding item_fields list_field
added_fields section item = field "section" (text section) (
    field "item" (text (trim_space item.text))
      (item_fields item (list_field "evidence" item.evidence end)))

-- `s.reviewRoom = newReviewRoomStore(room)`
abbrev pub keep_room : Env → ReviewRoom → Service → Service
keep_room env room s = record s { room = normalize_room env.now room }

-- `oldRoom := s.reviewRoom.current()`, kept again
abbrev pub restored_room : Env → Service → Service → Service
restored_room env old t = keep_room env (copy_room env.now old.room) t

auto_opened : Env → Service → ReviewRoomItem → ReviewRoom × Bool → Outcome
unfolding item_from_section added_fields
auto_opened env s item (room, false) = (s, none)
auto_opened env s item (room, true) =
    log
      (new_system_event env "review_room.item_auto_added"
        (added_fields "open" (item_from_section env room "open" item.text)))
      (keep_room env room s)

-- `autoOpenReviewRoomItemLocked`
unfoldable pub auto_open : Env → ReviewRoomItem → Service → Outcome
unfolding auto_opened
auto_open env item s =
    checked (ensure_item env (copy_room env.now s.room) "open" item) s (auto_opened env s item)

-- `if suggestion, ok := …; ok { … }`
unfoldable pub auto_open_some : Env → Option ReviewRoomItem → Service → Outcome
auto_open_some env none s = (s, none)
auto_open_some env (some item) s = auto_open env item s
