-- ===== src/Review/Room/Sections.antt =====
-- What a transition does to each section of the room.
use mathlib.Core.Path.{subst}
use layeros.Base.{
  String, Bool, true, false, ◌≡◌, refl, sym, ap, inl, inr, Option, none, some, List, [], ◌∷◌, ◌++◌,
  ok_inj, Bool-cases, eq_iff, ◌==◌, if◌then◌else◌, ok, reject_if-eq-ok,
}
use layeros.Types.Review.{ReviewRoomItem, ReviewRoom, ReviewRoomResolution, normalize_review_action}
use layeros.Text.{trim_space}
use layeros.Env.{Env}
use layeros.Review.Items.{normalize_items}
use layeros.Review.Room.{
  normalize_room, copy_room, has_text, Removed, keep_before, taken, remove_item, take_item,
  place_item, stamped_item, moved, transition_item,
}

-- the first item of a section with the text is taken out of it
pub record Removal (target : String) (before after : List ReviewRoomItem) (item : ReviewRoomItem)
    : Type 0 where
  pub front : List ReviewRoomItem
  pub back : List ReviewRoomItem
  pub split : before ≡ front ++ item ∷ back
  pub rest : after ≡ front ++ back
  pub named : (item.text == target) ≡ true
  pub first : has_text target front ≡ false

-- an item taken out of the accepted, else of the open, else of the deferred items
pub data Taken (target : String) (room : ReviewRoom) (item : ReviewRoomItem)
    : ReviewRoom → Type 0 where
  from_accepted :
      {rest : List ReviewRoomItem}
      → Removal target room.accepted rest item
      → Taken target room item (record room { accepted = rest })
  from_open :
      {rest : List ReviewRoomItem}
      → has_text target room.accepted ≡ false
      → Removal target room.open_items rest item
      → Taken target room item (record room { open_items = rest })
  from_deferred :
      {rest : List ReviewRoomItem}
      → has_text target room.accepted ≡ false
      → has_text target room.open_items ≡ false
      → Removal target room.deferred rest item
      → Taken target room item (record room { deferred = rest })

abbrev pub with_item : Bool → ReviewRoomItem → List ReviewRoomItem → List ReviewRoomItem
with_item b item items = if b then items ++ item ∷ [] else items

-- the item that was taken, put back where the action says, with the sections normalized
pub record Placed (env : Env) (action : String) (resolution : Option ReviewRoomResolution)
    (old : ReviewRoomItem) (rest after : ReviewRoom) (item : ReviewRoomItem) : Type 0 where
  pub accepted :
      after.accepted ≡ normalize_items env.now (with_item (action == "accept") item rest.accepted)
  pub open_items : after.open_items ≡ normalize_items env.now rest.open_items
  pub deferred :
      after.deferred ≡ normalize_items env.now (with_item (action == "defer") item rest.deferred)
  pub stamped : item ≡ stamped_item env action resolution old

pub data Transition (env : Env) (action target : String) (resolution : Option ReviewRoomResolution)
    (room : ReviewRoom) : ReviewRoom × Option ReviewRoomItem → Type 0 where
  nothing_found :
      has_text target room.accepted ≡ false
      → has_text target room.open_items ≡ false
      → has_text target room.deferred ≡ false
      → Transition env action target resolution room (room, none)
  found :
      {old item : ReviewRoomItem} {rest after : ReviewRoom}
      → Taken target room old rest
      → Placed env action resolution old rest after item
      → Transition env action target resolution room (after, some item)

-- a removal, or no item with the text
data Search (target : String) (items : List ReviewRoomItem) : Removed → Type 0 where
  absent : has_text target items ≡ false → Search target items none
  present :
      {item : ReviewRoomItem} {rest : List ReviewRoomItem}
      → Removal target items rest item
      → Search target items (some (item, rest))

keep_before-Search :
    (target : String) (x : ReviewRoomItem) (xs : List ReviewRoomItem) (o : Removed)
    → (x.text == target) ≡ false
    → Search target xs o
    → Search target (x ∷ xs) (keep_before x o)
unfolding has_text
keep_before-Search target x xs _ other (absent h) = absent (rw other h)
keep_before-Search target x xs _ other (present r) = present (record {
  front = x ∷ r.front;
  back = r.back;
  split = ap (λ l. x ∷ l) r.split;
  rest = ap (λ l. x ∷ l) r.rest;
  named = r.named;
  first = rw other r.first;
})

remove_item-Search :
    (target : String) (items : List ReviewRoomItem) → Search target items (remove_item target items)
unfolding remove_item has_text
remove_item-Search target [] = absent refl
remove_item-Search target (x ∷ xs) = elim (Bool-cases (x.text == target)) [
  | inl here ↦ rw here (
      present
        (record { front = []; back = xs; split = refl; rest = refl; named = here; first = refl }))
  | inr other ↦
      let later = remove_item-Search target xs in
      rw other (keep_before-Search target x xs (remove_item target xs) other later)
]

-- the removals of the three sections, in order
data Found (target : String) (room : ReviewRoom)
    : Option (ReviewRoomItem × ReviewRoom) → Type 0 where
  nowhere :
      has_text target room.accepted ≡ false
      → has_text target room.open_items ≡ false
      → has_text target room.deferred ≡ false
      → Found target room none
  somewhere :
      {item : ReviewRoomItem} {rest : ReviewRoom}
      → Taken target room item rest
      → Found target room (some (item, rest))

taken-Found :
    (target : String) (room : ReviewRoom) (items : List ReviewRoomItem) (o : Removed)
    (put : List ReviewRoomItem → ReviewRoom) (next : Option (ReviewRoomItem × ReviewRoom))
    → Search target items o
    → ((item : ReviewRoomItem) (rest : List ReviewRoomItem)
        → Removal target items rest item
        → Taken target room item (put rest))
    → (has_text target items ≡ false → Found target room next)
    → Found target room (taken o put next)
taken-Found target room items _ put next (absent h) here later = later h
taken-Found target room items _ put next (present {item = i} {rest = rest} r) here later =
    somewhere (here i rest r)

take_item-Found : (target : String) (room : ReviewRoom) → Found target room (take_item target room)
unfolding take_item
take_item-Found target room =
    taken-Found target room room.accepted _ _ _ (remove_item-Search target room.accepted)
      (λ _ _ r. from_accepted r)
      (λ a.
        taken-Found target room room.open_items _ _ _ (remove_item-Search target room.open_items)
          (λ _ _ r. from_open a r)
          (λ o.
            taken-Found target room room.deferred _ _ _ (remove_item-Search target room.deferred)
              (λ _ _ r. from_deferred a o r) (λ d. nowhere a o d)))

place_item-Placed :
    (env : Env) (action : String) (resolution : Option ReviewRoomResolution) (old : ReviewRoomItem)
    (rest : ReviewRoom)
    → let item = stamped_item env action resolution old in
      Placed env action resolution old rest
        (normalize_room env.now
          (record (place_item action item rest) { updated_at = some env.now }))
        item
unfolding place_item normalize_room
place_item-Placed env action resolution old rest = elim (Bool-cases (action == "accept")) [
  | inl p ↦
      let same : action ≡ "accept" = (eq_iff action "accept").0 p in
      subst (λ a. PlacedBy a) (sym same)
        (record { accepted = refl; open_items = refl; deferred = refl; stamped = refl })
  | inr p ↦ elim (Bool-cases (action == "defer")) [
    | inl q ↦ record {
      accepted = rw (p, q) refl;
      open_items = rw (p, q) refl;
      deferred = rw (p, q) refl;
      stamped = refl;
    }
    | inr q ↦ record {
      accepted = rw (p, q) refl;
      open_items = rw (p, q) refl;
      deferred = rw (p, q) refl;
      stamped = refl;
    }
  ]
]
  where
    PlacedBy : String → Type 0
    PlacedBy a =
        Placed env a resolution old rest
          (normalize_room env.now (record (place_item a (stamped_item env a resolution old) rest) {
            updated_at = some env.now;
          }))
          (stamped_item env a resolution old)

moved-Transition :
    (env : Env) (action target : String) (resolution : Option ReviewRoomResolution)
    (room : ReviewRoom) (o : Option (ReviewRoomItem × ReviewRoom))
    → Found target room o
    → Transition env action target resolution room (moved env action resolution room o)
moved-Transition env action target resolution room _ (nowhere a o d) = nothing_found a o d
moved-Transition env action target resolution room _ (somewhere {item = old} {rest = rest} t) =
    found t (place_item-Placed env action resolution old rest)

-- A transition that is accepted works on the room's copy without its issues. Where none of its sections
-- holds the trimmed text, that copy is answered with no item. Else the first item with the text is taken
-- out of the accepted items, where they have none out of the open ones, and where these have none either
-- out of the deferred ones; stamped, it is appended to the accepted items for accept, to the deferred ones
-- for defer, and to none for resolve, and each section, otherwise as it was, is normalized.
pub transition_item-Transition :
    (env : Env) (room : ReviewRoom) (action item : String)
    (resolution : Option ReviewRoomResolution) (r : ReviewRoom × Option ReviewRoomItem)
    → transition_item env room action item resolution ≡ ok r
    → Transition env
        (normalize_review_action action)
        (trim_space item)
        resolution
        (record (copy_room env.now room) { issues = [] })
        r
unfolding transition_item
transition_item-Transition env room action item resolution r h =
    let word = normalize_review_action action in
    let target = trim_space item in
    let copy = record (copy_room env.now room) { issues = [] } in
    let (_, h1) = reject_if-eq-ok (word == "") "review room action is invalid" _ h in
    let (_, h2) = reject_if-eq-ok (target == "") "review room item is required" _ h1 in
    subst (Transition env word target resolution copy) (ok_inj h2) (
      moved-Transition env word target resolution copy (take_item target copy)
        (take_item-Found target copy))
