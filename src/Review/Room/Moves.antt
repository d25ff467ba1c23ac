-- ===== src/Review/Room/Moves.antt =====
-- What a transition does to the number of items of the room.
use mathlib.Core.Path.{subst}
use layeros.Base.{
  ℕ, suc, ◌+◌, String, true, ◌||◌, ◌≡◌, refl, sym, ap, ◌∙◌, ◌⊎◌, inl, inr, Option, none, some, List,
  [], ◌∷◌, map, length, length-append, arith, some_inj, ok_inj, Bool-cases, ◌==◌, if◌then◌else◌, ok,
  reject_if-eq-ok,
}
use layeros.Types.Vocabulary.{Time}
use layeros.Types.Review.{ReviewRoomItem, ReviewRoom, ReviewRoomResolution, normalize_review_action}
use layeros.Text.{trim_space}
use layeros.Env.{Env}
use layeros.Review.Items.{normalize_item, normalize_items}
use layeros.Review.Room.{
  normalize_room, copy_room, Removed, keep_before, taken, remove_item, take_item, place_item,
  stamped_item, moved, transition_item,
}

-- The number of items in the room.
unfoldable pub room_size : ReviewRoom → ℕ
room_size room = length room.accepted + length room.open_items + length room.deferred

length-map : {A : Type 0} (f : A → A) (xs : List A) → length (map f xs) ≡ length xs
length-map f [] = refl
length-map f (x ∷ xs) = ap suc (length-map f xs)

length-normalize :
    (now : Time) (xs : List ReviewRoomItem) → length (normalize_items now xs) ≡ length xs
unfolding normalize_items
length-normalize now xs = length-map (normalize_item now) xs

room_size-normalize :
    (now : Time) (room : ReviewRoom) → room_size (normalize_room now room) ≡ room_size room
unfolding room_size normalize_room
room_size-normalize now room =
    rw
      (
        length-normalize now room.accepted,
        length-normalize now room.open_items,
        length-normalize now room.deferred,
      )
      refl

room_size-copy : (now : Time) (room : ReviewRoom) → room_size (copy_room now room) ≡ room_size room
unfolding room_size copy_room normalize_room
room_size-copy now room =
    rw
      (
        length-normalize now (normalize_items now room.accepted),
        length-normalize now room.accepted,
        length-normalize now (normalize_items now room.open_items),
        length-normalize now room.open_items,
        length-normalize now (normalize_items now room.deferred),
        length-normalize now room.deferred,
      )
      refl

keep_before-some :
    (x : ReviewRoomItem) (o : Removed) (i : ReviewRoomItem) (rest : List ReviewRoomItem)
    → keep_before x o ≡ some (i, rest)
    → (inner : List ReviewRoomItem) × (o ≡ some (i, inner)) × (rest ≡ x ∷ inner)
keep_before-some x none i rest h = cc
keep_before-some x (some (j, inner)) i rest h = (inner, cc, cc)

remove_item-length :
    (target : String) (l : List ReviewRoomItem) (i : ReviewRoomItem) (rest : List ReviewRoomItem)
    → remove_item target l ≡ some (i, rest)
    → (length l ≡ suc (length rest)) × ((i.text == target) ≡ true)
unfolding remove_item
remove_item-length target [] i rest h = cc
remove_item-length target (x ∷ xs) i rest h = elim (Bool-cases (x.text == target)) [
  | inl here ↦ head here (rw here at h)
  | inr other ↦
      let (inner, found, same) =
        keep_before-some x (remove_item target xs) i rest (rw other at h) in
      let (shorter, named) = remove_item-length target xs i inner found in
      (ap suc shorter ∙ sym (ap (λ (l : List ReviewRoomItem). suc (length l)) same), named)
]
  where
    head :
        (x.text == target) ≡ true
        → ◌≡◌ {A = Removed} (some (x, xs)) (some (i, rest))
        → (length (x ∷ xs) ≡ suc (length rest)) × ((i.text == target) ≡ true)
    head here p =
        let q = some_inj p in
        (
          ap (λ (r : ReviewRoomItem × List ReviewRoomItem). suc (length r.1)) q,
          ap (λ (r : ReviewRoomItem × List ReviewRoomItem). r.0.text == target) (sym q) ∙ here,
        )

taken-some :
    (o : Removed) (put : List ReviewRoomItem → ReviewRoom)
    (next : Option (ReviewRoomItem × ReviewRoom)) (r : ReviewRoomItem × ReviewRoom)
    → taken o put next ≡ some r
    → ((rest : List ReviewRoomItem) × (o ≡ some (r.0, rest)) × (r.1 ≡ put rest)) ⊎ (next ≡ some r)
taken-some none put next r h = inr h
taken-some (some q) put next r h =
    let p = some_inj h in
    inl (
      q.1,
      ap (λ (x : ReviewRoomItem × ReviewRoom). some (x.0, q.1)) p,
      sym (ap (λ (x : ReviewRoomItem × ReviewRoom). x.1) p),
    )

-- A removal takes one item with the text, and leaves the others.
take_item-size :
    (target : String) (room : ReviewRoom) (r : ReviewRoomItem × ReviewRoom)
    → take_item target room ≡ some r
    → (room_size room ≡ suc (room_size r.1)) × ((r.0.text == target) ≡ true)
unfolding take_item room_size
take_item-size target room r h = elim (taken-some (remove_item target room.accepted) _ _ r h) [
  | inl (rest, found, put) ↦
      let (shorter, named) = remove_item-length target room.accepted r.0 rest found in
      (rw put (omega (arith, shorter)), named)
  | inr h2 ↦ elim (taken-some (remove_item target room.open_items) _ _ r h2) [
    | inl (rest, found, put) ↦
        let (shorter, named) = remove_item-length target room.open_items r.0 rest found in
        (rw put (omega (arith, shorter)), named)
    | inr h3 ↦ elim (taken-some (remove_item target room.deferred) _ none r h3) [
      | inl (rest, found, put) ↦
          let (shorter, named) = remove_item-length target room.deferred r.0 rest found in
          (rw put (omega (arith, shorter)), named)
      | inr none_left ↦ cc
    ]
  ]
]

-- whether a transition with an action keeps the item in the room
abbrev pub kept : String → ℕ
kept action = if action == "accept" || action == "defer" then 1 else 0

place_item-size :
    (action : String) (item : ReviewRoomItem) (room : ReviewRoom)
    → room_size (place_item action item room) ≡ room_size room + kept action
unfolding place_item room_size
place_item-size action item room =
    let one : List ReviewRoomItem = item ∷ [] in
    elim (Bool-cases (action == "accept")) [
      | inl p ↦ rw (p, length-append room.accepted one) (omega arith)
      | inr p ↦ elim (Bool-cases (action == "defer")) [
        | inl q ↦ rw (p, q, length-append room.deferred one) (omega arith)
        | inr q ↦ rw (p, q) (omega arith)
      ]
    ]

-- Where no section holds the text, the room keeps its size; else one item leaves it, and comes back
-- to it unless it is resolved.
unfoldable pub Moved : ReviewRoom → String → ReviewRoom × Option ReviewRoomItem → Type 0
Moved room action (after, none) = room_size after ≡ room_size room
Moved room action (after, some item) = room_size after + 1 ≡ room_size room + kept action

same_sections :
    (now : Time) (p : ReviewRoom) → room_size (record p { updated_at = some now }) ≡ room_size p
unfolding room_size
same_sections now p = refl

moved-Moved :
    (env : Env) (action target : String) (resolution : Option ReviewRoomResolution)
    (room : ReviewRoom) (o : Option (ReviewRoomItem × ReviewRoom))
    → take_item target room ≡ o
    → Moved room action (moved env action resolution room o)
unfolding Moved
moved-Moved env action target resolution room none h = refl
moved-Moved env action target resolution room (some r) h =
    let (shorter, named) = take_item-size target room r h in
    let item = stamped_item env action resolution r.0 in
    let placed = place_item action item r.1 in
    let sized : room_size (normalize_room env.now (record placed { updated_at = some env.now }))
        ≡ room_size placed =
      room_size-normalize env.now (record placed { updated_at = some env.now })
      ∙ same_sections env.now placed in
    omega (arith, sized, shorter, place_item-size action item r.1)

same_issues : (p : ReviewRoom) → room_size (record p { issues = [] }) ≡ room_size p
unfolding room_size
same_issues p = refl

Moved-sized :
    (room room' : ReviewRoom) (action : String) (r : ReviewRoom × Option ReviewRoomItem)
    → room_size room ≡ room_size room'
    → Moved room action r
    → Moved room' action r
unfolding Moved
Moved-sized room room' action (after, none) p h = h ∙ p
Moved-sized room room' action (after, some item) p h = h ∙ ap (λ n. n + kept action) p

-- A transition that is accepted leaves the number of items of the room as it was where no section holds
-- the text; else it takes one item out, and puts one back for accept and for defer.
pub transition_item-Moved :
    (env : Env) (room : ReviewRoom) (action item : String)
    (resolution : Option ReviewRoomResolution) (r : ReviewRoom × Option ReviewRoomItem)
    → transition_item env room action item resolution ≡ ok r
    → Moved room (normalize_review_action action) r
unfolding transition_item
transition_item-Moved env room action item resolution r h =
    let word = normalize_review_action action in
    let target = trim_space item in
    let copy = record (copy_room env.now room) { issues = [] } in
    let (_, h1) = reject_if-eq-ok (word == "") "review room action is invalid" _ h in
    let (_, h2) = reject_if-eq-ok (target == "") "review room item is required" _ h1 in
    subst (Moved room word) (ok_inj h2) (
      Moved-sized copy room word _
        (same_issues (copy_room env.now room) ∙ room_size-copy env.now room)
        (moved-Moved env word target resolution copy (take_item target copy) refl))
