-- ===== src/Review/Evidence/Round.antt =====
-- One round of the loop that closes items by evidence takes an item out of the room.
use mathlib.Core.Path.{subst}
use layeros.Base.{
  ◌+◌, String, true, false, ◌&&◌, ◌≡◌, refl, sym, inl, inr, Option, none, some, List, [], ◌∷◌,
  Result, ok, err, some_inj, arith, Bool-cases, ◌==◌, ==_refl, eq_iff, or-true, or-eq-true,
}
use layeros.Text.{trim_space, to_lower}
use layeros.Text.Trim.{trim_space_idem}
use layeros.Types.Vocabulary.{Time}
use layeros.Types.Review.{ReviewRoomResolution, ReviewRoomItem, ReviewRoom, normalize_review_action}
use layeros.Env.{Env}
use layeros.Review.Items.{normalize_item, normalize_items}
use layeros.Review.Room.{
  normalize_room, copy_room, has_text, Removed, taken, remove_item, take_item, moved,
  transition_item,
}
use layeros.Review.Room.Moves.{room_size, Moved, transition_item-Moved}
use layeros.Review.Evidence.{first_with_evidence, item_has_evidence}

pub first_with_evidence-has_text :
    (source evidence target : String) (is : List ReviewRoomItem)
    → first_with_evidence source evidence is ≡ some target
    → has_text target is ≡ true
unfolding first_with_evidence has_text
first_with_evidence-has_text source evidence target [] h = cc
first_with_evidence-has_text source evidence target (i ∷ is) h =
    elim (Bool-cases (trim_space i.source == trim_space source && item_has_evidence i evidence)) [
      | inl here ↦ rw (some_inj (rw here at h)) (rw (==_refl target))
      | inr other ↦
          rw (first_with_evidence-has_text source evidence target is (rw other at h)) (or-true _)
    ]

has_text-normalize :
    (now : Time) (target : String) (is : List ReviewRoomItem)
    → has_text target is ≡ true
    → has_text (trim_space target) (normalize_items now is) ≡ true
unfolding has_text normalize_items normalize_item
has_text-normalize now target [] h = cc
has_text-normalize now target (i ∷ is) h =
    elim (or-eq-true (i.text == target) (has_text target is) h) [
      | inl here ↦ rw ((eq_iff i.text target).0 here, ==_refl (trim_space target))
      | inr later ↦ rw (has_text-normalize now target is later) (or-true _)
    ]

remove_item-some :
    (target : String) (is : List ReviewRoomItem)
    → has_text target is ≡ true
    → (r : ReviewRoomItem × List ReviewRoomItem) × (remove_item target is ≡ some r)
unfolding has_text remove_item
remove_item-some target [] h = cc
remove_item-some target (i ∷ is) h = elim (Bool-cases (i.text == target)) [
  | inl here ↦ ((i, is), rw here)
  | inr other ↦
      let (r, found) = remove_item-some target is (rw other at h) in
      ((r.0, i ∷ r.1), rw (other, found))
]

taken-next :
    (o : Removed) (put : List ReviewRoomItem → ReviewRoom)
    (next : Option (ReviewRoomItem × ReviewRoom))
    → (r : ReviewRoomItem × ReviewRoom) × (next ≡ some r)
    → (r : ReviewRoomItem × ReviewRoom) × (taken o put next ≡ some r)
taken-next none put next h = h
taken-next (some q) put next h = ((q.0, put q.1), refl)

take_item-some :
    (target : String) (room : ReviewRoom)
    → has_text target room.open_items ≡ true
    → (r : ReviewRoomItem × ReviewRoom) × (take_item target room ≡ some r)
unfolding take_item
take_item-some target room h =
    let (q, found) = remove_item-some target room.open_items h in
    taken-next (remove_item target room.accepted) _ _
      ((q.0, record room { open_items = q.1 }), rw found)

-- an open item with a text is among the open items of the copy that a transition searches
open-copy :
    (env : Env) (room : ReviewRoom) (target : String)
    → has_text target room.open_items ≡ true
    → has_text (trim_space target) (copy_room env.now room).open_items ≡ true
unfolding copy_room normalize_room
open-copy env room target h = rw (← (trim_space_idem target)) (
    has_text-normalize env.now (trim_space target) (normalize_items env.now room.open_items)
      (has_text-normalize env.now target room.open_items h))

-- A round that closes the first open item with an evidence.
unfoldable pub Closes : ReviewRoom → Result (ReviewRoom × Option ReviewRoomItem) → Type 0
Closes room (err e) = e ≡ "review room item is required"
Closes room (ok (after, none)) = ⊥
Closes room (ok (after, some item)) = room_size after + 1 ≡ room_size room

Closes-moved :
    (env : Env) (resolution : Option ReviewRoomResolution) (room start : ReviewRoom)
    (o : Option (ReviewRoomItem × ReviewRoom))
    → (r : ReviewRoomItem × ReviewRoom) × (o ≡ some r)
    → Moved start "resolve" (moved env "resolve" resolution room o)
    → Closes start (ok (moved env "resolve" resolution room o))
unfolding Closes Moved
Closes-moved env resolution room start none (r, h) size = cc
Closes-moved env resolution room start (some q) h size = omega (arith, size)

resolve_word : normalize_review_action "resolve" ≡ "resolve"
unfolding normalize_review_action trim_space to_lower
resolve_word = refl

abbrev searched : Env → ReviewRoom → ReviewRoom
searched env room = record (copy_room env.now room) { issues = [] }

transition_blank :
    (env : Env) (room : ReviewRoom) (target : String) (resolution : Option ReviewRoomResolution)
    → (trim_space target == "") ≡ true
    → transition_item env room "resolve" target resolution ≡ err "review room item is required"
unfolding transition_item
transition_blank env room target resolution h = rw (resolve_word, h)

transition_named :
    (env : Env) (room : ReviewRoom) (target : String) (resolution : Option ReviewRoomResolution)
    → (trim_space target == "") ≡ false
    → transition_item env room "resolve" target resolution
      ≡ ok (
          moved env "resolve" resolution
            (searched env room)
            (take_item (trim_space target) (searched env room)))
unfolding transition_item
transition_named env room target resolution h = rw (resolve_word, h)

pub transition-Closes :
    (env : Env) (room : ReviewRoom) (target : String) (resolution : Option ReviewRoomResolution)
    → has_text target room.open_items ≡ true
    → Closes room (transition_item env room "resolve" target resolution)
unfolding Closes
transition-Closes env room target resolution h = elim (Bool-cases (trim_space target == "")) [
  | inl blank ↦ rw (transition_blank env room target resolution blank) refl
  | inr named ↦
      let p = transition_named env room target resolution named in
      let size =
        subst
          (λ word. Moved room word (
            moved env "resolve" resolution (searched env room)
              (take_item (trim_space target) (searched env room))))
          resolve_word (transition_item-Moved env room "resolve" target resolution _ p) in
      subst (Closes room) (sym p) (
        Closes-moved env resolution (searched env room) room
          (take_item (trim_space target) (searched env room))
          (take_item-some (trim_space target) (searched env room) (open-copy env room target h))
          size)
]
