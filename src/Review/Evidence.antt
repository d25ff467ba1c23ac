-- ===== src/Review/Evidence.antt =====
-- internal/runtime/review_room_auto.go: closing every open item that an evidence names.
pub mod Round
pub mod Cleared
use Prim.Native.Nat.{zero, suc}
use layeros.Base.{
  ℕ, String, Bool, false, ◌&&◌, ◌||◌, Option, none, some, List, [], ◌∷◌, Result, ok, err,
  if◌then◌else◌, ◌==◌,
}
use layeros.Text.{trim_space}
use layeros.Types.Review.{ReviewRoomResolution, ReviewRoomItem, ReviewRoom}
use layeros.Env.{Env}
use layeros.Review.Room.{copy_room, transition_item}
use layeros.Review.Room.Moves.{room_size}

unfoldable pub any_trimmed : String → List String → Bool
any_trimmed evidence [] = false
any_trimmed evidence (v ∷ vs) = trim_space v == evidence || any_trimmed evidence vs

unfoldable pub item_has_evidence : ReviewRoomItem → String → Bool
unfolding any_trimmed
item_has_evidence item raw =
    let evidence = trim_space raw in
    if evidence == "" then false else any_trimmed evidence item.evidence

-- the loop over the open items
unfoldable pub first_with_evidence : String → String → List ReviewRoomItem → Option String
unfolding item_has_evidence
first_with_evidence source evidence [] = none
first_with_evidence source evidence (i ∷ is) =
    let rest = first_with_evidence source evidence is in
    if trim_space i.source == trim_space source && item_has_evidence i evidence
    then some i.text
    else rest

unfoldable pub find_by_evidence : ReviewRoom → String → String → Option String
unfolding first_with_evidence
find_by_evidence room source raw =
    let evidence = trim_space raw in
    if evidence == "" then none else first_with_evidence source evidence room.open_items

-- how a run of the loop ends: none where the fuel is out
abbrev pub Resolving : Type 0
Resolving = Option (Result (ReviewRoom × ℕ))

-- a round behind its transition
abbrev pub resolve_more :
    (ReviewRoom → Resolving) → ℕ → Result (ReviewRoom × Option ReviewRoomItem) → Resolving
resolve_more again resolved (err e) = some (err e)
resolve_more again resolved (ok (room, none)) = some (ok (room, resolved))
resolve_more again resolved (ok (room, some _)) = again room

-- a round behind its search
abbrev pub resolve_round :
    Env
    → ReviewRoomResolution
    → (ReviewRoom → Resolving)
    → ReviewRoom
    → ℕ
    → Option String
    → Resolving
resolve_round env resolution again room resolved none = some (ok (room, resolved))
resolve_round env resolution again room resolved (some target) =
    resolve_more again resolved (transition_item env room "resolve" target (some resolution))

unfoldable pub resolve_loop :
    Env → String → String → ReviewRoomResolution → ℕ → ℕ → ReviewRoom → Resolving
resolve_loop env source evidence resolution zero resolved room = none
resolve_loop env source evidence resolution (suc fuel) resolved room =
    resolve_round env resolution (resolve_loop env source evidence resolution fuel (suc resolved))
      room resolved (find_by_evidence room source evidence)

-- `autoResolveReviewRoomItemsByEvidenceLocked`: the room and how many items were closed. A round
-- closes an item, so that the items of the room are fuel enough.
unfoldable pub auto_resolve_by_evidence :
    Env → ReviewRoom → String → String → ReviewRoomResolution → Resolving
unfolding resolve_loop
auto_resolve_by_evidence env store source raw resolution =
    let room = copy_room env.now store in
    let evidence = trim_space raw in
    if evidence == ""
    then some (ok (room, 0))
    else resolve_loop env source evidence resolution (suc (room_size room)) 0 room
