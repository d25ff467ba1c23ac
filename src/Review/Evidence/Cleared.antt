-- ===== src/Review/Evidence/Cleared.antt =====
-- The loop that closes items by evidence ends, and leaves none of them open.
use layeros.Base.{ℕ, ◌+◌, String, ◌≡◌, none, some, Result, ok, err}
use layeros.Types.Review.{ReviewRoom}
use layeros.Env.{Env}
use layeros.Review.Room.Moves.{room_size}
use layeros.Review.Evidence.{find_by_evidence, Resolving}

-- How the loop ends: an open item that it met had a blank text, or no open item is left that has the
-- source and the evidence, and the room has lost as many items as the loop counts.
pub Cleared : String → String → ReviewRoom → ℕ → Result (ReviewRoom × ℕ) → Type 0
Cleared source evidence room resolved (err e) = e ≡ "review room item is required"
Cleared source evidence room resolved (ok (after, n)) =
    (find_by_evidence after source evidence ≡ none)
    × (room_size room + resolved ≡ room_size after + n)

-- a run of the loop that ends, and how
pub Ends : String → String → ReviewRoom → ℕ → Resolving → Type 0
Ends source evidence room resolved run =
    (r : Result (ReviewRoom × ℕ)) × (run ≡ some r) × Cleared source evidence room resolved r
