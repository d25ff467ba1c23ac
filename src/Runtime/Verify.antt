-- ===== src/Runtime/Verify.antt =====
-- internal/runtime/service_control.go, service.go, verify.go: preflights and verifications.
pub mod Rollback
use layeros.Base.{
  ltb, String, ◌&&◌, not, Option, some, none, List, [], ◌∷◌, ◌++◌, ok, err, if◌then◌else◌, ◌==◌,
}
use layeros.Text.{◌<>◌, trim_space, is_blank, seen}
use layeros.Text.Parts.{split}
use layeros.Json.{texts}
use layeros.Types.Vocabulary.{items}
use layeros.Types.Review.{ReviewRoomItem, ReviewRoomResolution}
use layeros.Types.Control.{PreflightRecord, VerificationRecord}
use layeros.Stores.Control.{create_preflight_record, create_verification_record}
use layeros.Review.Suggest.{suggestion_for_verification}
use layeros.Review.Evidence.{Resolving, auto_resolve_by_evidence}
use layeros.Env.{Env, Domain}
use layeros.State.{Service, Saved}
use layeros.Persist.{Outcome}
use layeros.Runtime.{checked, on_error, new_system_event, finish, no_more, restored_events}
use layeros.Runtime.Room.{auto_open, keep_room, restored_room}

-- the loop over one group, and over the parts of a variable
unfoldable pub merge_models : List String → List String → List String
merge_models acc [] = []
merge_models acc (raw ∷ rest) =
    let value = trim_space raw in
    let passed = merge_models acc rest in
    let kept = value ∷ merge_models (value ∷ acc) rest in
    if value == "" then passed else if seen value acc then passed else kept

-- `mergeRuntimeModels` of two groups
unfoldable pub merge_runtime_models : List String → List String → List String
unfolding merge_models
merge_runtime_models left right = merge_models [] (left ++ right)

unfoldable pub non_blank_parts : List String → List String
non_blank_parts [] = []
non_blank_parts (part ∷ parts) =
    let rest = non_blank_parts parts in
    let value = trim_space part in if value == "" then rest else value ∷ rest

-- `splitEnvModels` of the text of a variable
unfoldable pub split_env_models : String → List String
unfolding non_blank_parts
split_env_models raw =
    let value = trim_space raw in if value == "" then [] else non_blank_parts (split b',' value)

-- what a later verification that passed says of the items that it closes
abbrev pub verified : VerificationRecord → String → ReviewRoomResolution
verified item scope_evidence = record {
  action = "resolve";
  reason = "later verification passed for the same scope";
  rule = "review_room.auto.verification_failed_clear";
  evidence = ("verification:" <> item.record_id) ∷ scope_evidence ∷ "status:passed" ∷ [];
  resolved_at = 0;
}

-- the room after the loop, kept if it closed an item; that the fuel is out does not happen
kept_resolved : Env → Service → Resolving → Outcome
kept_resolved env s none = (s, none)
kept_resolved env s (some (err e)) = (s, some e)
kept_resolved env s (some (ok (room, resolved))) =
    (if ltb 0 resolved then keep_room env room s else s, none)

-- behind the suggestion, the open items of a scope that passes now
verified_room : Env → VerificationRecord → Service → Option ReviewRoomItem → Outcome
unfolding kept_resolved
verified_room env item s (some suggestion) = auto_open env suggestion s
verified_room env item s none =
    let scope_evidence = "scope:" <> trim_space item.scope in
    if item.status == "passed" && not (is_blank item.scope)
    then kept_resolved env s (
        auto_resolve_by_evidence env s.room "verification.failed" scope_evidence
          (verified item scope_evidence))
    else (s, none)

unfoldable pub verification_room : Env → VerificationRecord → Service → Outcome
unfolding verified_room
verification_room env item s = verified_room env item s (suggestion_for_verification env.now item)

module _ (encode : (d : Domain) → Saved d → String) where
  -- with the texts of LAYER_OS_MODELS and LAYER_OS_MODEL
  unfoldable pub create_preflight : Env → String → String → PreflightRecord → Service → Outcome
  create_preflight env models model raw s =
      let item = record raw {
        models_used = some (
            merge_runtime_models (items raw.models_used)
              (merge_runtime_models (split_env_models models) (split_env_models model)));
      } in
      checked (create_preflight_record item s.preflights) s (λ preflights.
        finish encode env
          (new_system_event env "preflight.created" (
            texts (
              ("record_id", item.record_id)
              ∷ ("status", item.status)
              ∷ ("decision", item.decision)
              ∷ [])))
          no_more (λ t. record t { preflights = s.preflights })
          (λ t. restored_events env s (record t { preflights = s.preflights }))
          (record s { preflights = preflights }))

  unfoldable pub create_verification : Env → VerificationRecord → Service → Outcome
  create_verification env item s =
      let undo_all = λ (t : Service).
        restored_room env s
          (restored_events env s (record t { verifications = s.verifications })) in
      checked (create_verification_record item s.verifications) s (λ verifications.
        finish encode env
          (new_system_event env "verification.created" (
            texts (
              ("record_id", item.record_id)
              ∷ ("scope", item.scope)
              ∷ ("status", item.status)
              ∷ [])))
          (λ u. on_error (verification_room env item u) undo_all)
          (λ t. record t { verifications = s.verifications }) undo_all
          (record s { verifications = verifications }))
