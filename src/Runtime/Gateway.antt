-- ===== src/Runtime/Gateway.antt =====
-- internal/runtime/service_control.go, adapter.go: calls of a provider. What an adapter sends and
-- answers is its own; the method asks the policy under one lock, calls the adapter outside it, and
-- stores the call under a second one.
pub mod Rollback
pub mod Allowed
use layeros.Base.{
  zero, suc, String, Bool, true, false, not, ◌||◌, Option, some, none, List, [], ◌∷◌, Result, ok,
  err, ◌>>=◌, ◌>>◌, reject_if, ℤ, pos, negsuc, if◌then◌else◌, ◌==◌,
}
use layeros.Text.{◌<>◌, trim_space, is_blank, decimal}
use layeros.Json.{Fields, field, text, number, end}
use layeros.Types.Vocabulary.{Time, items, canonical_policy_mode}
use layeros.Types.Review.{ReviewRoomItem}
use layeros.Types.Control.{PolicyDecision, GatewayCall}
use layeros.Stores.Control.{get_policy, create_gateway_record, append_unique_string}
use layeros.Review.Suggest.{new_signal_item}
use layeros.Env.{Env, Domain}
use layeros.State.{Service, Saved}
use layeros.Persist.{Outcome, and_then}
use layeros.Runtime.{checked, on_error, log, new_system_event, finish, restored_events}
use layeros.Runtime.Room.{auto_open_some, restored_room}

-- `GatewayAdapter`; an adapter that takes no payload leaves it aside
pub record Adapter : Type 0 where
  pub name : String
  pub semantics : String
  pub dispatch_enabled : Bool
  pub required_mode : String
  pub prepare : GatewayCall → PolicyDecision → Result GatewayCall
  pub dispatch : GatewayCall → PolicyDecision → Option Fields → Result GatewayCall

is_zero_int : ℤ → Bool
is_zero_int (pos n) = elim n [ zero ↦ true | suc _ ↦ false ]
is_zero_int (negsuc n) = false

unfoldable pub prepare_recorded : GatewayCall → PolicyDecision → GatewayCall
unfolding is_zero_int
prepare_recorded call decision = record call {
  status = if call.status == "" then "recorded" else call.status;
  notes = some (items call.notes);
  attempt_count = pos 0;
  last_http_status = none;
  last_error = none;
  response_preview = none;
  dispatched_at = none;
  token_budget =
      if is_zero_int call.token_budget
      then (if decision.token_class == "large"
          then pos 64000
          else if decision.token_class == "medium"
          then pos 16000
          else pos 8000)
      else call.token_budget;
}

-- a note in front of which those are that the call has
abbrev pub noted : String → GatewayCall → GatewayCall
noted note call = record call { notes = some (append_unique_string (items call.notes) note) }

abbrev pub same_call : GatewayCall → PolicyDecision → Option Fields → Result GatewayCall
same_call call decision payload = ok call

-- `recordGatewayAdapter`
unfoldable pub record_adapter : Adapter
unfolding prepare_recorded
record_adapter = record {
  name = "record";
  semantics = "record_only";
  dispatch_enabled = false;
  required_mode = "single";
  prepare = λ call decision.
      ok (
        noted "dispatch:recorded-intent" (noted "adapter:record" (prepare_recorded call decision)));
  dispatch = same_call;
}

-- `packetGatewayAdapter` on a base
unfoldable pub packet_name : Option Adapter → String
packet_name none = "packet"
packet_name (some base) = if is_blank base.name then "packet" else trim_space base.name

packet_mode : Option Adapter → String
packet_mode none = "single"
packet_mode (some base) = base.required_mode

unfoldable pub packet_adapter : Option Adapter → String → Adapter
unfolding packet_name packet_mode prepare_recorded
packet_adapter base reason = record {
  name = packet_name base;
  semantics = "job_packet";
  dispatch_enabled = false;
  required_mode = packet_mode base;
  prepare = λ call decision.
      let call' =
        noted "dispatch:job_packet"
          (noted ("adapter:" <> packet_name base) (prepare_recorded call decision)) in
      ok (if is_blank reason then call' else noted ("dispatch:reason=" <> trim_space reason) call');
  dispatch = same_call;
}

unfoldable pub decimal_int : ℤ → String
decimal_int (pos n) = decimal n
decimal_int (negsuc n) = "-" <> decimal (suc n)

http_field : Option ℤ → Fields → Fields
unfolding decimal_int
http_field none rest = rest
http_field (some status) rest = field "last_http_status" (number (decimal_int status)) rest

text_field : String → Option String → Fields → Fields
text_field key none rest = rest
text_field key (some s) rest = field key (text s) rest

unfoldable pub gateway_event_data : GatewayCall → Fields
unfolding http_field text_field decimal_int
gateway_event_data item = field "call_id" (text item.call_id) (
    field "decision_id" (text item.decision_id) (
      field "provider" (text item.provider) (
        field "request_kind" (text item.request_kind) (
          field "status" (text item.status) (
            field "attempt_count" (number (decimal_int item.attempt_count)) (
              http_field item.last_http_status (
                text_field "last_error" item.last_error
                  (text_field "response_preview" item.response_preview end))))))))

error_evidence : Option String → List String → List String
error_evidence none rest = rest
error_evidence (some e) rest = if e == "" then rest else ("error:" <> e) ∷ rest

status_evidence : Option ℤ → List String
unfolding decimal_int
status_evidence none = []
status_evidence (some status) = ("http_status:" <> decimal_int status) ∷ []

-- `reviewRoomSuggestionForGatewayCall`
unfoldable pub suggestion_for_gateway : Time → GatewayCall → Option ReviewRoomItem
unfolding error_evidence status_evidence
suggestion_for_gateway now item =
    if not (item.status == "failed")
    then none
    else some (
        new_signal_item now
          ("게이트웨이 호출 `" <> item.call_id <> "`이 공급자 `" <> item.provider
            <> "`에서 실패했어. 이 레인을 자동화가 믿고 이어가기 전에 founder 검토가 필요해.")
          "gateway.failed" (some item.call_id)
          "failed provider dispatch requires review before agent automation depends on the provider lane"
          "review_room.auto.gateway_failed"
          (("gateway:" <> item.call_id)
            ∷ ("provider:" <> item.provider)
            ∷ error_evidence item.last_error (status_evidence item.last_http_status)))

-- the guard on the policy of a call
unfoldable pub found_decision : String → Option PolicyDecision → Result PolicyDecision
found_decision mode none = err "gateway decision_id not found"
found_decision mode (some decision) = do
  reject_if (not (decision.decision == "go") || not (canonical_policy_mode decision.mode == mode))
      ("gateway requires a " <> mode <> "-mode go policy decision")
  ok decision

-- what the method does before it stores a call
unfoldable pub prepared_call :
    Adapter → GatewayCall → Option Fields → List PolicyDecision → Result GatewayCall
unfolding found_decision
prepared_call adapter item payload policies = do
  decision ←
      found_decision (canonical_policy_mode adapter.required_mode)
        (get_policy item.decision_id policies)
  prepared ← adapter.prepare item decision
  if adapter.dispatch_enabled then adapter.dispatch prepared decision payload else ok prepared

abbrev pub undo_gateway : Env → Service → Service → Service
undo_gateway env old t = restored_events env old (record t { gateway_calls = old.gateway_calls })

-- the event of a call that was sent, and that of one that failed with its item of the room
unfoldable pub gateway_sent : Env → GatewayCall → Service → Outcome
unfolding gateway_event_data
gateway_sent env item s =
    if item.status == "sent"
    then log (new_system_event env "gateway.sent" (gateway_event_data item)) s
    else (s, none)

unfoldable pub gateway_failed : Env → GatewayCall → Service → Outcome
unfolding gateway_event_data
gateway_failed env item s =
    if item.status == "failed"
    then log (new_system_event env "gateway.failed" (gateway_event_data item)) s
    else (s, none)

unfoldable pub gateway_room : Env → GatewayCall → Service → Outcome
gateway_room env item s =
    if item.status == "failed"
    then auto_open_some env (suggestion_for_gateway env.now item) s
    else (s, none)

-- the stages between the event of a new call and persistLocked; `old` is the service before the call
unfoldable pub gateway_more : Env → GatewayCall → Service → Service → Outcome
gateway_more env item old u =
    and_then (on_error (gateway_sent env item u) (undo_gateway env old)) (λ v.
      and_then (on_error (gateway_failed env item v) (undo_gateway env old)) (λ w.
        on_error (gateway_room env item w) (λ t. restored_room env old (undo_gateway env old t))))

module _ (encode : (d : Domain) → Saved d → String) where
  unfoldable pub store_gateway_call : Env → GatewayCall → Service → Outcome
  store_gateway_call env item s = checked (create_gateway_record item s.gateway_calls) s (λ calls.
      finish encode env (new_system_event env "gateway.created" (gateway_event_data item))
        (gateway_more env item s) (λ t. record t { gateway_calls = s.gateway_calls })
        (λ t. restored_room env s (undo_gateway env s t)) (record s { gateway_calls = calls }))

  -- `s` is the service at the first lock, `t` that at the second, after whatever other methods did
  -- while the adapter ran
  unfoldable pub create_gateway_call :
      Env → Adapter → GatewayCall → Option Fields → Service → Service → Outcome
  create_gateway_call env adapter item payload s t =
      checked (prepared_call adapter item payload s.policies) t
        (λ prepared. store_gateway_call env prepared t)
