-- ===== src/Stores/Control.antt =====
-- internal/runtime/flow.go, preflight.go, policy.go, gateway.go, execute.go, verify.go, policy_mode.go
use layeros.Base.{
  String, Option, some, List, [], ◌∷◌, Result, ok, ◌>>◌, if◌then◌else◌, ◌==◌, find_by,
}
use layeros.Types.Vocabulary.{items, canonical_policy_mode}
use layeros.Types.Control.{
  FlowRun, validate_flow_run, PreflightRecord, validate_preflight_record, PolicyDecision,
  validate_policy_decision, GatewayCall, validate_gateway_call, ExecuteRun, validate_execute_run,
  VerificationRecord, validate_verification_record,
}
use layeros.Stores.Loop.{create_checked}

unfoldable pub create_flow_run : FlowRun → List FlowRun → Result (List FlowRun)
create_flow_run = create_checked validate_flow_run

-- the loop of `flowStore.update`, which appends a flow that is not there
unfoldable pub upsert_flow : FlowRun → List FlowRun → List FlowRun
upsert_flow item [] = item ∷ []
upsert_flow item (f ∷ fs) =
    let rest = upsert_flow item fs in if f.flow_id == item.flow_id then item ∷ fs else f ∷ rest

unfoldable pub update_flow : FlowRun → List FlowRun → Result (List FlowRun)
unfolding upsert_flow
update_flow item flows = do validate_flow_run item; ok (upsert_flow item flows)

unfoldable pub get_flow : String → List FlowRun → Option FlowRun
get_flow = find_by (λ f. f.flow_id)

unfoldable pub create_preflight_record :
    PreflightRecord → List PreflightRecord → Result (List PreflightRecord)
create_preflight_record = create_checked validate_preflight_record

unfoldable pub append_unique_string : List String → String → List String
append_unique_string [] value = value ∷ []
append_unique_string (s ∷ ss) value =
    let rest = append_unique_string ss value in if s == value then s ∷ ss else s ∷ rest

unfoldable pub normalize_policy_decision : PolicyDecision → PolicyDecision
unfolding append_unique_string canonical_policy_mode
normalize_policy_decision item =
    let item' = record item { mode = canonical_policy_mode item.mode } in
    if item.mode == "dual"
    then record item' {
      reasons = some (
          append_unique_string (items item'.reasons)
            "legacy dual mode normalized to single review lane");
    }
    else item'

unfoldable pub normalize_execute_run : ExecuteRun → ExecuteRun
unfolding canonical_policy_mode
normalize_execute_run item = record item { mode = canonical_policy_mode item.mode }

unfoldable pub create_policy_decision :
    PolicyDecision → List PolicyDecision → Result (List PolicyDecision)
create_policy_decision item =
    create_checked validate_policy_decision (normalize_policy_decision item)

unfoldable pub get_policy : String → List PolicyDecision → Option PolicyDecision
get_policy = find_by (λ p. p.decision_id)

unfoldable pub create_gateway_record : GatewayCall → List GatewayCall → Result (List GatewayCall)
create_gateway_record = create_checked validate_gateway_call

unfoldable pub get_gateway : String → List GatewayCall → Option GatewayCall
get_gateway = find_by (λ g. g.call_id)

unfoldable pub create_execute_run : ExecuteRun → List ExecuteRun → Result (List ExecuteRun)
create_execute_run item = create_checked validate_execute_run (normalize_execute_run item)

unfoldable pub create_verification_record :
    VerificationRecord → List VerificationRecord → Result (List VerificationRecord)
create_verification_record = create_checked validate_verification_record
