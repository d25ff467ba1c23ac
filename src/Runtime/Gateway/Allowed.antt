-- ===== src/Runtime/Gateway/Allowed.antt =====
-- What CreateGatewayCall has checked of the policy, and what it stores.
use layeros.Base.{
  String, not, ◌||◌, ◌≡◌, refl, ap, ◌∙◌, Option, none, some, List, [], ◌∷◌, ◌++◌, ok,
  reject_if-eq-ok, >>=-eq-ok, or-eq-false, not-eq-false, ◌==◌, eq_iff,
}
use layeros.Json.{Fields}
use layeros.Types.Vocabulary.{canonical_policy_mode}
use layeros.Types.Control.{PolicyDecision, GatewayCall, validate_gateway_call}
use layeros.Stores.Loop.{create_checked-eq-ok}
use layeros.Stores.Control.{get_policy, create_gateway_record}
use layeros.Env.{Env, Domain}
use layeros.State.{Service, Saved}
use layeros.Runtime.Logged.{checked-none}
use layeros.Runtime.Outcomes.{Stores, Stores-move, finish-Stores}
use layeros.Runtime.Gateway.{
  Adapter, found_decision, prepared_call, gateway_more, store_gateway_call, create_gateway_call,
}
use layeros.Runtime.Gateway.Rollback.{gateway_more-Between}

-- the policy behind a call that is stored, and the call as the adapter has left it
pub record Dispatched (adapter : Adapter) (item : GatewayCall) (payload : Option Fields)
    (s t w : Service) : Type 0 where
  pub decision : PolicyDecision
  pub found : get_policy item.decision_id s.policies ≡ some decision
  pub go : decision.decision ≡ "go"
  pub same_mode : canonical_policy_mode decision.mode ≡ canonical_policy_mode adapter.required_mode
  pub prepared : GatewayCall
  pub by_adapter : prepared_call adapter item payload s.policies ≡ ok prepared
  pub valid : validate_gateway_call prepared ≡ ok tt
  pub stored : Stores (record t { gateway_calls = t.gateway_calls ++ prepared ∷ [] }) w

pub record Found (mode decision_id : String) (policies : List PolicyDecision) : Type 0 where
  pub decision : PolicyDecision
  pub found : get_policy decision_id policies ≡ some decision
  pub go : decision.decision ≡ "go"
  pub same_mode : canonical_policy_mode decision.mode ≡ mode

found_decision-Found :
    (mode decision_id : String) (policies : List PolicyDecision) (o : Option PolicyDecision)
    (d : PolicyDecision)
    → get_policy decision_id policies ≡ o
    → found_decision mode o ≡ ok d
    → Found mode decision_id policies
unfolding found_decision
found_decision-Found mode decision_id policies none d p h = cc
found_decision-Found mode decision_id policies (some x) d p h =
    let (passed, _) =
      reject_if-eq-ok (not (x.decision == "go") || not (canonical_policy_mode x.mode == mode)) _
        (ok x) h in
    let (go, same) = or-eq-false (not (x.decision == "go")) _ passed in
    record {
      decision = x;
      found = p;
      go = (eq_iff x.decision "go").0 (not-eq-false _ go);
      same_mode = (eq_iff (canonical_policy_mode x.mode) mode).0 (not-eq-false _ same);
    }

prepared_call-Found :
    (adapter : Adapter) (item : GatewayCall) (payload : Option Fields)
    (policies : List PolicyDecision) (c : GatewayCall)
    → prepared_call adapter item payload policies ≡ ok c
    → Found (canonical_policy_mode adapter.required_mode) item.decision_id policies
unfolding prepared_call
prepared_call-Found adapter item payload policies c h =
    let (d, found, _) =
      >>=-eq-ok
        (found_decision (canonical_policy_mode adapter.required_mode)
          (get_policy item.decision_id policies))
        _ h in
    found_decision-Found _ item.decision_id policies (get_policy item.decision_id policies) d refl
      found

-- Whatever other methods did while the adapter ran, where CreateGatewayCall answers no error, its policy
-- was found at the first lock, decided to go and has the mode that the adapter requires; what the adapter
-- made of the call passes its check and is appended to the calls that there are at the second lock, and
-- of what the service held there only the review room, the log, the marks of the domains and the files
-- may have changed beside.
pub create_gateway_call-Dispatched :
    (encode : (d : Domain) → Saved d → String) (env : Env) (adapter : Adapter) (item : GatewayCall)
    (payload : Option Fields) (s t : Service)
    → (create_gateway_call encode env adapter item payload s t).1 ≡ none
    → Dispatched adapter item payload s t
        (create_gateway_call encode env adapter item payload s t).0
unfolding create_gateway_call store_gateway_call create_gateway_record
create_gateway_call-Dispatched encode env adapter item payload s t h =
    let (prepared, made, h1, e1) =
      checked-none (prepared_call adapter item payload s.policies) t _ h in
    let (calls, checks, h2, e2) =
      checked-none (create_gateway_record prepared t.gateway_calls) t _ h1 in
    let (valid, appended) =
      create_checked-eq-ok validate_gateway_call prepared t.gateway_calls checks in
    let known = prepared_call-Found adapter item payload s.policies prepared made in
    let done =
      finish-Stores encode env (record t { gateway_calls = calls }) _ (gateway_more env prepared t)
        _ _ (gateway_more-Between env prepared t) h2 in
    record {
      decision = known.decision;
      found = known.found;
      go = known.go;
      same_mode = known.same_mode;
      prepared = prepared;
      by_adapter = made;
      valid = valid;
      stored =
          Stores-move (record t { gateway_calls = calls })
            (record t { gateway_calls = t.gateway_calls ++ prepared ∷ [] }) _
            (create_gateway_call encode env adapter item payload s t).0
            (ap (λ xs. record t { gateway_calls = xs }) appended) (e1 ∙ e2) done;
    }
