-- ===== src/Runtime/Policy.antt =====
-- internal/runtime/policy.go, execute.go, service_control.go: policies and executions.
pub mod Decide
pub mod Run
pub mod Rollback
use layeros.Base.{
  String, Bool, not, ◌||◌, ◌&&◌, Option, some, none, List, [], ◌∷◌, ◌++◌, Result, ok, err,
  if◌then◌else◌, ◌==◌,
}
use layeros.Json.{texts}
use layeros.Types.Vocabulary.{Time, items}
use layeros.Types.Work.{WorkItem}
use layeros.Types.Control.{PolicyDecision, ExecuteRun}
use layeros.Stores.Work.{get_work}
use layeros.Stores.Control.{create_policy_decision, get_policy, create_execute_run}
use layeros.Review.Suggest.{suggestion_for_execute}
use layeros.Env.{Env, Domain}
use layeros.State.{Service, Saved}
use layeros.Persist.{Outcome}
use layeros.Runtime.{checked, on_error, new_system_event, finish, no_more, restored_events}
use layeros.Runtime.Room.{auto_open_some, restored_room}

-- the mode, the decision and the reasons
unfoldable pub decide_policy :
    String → String → String → String → Bool → String × String × List String
decide_policy intent risk novelty token_class requires_approval =
    let high = risk == "high" || novelty == "high" in
    if token_class == "tiny" && high
    then ("blocked", "hold", "token_class too small for high-risk or high-novelty work" ∷ [])
    else if high
    then (
      "single",
      "go",
      "high-risk or high-novelty work stays in the strongest single review lane"
          ∷ (if requires_approval
              then "approval-sensitive work remains daemon-mediated instead of direct local execution"
                ∷ []
              else []),
    )
    else if requires_approval
        || risk == "medium"
        || novelty == "medium"
        || token_class == "medium"
        || token_class == "large"
    then ("single", "go", "moderate ambiguity or approval sensitivity routes to single mode" ∷ [])
    else (
      "local",
      "go",
      "low-risk work stays local"
          ∷ (if not (intent == "")
              then "intent is specific enough for deterministic local handling" ∷ []
              else []),
    )

unfoldable pub execute_status_from_decision : PolicyDecision → String
execute_status_from_decision decision =
    if decision.mode == "local"
    then "succeeded"
    else if decision.mode == "single"
    then "recorded"
    else "failed"

mode_note : String → String
mode_note mode =
    if mode == "local"
    then "local execution completed inside the kernel"
    else if mode == "single"
    then "execution recorded for later provider-backed handling"
    else if mode == "blocked"
    then "execution blocked by policy"
    else "execution failed due to unsupported policy mode"

unfoldable pub build_execute_notes : PolicyDecision → Option (List String) → List String
unfolding mode_note
build_execute_notes decision base =
    items base
    ++ mode_note decision.mode
      ∷ (if decision.decision == "hold" then "policy decision is hold" ∷ [] else [])

unfoldable pub evaluated :
    Env → String → String → String → String → String → String → Bool → PolicyDecision
unfolding decide_policy
evaluated env decision_id intent scope risk novelty token_class requires_approval =
    let (mode, decision, reasons) =
      decide_policy intent risk novelty token_class requires_approval in
    record {
      decision_id = decision_id;
      intent = intent;
      scope = scope;
      risk = risk;
      novelty = novelty;
      token_class = token_class;
      requires_approval = requires_approval;
      mode = mode;
      decision = decision;
      reasons = some reasons;
      created_at = env.now;
    }

-- the execution of a policy, without its status and its end
unfoldable pub planned :
    Env
    → String
    → WorkItem
    → PolicyDecision
    → Option (List String)
    → String
    → Option Time
    → ExecuteRun
unfolding build_execute_notes
planned env execute_id work decision base_notes status finished_at = record {
  execute_id = execute_id;
  work_item_id = work.id;
  policy_decision_id = decision.decision_id;
  mode = decision.mode;
  status = status;
  notes = some (build_execute_notes decision base_notes);
  started_at = env.now;
  finished_at = finished_at;
}

is_blocked : PolicyDecision → Bool
is_blocked decision = decision.decision == "hold" || decision.mode == "blocked"

-- A method that answers a value beside its error.
abbrev pub with_value {ℓ} : {A : Type ℓ} → A → Outcome → Service × Result A
with_value a (s, none) = (s, ok a)
with_value a (s, some e) = (s, err e)

-- the item is stored, and the caller still gets an error
abbrev pub then_error {ℓ} : {A : Type ℓ} → String → Outcome → Service × Result A
then_error message (s, none) = (s, err message)
then_error message (s, some e) = (s, err e)

module _ (encode : (d : Domain) → Saved d → String) where
  unfoldable pub create_policy : Env → PolicyDecision → Service → Outcome
  create_policy env item s = checked (create_policy_decision item s.policies) s (λ policies.
      finish encode env
        (new_system_event env "policy.created" (
          texts (
            ("decision_id", item.decision_id)
            ∷ ("decision", item.decision)
            ∷ ("mode", item.mode)
            ∷ [])))
        no_more (λ t. record t { policies = s.policies })
        (λ t. restored_events env s (record t { policies = s.policies }))
        (record s { policies = policies }))

  unfoldable pub evaluate_policy :
      Env
      → String
      → String
      → String
      → String
      → String
      → String
      → Bool
      → Service
      → Service × Result PolicyDecision
  evaluate_policy env decision_id intent scope risk novelty token_class requires_approval s =
      let item =
        evaluated env decision_id intent scope risk novelty token_class requires_approval in
      with_value item (create_policy env item s)

  unfoldable pub create_execute : Env → ExecuteRun → Service → Outcome
  create_execute env item s =
      let undo_all = λ (t : Service).
        restored_room env s (restored_events env s (record t { executes = s.executes })) in
      checked (create_execute_run item s.executes) s (λ executes.
        finish encode env
          (new_system_event env "execute.created" (
            texts (
              ("execute_id", item.execute_id)
              ∷ ("work_item_id", item.work_item_id)
              ∷ ("policy_decision_id", item.policy_decision_id)
              ∷ ("status", item.status)
              ∷ ("mode", item.mode)
              ∷ [])))
          (λ u. on_error (auto_open_some env (suggestion_for_execute env.now item) u) undo_all)
          (λ t. record t { executes = s.executes }) undo_all (record s { executes = executes }))

  run_planned :
      Env
      → String
      → Option (List String)
      → Service
      → WorkItem
      → PolicyDecision
      → Service × Result ExecuteRun
  unfolding is_blocked execute_status_from_decision planned
  run_planned env execute_id base_notes s work decision =
      if is_blocked decision
      then then_error "execute blocked by policy" (
          create_execute env
            (planned env execute_id work decision base_notes "failed" (some env.now)) s)
      else (let status = execute_status_from_decision decision in
          let item =
            planned env execute_id work decision base_notes status
              (if status == "recorded" then none else some env.now) in
          with_value item (create_execute env item s))

  run_found :
      Env
      → String
      → Option (List String)
      → Service
      → Option WorkItem
      → Option PolicyDecision
      → Service × Result ExecuteRun
  unfolding run_planned
  run_found env execute_id base_notes s none decision = (s, err "execute work_item_id not found")
  run_found env execute_id base_notes s (some work) none =
      (s, err "execute policy_decision_id not found")
  run_found env execute_id base_notes s (some work) (some decision) =
      run_planned env execute_id base_notes s work decision

  unfoldable pub run_execute :
      Env → String → String → String → Option (List String) → Service → Service × Result ExecuteRun
  unfolding run_found
  run_execute env execute_id work_item_id policy_decision_id base_notes s =
      run_found env execute_id base_notes s (get_work work_item_id s.work_items)
        (get_policy policy_decision_id s.policies)
