-- ===== src/Runtime/Policy/Run.antt =====
-- What RunExecute lets through.
use layeros.Base.{
  String, false, ◌≡◌, refl, ap, inl, inr, Option, some, none, List, ok, ◌==◌, Bool-cases,
  or-eq-false,
}
use layeros.Types.Work.{WorkItem}
use layeros.Types.Control.{PolicyDecision, ExecuteRun}
use layeros.Stores.Work.{get_work}
use layeros.Stores.Control.{get_policy}
use layeros.Env.{Env, Domain}
use layeros.State.{Service, Saved}
use layeros.Persist.{Outcome}
use layeros.Runtime.Policy.{
  run_execute, run_planned, run_found, is_blocked, execute_status_from_decision, planned,
  with_value, then_error,
}

-- An execution that was run: its work item and its policy were found, the policy is neither on hold
-- nor blocked, and the status is what its mode says.
pub record Allowed (work_item_id policy_decision_id : String) (s : Service) (item : ExecuteRun)
    : Type 0 where
  pub work : WorkItem
  pub work_found : get_work work_item_id s.work_items ≡ some work
  pub decision : PolicyDecision
  pub decision_found : get_policy policy_decision_id s.policies ≡ some decision
  pub not_hold : (decision.decision == "hold") ≡ false
  pub not_blocked : (decision.mode == "blocked") ≡ false
  pub mode : item.mode ≡ decision.mode
  pub status : item.status ≡ execute_status_from_decision decision

with_value-ok :
    (a b : ExecuteRun) (r : Outcome) → (with_value a r).1 ≡ ok b → (b ≡ a) × (r.1 ≡ none)
with_value-ok a b (s, none) h = (cc, refl)
with_value-ok a b (s, some e) h = cc

then_error-ok :
    (b : ExecuteRun) (message : String) (r : Outcome) → ¬ ((then_error message r).1 ≡ ok b)
then_error-ok b message (s, none) h = cc
then_error-ok b message (s, some e) h = cc

run_planned-Allowed :
    (encode : (d : Domain) → Saved d → String) (env : Env) (execute_id : String)
    (base_notes : Option (List String)) (s : Service) (work : WorkItem) (decision : PolicyDecision)
    (item : ExecuteRun)
    → (run_planned encode env execute_id base_notes s work decision).1 ≡ ok item
    → (is_blocked decision ≡ false)
      × (item.mode ≡ decision.mode)
      × (item.status ≡ execute_status_from_decision decision)
unfolding run_planned planned
run_planned-Allowed encode env execute_id base_notes s work decision item =
    elim (Bool-cases (is_blocked decision)) [
      | inl blocked ↦ rw blocked (λ h. elim (then_error-ok item _ _ h) [ ])
      | inr free ↦ rw free (λ h.
          let (same, done) = with_value-ok _ item _ h in
          (refl, ap (λ (x : ExecuteRun). x.mode) same, ap (λ (x : ExecuteRun). x.status) same))
    ]

run_found-Allowed :
    (encode : (d : Domain) → Saved d → String) (env : Env)
    (execute_id work_item_id policy_decision_id : String) (base_notes : Option (List String))
    (s : Service) (item : ExecuteRun) (work : Option WorkItem) (decision : Option PolicyDecision)
    → get_work work_item_id s.work_items ≡ work
    → get_policy policy_decision_id s.policies ≡ decision
    → (run_found encode env execute_id base_notes s work decision).1 ≡ ok item
    → Allowed work_item_id policy_decision_id s item
unfolding run_found is_blocked
run_found-Allowed encode env execute_id w p base_notes s item none decision found got h = cc
run_found-Allowed encode env execute_id w p base_notes s item (some work) none found got h = cc
run_found-Allowed encode env execute_id w p base_notes s item (some work) (some decision) found got
      h =
    let (free, mode, status) =
      run_planned-Allowed encode env execute_id base_notes s work decision item h in
    let (not_hold, not_blocked) = or-eq-false _ _ free in
    record {
      work = work;
      work_found = found;
      decision = decision;
      decision_found = got;
      not_hold = not_hold;
      not_blocked = not_blocked;
      mode = mode;
      status = status;
    }

-- Where RunExecute answers an execution, its work item and its policy exist, the policy is neither on
-- hold nor blocked, and the execution has the policy's mode and the status that goes with it.
pub run_execute-Allowed :
    (encode : (d : Domain) → Saved d → String) (env : Env)
    (execute_id work_item_id policy_decision_id : String) (base_notes : Option (List String))
    (s : Service) (item : ExecuteRun)
    → (run_execute encode env execute_id work_item_id policy_decision_id base_notes s).1 ≡ ok item
    → Allowed work_item_id policy_decision_id s item
unfolding run_execute
run_execute-Allowed encode env execute_id w p base_notes s item =
    run_found-Allowed encode env execute_id w p base_notes s item _ _ refl refl
