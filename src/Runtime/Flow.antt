-- ===== src/Runtime/Flow.antt =====
-- internal/runtime/service.go: flows, and the status that what they refer to gives them.
pub mod Rollback
use layeros.Base.{
  String, Bool, false, not, ◌||◌, Option, some, none, List, [], ◌∷◌, Result, ok, err, ◌>>=◌, ◌>>◌,
  reject_if, if◌then◌else◌, ◌==◌, is_none, find_by,
}
use layeros.Text.{trim_space, is_blank}
use layeros.Json.{texts}
use layeros.Types.Vocabulary.{Time, items}
use layeros.Types.Work.{WorkItem}
use layeros.Types.Delivery.{ApprovalItem, DeployRun, RollbackRun}
use layeros.Types.Control.{FlowRun, ExecuteRun, VerificationRecord}
use layeros.Stores.Work.{get_work}
use layeros.Stores.Delivery.{get_approval, get_release, get_deploy}
use layeros.Stores.Control.{create_flow_run, update_flow, get_flow, get_policy}
use layeros.Stores.Branches.{normalize_ref, or_text, or_time}
use layeros.Env.{Env, Domain}
use layeros.State.{Service, Saved}
use layeros.Persist.{Outcome}
use layeros.Runtime.{checked, service_event, finish, no_more, restored_events}

-- the first item with an identifier, where the code walks a list
abbrev pub find_rollback : String → List RollbackRun → Option RollbackRun
find_rollback = find_by (λ r. r.rollback_id)

abbrev pub find_execute : String → List ExecuteRun → Option ExecuteRun
find_execute = find_by (λ x. x.execute_id)

abbrev pub find_verification : String → List VerificationRecord → Option VerificationRecord
find_verification = find_by (λ v. v.record_id)

-- A stage of deriveFlowStatusLocked: a status, or the next stage.
abbrev orelse : Option String → String → String
orelse none rest = rest
orelse (some status) rest = status

-- the walk over the rollbacks: of those with the identifier, the first whose status says something
unfoldable pub rollback_status : String → List RollbackRun → Option String
rollback_status id [] = none
rollback_status id (r ∷ rs) =
    let rest = rollback_status id rs in
    if not (r.rollback_id == id)
    then rest
    else if r.status == "failed"
    then some "blocked"
    else if r.status == "succeeded" || r.status == "recorded"
    then some "rolled_back"
    else rest

deploy_status : Option DeployRun → Option String
deploy_status none = none
deploy_status (some d) =
    if d.status == "failed"
    then some "blocked"
    else if d.status == "succeeded"
    then some "released"
    else none

has_status : String → Option ApprovalItem → Bool
has_status status none = false
has_status status (some a) = a.status == status

verification_status : Option VerificationRecord → Option String
verification_status none = none
verification_status (some v) = some (if v.status == "failed" then "blocked" else "waiting")

execute_status : Option ExecuteRun → Option String
execute_status none = none
execute_status (some x) = some (if x.status == "failed" then "blocked" else "waiting")

-- what a reference finds, if there is one
abbrev pub follow {ℓ} : {A : Type ℓ} → Option String → (String → Option A) → Option A
follow none find = none
follow (some ref) find = find ref

unfoldable pub derive_flow_status : Service → FlowRun → String
unfolding rollback_status deploy_status has_status verification_status execute_status
derive_flow_status s item =
    let approval = follow item.approval_id (λ id. get_approval id s.approvals) in
    orelse (follow item.rollback_id (λ id. rollback_status id s.rollbacks)) (
      orelse (deploy_status (follow item.deploy_id (λ id. get_deploy id s.deploys))) (
        if not (is_none item.release_id)
        then "released"
        else if has_status "rejected" approval
        then "blocked"
        else orelse
            (verification_status
              (follow item.verification_id (λ id. find_verification id s.verifications)))
            (orelse (execute_status (follow item.execute_id (λ id. find_execute id s.executes)))
              (if has_status "pending" approval then "waiting" else "active"))))

-- `if ref != nil && strings.TrimSpace(*ref) != "" { if not found { return errors.New(message) } }`
unfoldable pub check_ref {ℓ} :
    {A : Type ℓ} → Option String → (String → Option A) → String → Result (Unit {0})
check_ref none find message = ok tt
check_ref (some ref) find message =
    if is_blank ref then ok tt else reject_if (is_none (find (trim_space ref))) message

-- The references of a flow, as SyncFlow takes them.
pub record FlowRefs : Type 0 where
  pub approval : Option String
  pub policy_decision : Option String
  pub execute : Option String
  pub verification : Option String
  pub release : Option String
  pub deploy : Option String
  pub rollback : Option String

unfoldable pub check_refs : FlowRefs → Service → Result (Unit {0})
unfolding check_ref
check_refs refs s = do
  check_ref refs.approval (λ id. get_approval id s.approvals) "flow approval_id not found"
  check_ref refs.policy_decision (λ id. get_policy id s.policies)
      "flow policy_decision_id not found"
  check_ref refs.execute (λ id. find_execute id s.executes) "flow execute_id not found"
  check_ref refs.verification (λ id. find_verification id s.verifications)
      "flow verification_id not found"
  check_ref refs.release (λ id. get_release id s.releases) "flow release_id not found"
  check_ref refs.deploy (λ id. get_deploy id s.deploys) "flow deploy_id not found"
  check_ref refs.rollback (λ id. find_rollback id s.rollbacks) "flow rollback_id not found"

pub flow_work : Option WorkItem → Result WorkItem
flow_work none = err "flow work_item_id not found"
flow_work (some work) = ok work

unfoldable pub filled_flow : Time → FlowRun → FlowRun
filled_flow now item = record item {
  status = or_text item.status "active";
  notes = some (items item.notes);
  created_at = or_time item.created_at now;
  updated_at = or_time item.updated_at (or_time item.created_at now);
}

created_of : Time → Option FlowRun → Time
created_of now none = now
created_of now (some existing) = existing.created_at

-- the flow that SyncFlow keeps
unfoldable pub synced_flow :
    Env → String → WorkItem → FlowRefs → Option (List String) → Service → FlowRun
unfolding created_of
synced_flow env flow_id work refs notes s =
    let item : FlowRun = record {
      flow_id = flow_id;
      work_item_id = work.id;
      approval_id = normalize_ref refs.approval;
      policy_decision_id = normalize_ref refs.policy_decision;
      execute_id = normalize_ref refs.execute;
      verification_id = normalize_ref refs.verification;
      release_id = normalize_ref refs.release;
      deploy_id = normalize_ref refs.deploy;
      rollback_id = normalize_ref refs.rollback;
      status = "";
      notes = some (items notes);
      created_at = created_of env.now (get_flow flow_id s.flows);
      updated_at = env.now;
    } in
    record item { status = derive_flow_status s item }

module _ (encode : (d : Domain) → Saved d → String) where
  abbrev keep_flows : Env → String → FlowRun → WorkItem → Service → List FlowRun → Outcome
  keep_flows env kind item work s flows =
      finish encode env
        (service_event env kind work.surface work.id work.stage
          (texts (("flow_id", item.flow_id) ∷ ("status", item.status) ∷ [])))
        no_more (λ t. record t { flows = s.flows })
        (λ t. restored_events env s (record t { flows = s.flows })) (record s { flows = flows })

  unfoldable pub create_flow : Env → FlowRun → Service → Outcome
  unfolding flow_work
  create_flow env raw s = checked (flow_work (get_work raw.work_item_id s.work_items)) s (λ work.
      let item = filled_flow env.now raw in
      checked (create_flow_run item s.flows) s (keep_flows env "flow.created" item work s))

  unfoldable pub sync_flow :
      Env → String → String → FlowRefs → Option (List String) → Service → Outcome
  unfolding flow_work
  sync_flow env flow_id work_item_id refs notes s =
      checked (flow_work (get_work work_item_id s.work_items)) s (λ work.
        checked (check_refs refs s) s (λ _.
          let item = synced_flow env flow_id work refs notes s in
          checked (update_flow item s.flows) s (keep_flows env "flow.synced" item work s)))
