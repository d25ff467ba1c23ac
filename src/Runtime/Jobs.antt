-- ===== src/Runtime/Jobs.antt =====
-- internal/runtime/service_job.go: the methods on agent jobs.
pub mod Rollback
pub mod Evidence
pub mod Report
pub mod Chain
pub mod Reclaim
use layeros.Base.{
  String, Bool, not, Option, some, none, List, [], ◌∷◌, Result, ok, err, if◌then◌else◌, ◌==◌,
}
use layeros.Text.{◌<>◌, trim_space}
use layeros.Json.{Value, Fields, field, text, object, end, texts, get, put_all, clone_object}
use layeros.Types.Vocabulary.{Time, items}
use layeros.Types.Jobs.{AgentJob}
use layeros.Types.Events.{EventEnvelope}
use layeros.Types.Review.{ReviewRoomItem, ReviewRoomResolution, ReviewRoom}
use layeros.Stores.Branches.{or_text, or_time}
use layeros.Stores.Jobs.{create_job, get_job, update_job}
use layeros.Review.Room.{copy_room, ensure_item}
use layeros.Review.Suggest.{suggestion_for_job}
use layeros.Review.Sync.{auto_resolve_item}
use layeros.Env.{Env, Domain}
use layeros.State.{Service, Saved}
use layeros.Persist.{Outcome, persist_locked}
use layeros.Runtime.{checked, on_error, service_event, finish, no_more, restored_events}
use layeros.Runtime.Room.{keep_room, restored_room}
use layeros.Runtime.Work.{ensure_active_branch}

unfoldable pub normalize_job : Time → AgentJob → AgentJob
normalize_job now item = record item {
  status = or_text item.status "queued";
  notes = some (items item.notes);
  created_at = or_time item.created_at now;
  updated_at = or_time item.updated_at (or_time item.created_at now);
}

abbrev pub job_fields : AgentJob → Fields
job_fields item = texts (
    ("kind", item.kind)
    ∷ ("role", item.role)
    ∷ ("status", item.status)
    ∷ ("summary", item.summary)
    ∷ [])

abbrev pub job_created : Env → AgentJob → EventEnvelope
job_created env item =
    service_event env "agent_job.created" item.surface item.job_id item.stage (job_fields item)

-- `agentJobResultString` of the value behind a key
unfoldable pub result_string : Option Value → String
result_string (some (text s)) = s
result_string _ = ""

-- one entry of `copyAgentJobResultProvenance`
provenance : Fields → String → String → Fields → Fields
unfolding result_string
provenance result from to rest =
    let value = trim_space (result_string (get from result)) in
    if value == "" then rest else field to (text value) rest

unfoldable pub provenance_fields : Fields → Fields
unfolding provenance
provenance_fields result = provenance result "dispatch_actor" "dispatch_actor" (
    provenance result "reported_by_actor" "report_actor" (
      provenance result "completion_mode" "completion_mode" (
        provenance result "execution_origin" "execution_origin"
          (provenance result "dispatch_transport" "dispatch_transport" end))))

result_fields : Option Fields → Fields
unfolding provenance_fields
result_fields none = end
result_fields (some result) = field "result" (object result) (provenance_fields result)

unfoldable pub job_event : Env → String → AgentJob → EventEnvelope
unfolding result_fields
job_event env kind item = service_event env kind item.surface item.job_id item.stage (
    field "kind" (text item.kind) (
      field "role" (text item.role)
        (field "status" (text item.status) (result_fields item.result))))

unfoldable pub found_job : Option AgentJob → Result AgentJob
found_job none = err "job_id not found"
found_job (some job) = ok job

-- the resolution of the item that an earlier failure opened
abbrev pub left_failed : AgentJob → ReviewRoomResolution
left_failed job = record {
  action = "resolve";
  reason = "job left failed state after status transition";
  rule = "review_room.auto.agent_job_failed_clear";
  evidence = ("job:" <> job.job_id) ∷ ("status:" <> job.status) ∷ [];
  resolved_at = 0;
}

-- the room is kept where it changed
ensured : Env → Service → ReviewRoom × Bool → Outcome
ensured env s (room, changed) = (if changed then keep_room env room s else s, none)

resolved_room : Env → Service → ReviewRoom × Option ReviewRoomItem → Outcome
resolved_room env s (room, none) = (s, none)
resolved_room env s (room, some _) = (keep_room env room s, none)

job_suggested : Env → AgentJob → Service → Option ReviewRoomItem → Outcome
unfolding ensured resolved_room
job_suggested env job s (some suggestion) =
    checked (ensure_item env (copy_room env.now s.room) "open" suggestion) s (ensured env s)
job_suggested env job s none =
    if not (job.status == "failed")
    then checked
        (auto_resolve_item env s.room "agent_job.failed" (some job.job_id) (left_failed job)) s
        (resolved_room env s)
    else (s, none)

unfoldable pub job_room : Env → AgentJob → Service → Outcome
unfolding job_suggested
job_room env job s = job_suggested env job s (suggestion_for_job env.now job)

abbrev pub or_end : Option Fields → Fields
or_end none = end
or_end (some fs) = fs

-- `current.Result` with the entries of a patch
unfoldable pub patched : Fields → Option Fields → Fields
patched patch result = put_all (or_end (clone_object (some patch))) (or_end (clone_object result))

module _ (encode : (d : Domain) → Saved d → String) where
  -- a failed event rolls nothing back
  unfoldable pub create_agent_job : Env → AgentJob → Service → Outcome
  create_agent_job env raw s =
      let item = normalize_job env.now raw in
      checked (ensure_active_branch raw.branch_id s.branches) s (λ _.
        checked (create_job item s.agent_jobs) s (λ jobs.
          finish encode env (job_created env item) no_more (λ t. t)
            (λ t. restored_events env s (record t { agent_jobs = s.agent_jobs }))
            (record s { agent_jobs = jobs })))

  -- `updateAgentJobLocked`
  unfoldable pub update_agent_job :
      Env → String → String → String → Option (List String) → Option Fields → Service → Outcome
  update_agent_job env kind job_id status notes result s =
      let undo_all = λ (t : Service).
        restored_events env s (restored_room env s (record t { agent_jobs = s.agent_jobs })) in
      checked (found_job (get_job job_id s.agent_jobs)) s (λ _.
        checked (update_job job_id status notes result env.now s.agent_jobs) s (λ r.
          finish encode env (job_event env kind r.0) (λ u. on_error (job_room env r.0 u) undo_all)
            (λ t. record t { agent_jobs = s.agent_jobs }) undo_all (record s { agent_jobs = r.1 })))

  -- `applyAgentJobResultPatchLocked`
  unfoldable pub apply_result_patch : Env → String → Fields → Service → Outcome
  unfolding patched
  apply_result_patch env job_id patch s =
      checked (found_job (get_job job_id s.agent_jobs)) s (λ current.
        checked
          (update_job job_id current.status current.notes (some (patched patch current.result))
            env.now s.agent_jobs)
          s
          (λ r.
            on_error (persist_locked encode env (record s { agent_jobs = r.1 }))
              (λ t. record t { agent_jobs = s.agent_jobs })))
