-- ===== src/RuntimeExamples.antt =====
-- The theorems on the review room by evidence, the gateway, the log's history, paths and job reports on
-- concrete runs.
use layeros.Base.{true, List, ◌≡◌, ◌↔◌, refl, some, none, ok, [], ◌∷◌, ◌==◌, pos}
use layeros.Text.{trim_space}
use layeros.Json.{Fields, field, array, end, text, text_items}
use layeros.Types.Jobs.{AgentJob}
use layeros.Types.Control.{GatewayCall}
use layeros.Types.Review.{ReviewRoomItem, ReviewRoomResolution}
use layeros.Files.{clean, path_within_any_prefix}
use layeros.Files.Within.{BeneathSome, path_within_any_prefix_iff}
use layeros.Types.Events.{EventEnvelope}
use mathlib.Core.List.{Sublistᴰ}
use layeros.EventStore.{EventStore, append_event, event_list, count_events, restore_events}
use layeros.EventStore.History.{
  Log, History, begun, appended, archive_written, rolled_back, Run, start, next, Refines,
  Run-Refines,
}
use layeros.State.{Service}
use layeros.Runtime.Gateway.{record_adapter, create_gateway_call}
use layeros.Runtime.Gateway.Allowed.{Dispatched, create_gateway_call-Dispatched}
use layeros.Runtime.Jobs.Evidence.{Repo}
use layeros.Runtime.Jobs.Report.{merged_report, normalize_report_result}
use layeros.Runtime.Jobs.Report.Supported.{Supported}
use layeros.Samples.{encode, env, service, policy_item, envelope}

abbrev room_item : ReviewRoomItem
room_item = record {
  text = "check";
  kind = "risk";
  severity = "high";
  source = "verification.failed";
  ref = none;
  why = "why";
  why_unresolved = none;
  contradiction = none;
  contradictions = [];
  pattern_refs = [];
  rationale = none;
  resolution = none;
  evidence = "scope:x" ∷ [];
  created_at = 50;
  updated_at = 50;
}

abbrev resolution : ReviewRoomResolution
resolution = record {
  action = "resolve";
  reason = "passed";
  rule = "rule";
  evidence = [];
  resolved_at = 100;
}

abbrev call : GatewayCall
call = record {
  call_id = "G1";
  decision_id = "P1";
  provider = "openai";
  model = "m";
  request_kind = "chat";
  status = "";
  attempt_count = pos 0;
  last_http_status = none;
  last_error = none;
  response_preview = none;
  dispatched_at = none;
  token_budget = pos 1;
  notes = some [];
  created_at = 90;
}

abbrev gateway_service : Service
gateway_service = record service { policies = record policy_item { mode = "single" } ∷ [] }

gateway_run :
    (create_gateway_call encode env record_adapter call none gateway_service service).1 ≡ none
unfolding create_gateway_call layeros.Runtime.Gateway.prepared_call
    layeros.Stores.Control.get_policy layeros.Types.Vocabulary.canonical_policy_mode record_adapter
    layeros.Runtime.Gateway.store_gateway_call layeros.Stores.Control.create_gateway_record
    layeros.Stores.Loop.create_checked layeros.Types.Control.validate_gateway_call
    layeros.Text.is_blank layeros.Types.Vocabulary.valid_gateway_status layeros.Runtime.finish
    layeros.Runtime.log append_event layeros.Types.Events.validate_event_envelope
    layeros.Runtime.new_system_event layeros.EventStore.new_event
    layeros.Types.Vocabulary.valid_surface layeros.Types.Vocabulary.valid_stage
    layeros.Types.Vocabulary.validate_map layeros.Json.validate_object
    layeros.Runtime.Gateway.gateway_event_data layeros.Runtime.Gateway.gateway_more
    layeros.Runtime.Gateway.gateway_sent layeros.Runtime.Gateway.gateway_failed
    layeros.Runtime.Gateway.gateway_room layeros.Persist.persist_locked
    layeros.Persist.persist_snapshot layeros.Persist.persist_flagged layeros.Persist.any_dirty
    layeros.Persist.persist_domains layeros.Persist.is_dirty encode layeros.Persist.synced
    layeros.Review.Sync.sync_audit_room layeros.Persist.save_all layeros.Persist.save
    layeros.EventStore.retain layeros.Stores.Company.default_company_state
gateway_run = refl

create_gateway_call-Dispatched_example :
    Dispatched record_adapter call none gateway_service service
      (create_gateway_call encode env record_adapter call none gateway_service service).0
create_gateway_call-Dispatched_example =
    create_gateway_call-Dispatched encode env record_adapter call none gateway_service service
      gateway_run

abbrev log_before : EventStore
log_before = record {
  items = envelope "E2" ∷ envelope "E3" ∷ [];
  pending_archive = envelope "E1" ∷ [];
  archived_count = 0;
  limit = 2;
}

abbrev log_after : EventStore
log_after = record {
  items = envelope "E3" ∷ envelope "E4" ∷ [];
  pending_archive = envelope "E1" ∷ envelope "E2" ∷ [];
  archived_count = 0;
  limit = 2;
}

append_run : append_event (envelope "E4") log_before ≡ ok log_after
unfolding append_event layeros.Types.Events.validate_event_envelope layeros.Text.is_blank
    layeros.Types.Vocabulary.valid_surface layeros.Types.Vocabulary.valid_stage
    layeros.Types.Vocabulary.validate_map layeros.Json.validate_object layeros.Json.texts
    layeros.EventStore.retain
append_run = refl

abbrev first_three : List EventEnvelope
first_three = envelope "E1" ∷ envelope "E2" ∷ envelope "E3" ∷ []

abbrev log_start : Log
log_start = record { store = log_before; old = log_before; archive = [] }

abbrev history_start : History
history_start = record { before = first_three; all = first_three }

held_now : Refines first_three [] log_before
unfolding event_list
held_now = record { left = []; parts = refl; counted = refl; in_archive = Sublistᴰ.slnil }

-- a method whose event was archived with the queue and that then failed
failed_method :
    Run log_start history_start
      (record log_start {
        store = restore_events 4 log_before;
        archive = envelope "E1" ∷ envelope "E2" ∷ [];
      })
      history_start
failed_method =
    next (next (next (next start begun) (appended (envelope "E4") append_run)) archive_written)
      (rolled_back 4)

Run-Refines_example :
    Refines first_three (envelope "E1" ∷ envelope "E2" ∷ []) (restore_events 4 log_before)
    × (count_events (restore_events 4 log_before) ≡ 3)
Run-Refines_example =
    Run-Refines log_start
      (record log_start {
        store = restore_events 4 log_before;
        archive = envelope "E1" ∷ envelope "E2" ∷ [];
      })
      history_start history_start (record { now = held_now; earlier = held_now }) failed_method

path_within_any_prefix_iff_example :
    (path_within_any_prefix "docs/a/../b.md" ("docs" ∷ []) ≡ true)
    ↔ BeneathSome (clean "docs/a/../b.md") ("docs" ∷ [])
path_within_any_prefix_iff_example = path_within_any_prefix_iff "docs/a/../b.md" ("docs" ∷ [])

abbrev disk : Repo
disk = record { root = "/repo"; exists = λ path. path == "/repo/docs/b.md"; quote = λ path. path }

abbrev job : AgentJob
job = record {
  job_id = "J1";
  branch_id = none;
  kind = "task";
  role = "implementer";
  summary = "Write it";
  status = "running";
  source = "operator";
  surface = "api";
  stage = "compose";
  ref = none;
  payload = some (field "allowed_paths" (array (text_items ("docs" ∷ []))) end);
  result = none;
  notes = some [];
  created_at = 90;
  updated_at = 90;
}

abbrev reported : Fields
reported = field "changed_paths" (array (text_items ("docs/b.md" ∷ []))) end

report_run :
    normalize_report_result disk job "succeeded" (some reported) "codex"
    ≡ ok (merged_report job "succeeded" (some reported) "codex")
unfolding normalize_report_result trim_space layeros.Json.get layeros.Json.put layeros.Json.put_all
    layeros.Json.clone_object text_items layeros.Types.Vocabulary.valid_agent_job_terminal_status
    layeros.Text.Parts.join layeros.Text.Parts.split
report_run = refl
