-- ===== src/Examples.antt =====
-- The theorems on persistence and the methods, on concrete runs.
use layeros.Base.{false, String, ◌≡◌, ◌↔◌, ◌⊎◌, refl, some, none, ok, List, [], ◌∷◌}
use layeros.Text.{is_blank}
use layeros.Json.{Fields, field, array, cons, nil, text, end, validate_object, get, put}
use layeros.Types.Vocabulary.{is_zero}
use layeros.Types.Control.{ExecuteRun, FlowRun}
use layeros.Types.Vocabulary.{valid_flow_status}
use layeros.Types.Work.{Branch}
use layeros.Persist.{signature}
use layeros.Persist.Partial.{persist_snapshot-files}
use layeros.EventStore.{
  dedupe_events, split_retained, load_events, EventStore, append_event, event_list, count_events,
  mark_archive_persisted,
}
use layeros.Env.{Env, work}
use layeros.Persist.{persist_snapshot}
use layeros.Persist.Success.{Done, persist_snapshot-success}
use layeros.Stores.Company.{default_company_state}
use layeros.State.{Service}
use layeros.Runtime.Events.{Named}
use layeros.Runtime.Intact.{Intact}
use layeros.Runtime.Delivery.{create_release, filled_release}
use layeros.Runtime.Delivery.Approved.{Released, release_event, create_release-Released}
use layeros.Runtime.Delivery.Refined.{create_release-After}
use layeros.Runtime.Logged.Refined.{After}
use layeros.EventStore.History.{Refines}
use mathlib.Core.List.{Sublistᴰ}
use layeros.Runtime.Policy.{decide_policy, run_execute, planned}
use layeros.Runtime.Policy.Decide.{decide_policy-hold}
use layeros.Runtime.Policy.Run.{Allowed, run_execute-Allowed}
use layeros.Runtime.Calls.{
  run, run_all, Call, create_work_item_call, create_approval_call, resolve_approval_call,
}
use layeros.Runtime.Calls.Atomic.{run-atomic}
use layeros.Runtime.Calls.Counted.{Counted, run_all-Counted}
use layeros.Samples.{encode, env, env_full, service, item, packet, approved_item}

saved_run : (persist_snapshot encode env service).1 ≡ none
unfolding persist_snapshot layeros.Persist.persist_flagged layeros.Persist.any_dirty
    layeros.Persist.persist_domains layeros.Persist.is_dirty encode layeros.Persist.save_all
    layeros.Persist.save layeros.Stores.Company.default_company_state
saved_run = refl

persist_snapshot-success_example : Done encode (persist_snapshot encode env service).0 work
persist_snapshot-success_example =
    persist_snapshot-success encode env service (λ _. refl) saved_run work

env_ok : Named env
unfolding is_blank
env_ok = record { actor = refl; clock = refl }

env_full_ok : Named env_full
env_full_ok = record { actor = env_ok.actor; clock = env_ok.clock }

work_run : (run encode (create_work_item_call item) env_full service).1 ≡ some "disk full"
unfolding run layeros.Runtime.Work.create_work_item layeros.Runtime.Work.ensure_active_branch
    layeros.Stores.Work.create_work layeros.Stores.Loop.create_checked
    layeros.Types.Work.validate_work_item is_blank layeros.Types.Vocabulary.valid_stage
    layeros.Types.Vocabulary.valid_surface layeros.Types.Vocabulary.validate_map validate_object
    layeros.Json.texts layeros.Runtime.finish layeros.Runtime.log append_event
    layeros.Types.Events.validate_event_envelope layeros.EventStore.new_event
    layeros.Persist.persist_locked persist_snapshot layeros.Persist.persist_flagged
    layeros.Persist.any_dirty layeros.Persist.persist_domains layeros.Persist.is_dirty encode
    layeros.Persist.synced layeros.Review.Sync.sync_audit_room layeros.Persist.save_all
    layeros.Persist.save
work_run = refl

run-atomic_example : Intact service (run encode (create_work_item_call item) env_full service).0
run-atomic_example =
    run-atomic encode (create_work_item_call item) env_full service "disk full" env_full_ok work_run

release_run : (create_release encode env packet service).1 ≡ none
unfolding create_release filled_release layeros.Runtime.Delivery.check_refs
    layeros.Stores.Delivery.get_approval layeros.Stores.Delivery.create_release_packet
    layeros.Stores.Loop.create_checked layeros.Types.Delivery.validate_release_packet is_blank
    layeros.Types.Vocabulary.validate_map validate_object layeros.Runtime.finish layeros.Runtime.log
    append_event layeros.Types.Events.validate_event_envelope layeros.EventStore.new_event
    layeros.Types.Vocabulary.valid_surface layeros.Types.Vocabulary.valid_stage layeros.Json.texts
    layeros.Persist.persist_locked persist_snapshot layeros.Persist.persist_flagged
    layeros.Persist.any_dirty layeros.Persist.persist_domains layeros.Persist.is_dirty encode
    layeros.Persist.synced layeros.Review.Sync.sync_audit_room layeros.Persist.save_all
    layeros.Persist.save layeros.EventStore.retain layeros.Stores.Company.update_last_release_at
    layeros.Stores.Company.default_company_state
release_run = refl

create_release-Released_example :
    Released encode env
      (filled_release env.now packet)
      service
      (create_release encode env packet service).0
create_release-Released_example =
    create_release-Released encode env packet service (λ d. refl) release_run

nothing_logged : Refines [] [] service.events
unfolding layeros.EventStore.event_list
nothing_logged = record { left = []; parts = refl; counted = refl; in_archive = Sublistᴰ.slnil }

create_release-After_example :
    After []
      (release_event env_full (filled_release env.now packet))
      (create_release encode env_full packet service)
create_release-After_example = create_release-After encode env_full packet service [] nothing_logged

abbrev executed : ExecuteRun
executed = record {
  execute_id = "X1";
  work_item_id = "W1";
  policy_decision_id = "P1";
  mode = "local";
  status = "succeeded";
  notes = some ("local execution completed inside the kernel" ∷ []);
  started_at = 100;
  finished_at = some 100;
}

execute_run : (run_execute encode env "X1" "W1" "P1" none service).1 ≡ ok executed
unfolding run_execute layeros.Stores.Work.get_work layeros.Stores.Control.get_policy
    layeros.Runtime.Policy.create_execute layeros.Stores.Control.create_execute_run
    layeros.Stores.Loop.create_checked layeros.Types.Control.validate_execute_run is_blank
    layeros.Stores.Control.normalize_execute_run layeros.Types.Vocabulary.valid_policy_mode
    layeros.Types.Vocabulary.valid_execute_status layeros.Runtime.finish layeros.Runtime.log
    append_event layeros.Types.Events.validate_event_envelope layeros.Runtime.new_system_event
    layeros.EventStore.new_event layeros.Types.Vocabulary.valid_surface
    layeros.Types.Vocabulary.valid_stage layeros.Types.Vocabulary.validate_map validate_object
    layeros.Json.texts layeros.Runtime.Room.auto_open_some
    layeros.Review.Suggest.suggestion_for_execute layeros.Persist.persist_locked persist_snapshot
    layeros.Persist.persist_flagged layeros.Persist.any_dirty layeros.Persist.persist_domains
    layeros.Persist.is_dirty encode layeros.Persist.synced layeros.Review.Sync.sync_audit_room
    layeros.Persist.save_all layeros.Persist.save layeros.EventStore.retain default_company_state
execute_run = refl

run_execute-Allowed_example : Allowed "W1" "P1" service executed
run_execute-Allowed_example =
    run_execute-Allowed encode env "X1" "W1" "P1" none service executed execute_run

abbrev Same : String → String → Type 0
Same a b = a ≡ b

decide_policy-hold_example :
    let (mode, decision, reasons) = decide_policy "ship" "high" "low" "tiny" false in
    ((decision ≡ "hold") ↔ (mode ≡ "blocked"))
    × ((mode ≡ "blocked") ↔ (Same "tiny" "tiny" × (Same "high" "high" ⊎ Same "low" "high")))
decide_policy-hold_example = decide_policy-hold "ship" "high" "low" "tiny" false

abbrev calls : List (Call × Env)
calls =
    (create_work_item_call item, env)
    ∷ (create_approval_call approved_item, env)
    ∷ (create_work_item_call item, env_full)
    ∷ (resolve_approval_call "A1" "rejected", env)
    ∷ []

-- a state whose counts are those of the stores
abbrev counted_service : Service
counted_service = record service {
  company = record default_company_state { work_items_active = 1 };
}

counted : Counted counted_service
unfolding layeros.Stores.Work.count_work layeros.Stores.Delivery.count_approvals
    default_company_state
counted = record { active = refl; pending = refl }

run_all-Counted_example : Counted (run_all encode calls counted_service)
run_all-Counted_example =
    run_all-Counted encode calls counted_service (env_ok, (env_ok, (env_full_ok, (env_ok, tt))))
      counted

persist_snapshot-files_example :
    ((persist_snapshot encode env_full service).0.disk.file work ≡ service.disk.file work)
    ⊎ ((persist_snapshot encode env_full service).0.disk.file work ≡ signature encode work service)
persist_snapshot-files_example = persist_snapshot-files encode env_full service work
