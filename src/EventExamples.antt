-- ===== src/EventExamples.antt =====
-- The theorems on the log of events and on JSON values, on concrete logs and values.
use layeros.Base.{◌≡◌, ◌↔◌, ◌⊎◌, inr, refl, ok, [], ◌∷◌, ℕ, ◌≤◌, ◌+◌, ◌++◌, length, arith}
use layeros.Text.{is_blank, trim_space}
use layeros.Json.{Fields, field, array, cons, nil, text, end, validate_object, get, put}
use layeros.Json.Check.{IsObject, validate_object_iff}
use layeros.Types.Vocabulary.{is_zero}
use layeros.Types.Vocabulary.{valid_flow_status}
use layeros.EventStore.Reload.{Distinct, split_retained_parts, load_events-save}
use layeros.EventStore.{
  split_retained, load_events, EventStore, append_event, event_list, count_events,
  mark_archive_persisted,
}
use layeros.EventStore.Retention.{event_list-append, append_event_bounded, count_events-append}
use layeros.Samples.{envelope}

abbrev events : EventStore
events = record {
  items = envelope "E2" ∷ envelope "E3" ∷ [];
  pending_archive = envelope "E1" ∷ [];
  archived_count = 4;
  limit = 2;
}

abbrev events_after : EventStore
events_after = record {
  items = envelope "E3" ∷ envelope "E4" ∷ [];
  pending_archive = envelope "E1" ∷ envelope "E2" ∷ [];
  archived_count = 4;
  limit = 2;
}

append_run : append_event (envelope "E4") events ≡ ok events_after
unfolding append_event layeros.Types.Events.validate_event_envelope is_blank
    layeros.Types.Vocabulary.valid_surface layeros.Types.Vocabulary.valid_stage
    layeros.Types.Vocabulary.validate_map validate_object layeros.Json.texts
    layeros.EventStore.retain
append_run = refl

event_list-append_example : event_list events_after ≡ event_list events ++ envelope "E4" ∷ []
event_list-append_example = event_list-append (envelope "E4") events append_run

append_event_bounded_example : (length events_after.items ≤ 2) × (events_after.limit ≡ 2)
append_event_bounded_example = append_event_bounded (envelope "E4") events append_run (omega arith)

count_events-append_example :
    (count_events events_after ≡ count_events events + 1)
    × (count_events (mark_archive_persisted events_after) ≡ count_events events + 1)
    × (event_list (mark_archive_persisted events_after) ≡ events_after.items)
count_events-append_example = count_events-append (envelope "E4") events append_run

abbrev fields : Fields
fields = field "a" (array (cons (text "x") nil)) end

validate_object_iff_example : (validate_object fields "payload" ≡ ok tt) ↔ IsObject fields
validate_object_iff_example = validate_object_iff fields "payload"

split_retained_parts_example :
    let l = envelope "E1" ∷ envelope "E2" ∷ envelope "E3" ∷ [] in
    let limit : ℕ = 2 in
    let (recent, archive) = split_retained l limit in
    (archive ++ recent ≡ l) × ((limit ≡ 0) ⊎ (length recent ≤ limit))
split_retained_parts_example =
    split_retained_parts (envelope "E1" ∷ envelope "E2" ∷ envelope "E3" ∷ []) 2

abbrev saved_events : EventStore
saved_events = record {
  items = envelope "E2" ∷ envelope "E3" ∷ [];
  pending_archive = [];
  archived_count = 4;
  limit = 2;
}

saved_events-Distinct : Distinct [] saved_events.items
unfolding is_blank layeros.Text.seen
saved_events-Distinct =
    Distinct.named (envelope "E2") refl refl (Distinct.named (envelope "E3") refl refl Distinct.end)

load_events-save_example : load_events saved_events.items 4 2 ≡ saved_events
load_events-save_example =
    load_events-save saved_events saved_events-Distinct (inr (omega arith)) refl
