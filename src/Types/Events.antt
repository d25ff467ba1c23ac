-- ===== src/Types/Events.antt =====
-- internal/runtime/types.go, event.go: events, memory and the inputs of a session.
use layeros.Base.{String, not, Option, List, Result, ok, ◌>>◌, reject_if, is_none}
use layeros.Text.{is_blank}
use layeros.Json.{Fields}
use layeros.Types.Vocabulary.{Time, is_zero, validate_map, valid_stage, valid_surface}

pub record SystemMemory : Type 0 where
  pub current_focus : String
  pub current_goal : Option String
  pub next_steps : Option (List String)
  pub open_risks : Option (List String)
  pub handoff_note : Option String
  pub last_operator : Option String
  pub updated_at : Time

unfoldable pub validate_system_memory : SystemMemory → Result (Unit {0})
validate_system_memory m = do
  reject_if (is_blank m.current_focus) "system memory current_focus is required"
  reject_if (is_none m.next_steps) "system memory next_steps is required"
  reject_if (is_none m.open_risks) "system memory open_risks is required"
  reject_if (is_zero m.updated_at) "system memory updated_at is required"
  ok tt

pub record EventCreateInput : Type 0 where
  pub kind : String
  pub surface : String
  pub work_item_id : String
  pub stage : String
  pub event_data : Option Fields

unfoldable pub validate_event_create_input : EventCreateInput → Result (Unit {0})
validate_event_create_input e = do
  reject_if (is_blank e.kind) "event create input kind is required"
  reject_if (not (valid_surface e.surface)) "event create input surface is invalid"
  reject_if (is_blank e.work_item_id) "event create input work_item_id is required"
  reject_if (not (valid_stage e.stage)) "event create input stage is invalid"
  reject_if (is_none e.event_data) "event create input data is required"
  validate_map e.event_data "event create input data"
  ok tt

pub record SessionFinishInput : Type 0 where
  pub current_focus : String
  pub current_goal : Option String
  pub next_steps : Option (List String)
  pub open_risks : Option (List String)
  pub handoff_note : Option String
  pub note : Option String

unfoldable pub validate_session_finish_input : SessionFinishInput → Result (Unit {0})
validate_session_finish_input i = do
  reject_if (is_blank i.current_focus) "session finish current_focus is required"
  reject_if (is_none i.next_steps) "session finish next_steps is required"
  reject_if (is_none i.open_risks) "session finish open_risks is required"
  ok tt

pub record EventEnvelope : Type 0 where
  pub event_id : String
  pub kind : String
  pub actor : String
  pub surface : String
  pub work_item_id : String
  pub stage : String
  pub timestamp : Time
  pub event_data : Option Fields

unfoldable pub validate_event_envelope : EventEnvelope → Result (Unit {0})
validate_event_envelope e = do
  reject_if (is_blank e.event_id) "event_id is required"
  reject_if (is_blank e.kind) "event kind is required"
  reject_if (is_blank e.actor) "event actor is required"
  reject_if (not (valid_surface e.surface)) "event surface is invalid"
  reject_if (is_blank e.work_item_id) "event work_item_id is required"
  reject_if (not (valid_stage e.stage)) "event stage is invalid"
  reject_if (is_zero e.timestamp) "event timestamp is required"
  reject_if (is_none e.event_data) "event data is required"
  validate_map e.event_data "event data"
  ok tt
