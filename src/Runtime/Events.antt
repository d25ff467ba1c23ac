-- ===== src/Runtime/Events.antt =====
-- The events that the methods of Service make are valid, so that their append does not fail.
use layeros.Base.{String, true, false, ◌≡◌, refl, ◌∙◌, none, ok, arith}
use layeros.Text.{◌<>◌, is_blank}
use layeros.Text.Trim.{is_blank-append}
use layeros.Json.{Fields}
use layeros.Json.Check.{IsObject, validate_object_iff}
use layeros.Types.Vocabulary.{is_zero, valid_surface, valid_stage, validate_map}
use layeros.Types.Events.{EventEnvelope, validate_event_envelope}
use layeros.Env.{Env}
use layeros.EventStore.{append_event, new_event}
use layeros.State.{Service}
use layeros.Runtime.{log, service_event}

-- What an event takes from the run: an actor, and a clock that has left the zero time.
pub record Named (env : Env) : Type 0 where
  pub actor : is_blank env.actor ≡ false
  pub clock : is_zero env.event_at ≡ false

-- What it takes from the method.
pub record IsEvent (kind surface work_item_id stage : String) (data_of : Fields) : Type 0 where
  pub kind_given : is_blank kind ≡ false
  pub surface_valid : valid_surface surface ≡ true
  pub work_item_given : is_blank work_item_id ≡ false
  pub stage_valid : valid_stage stage ≡ true
  pub object : IsObject data_of

event_id-given :
    (work_item_id rest : String)
    → is_blank work_item_id ≡ false
    → is_blank (work_item_id <> rest) ≡ false
event_id-given w r h = is_blank-append w r ∙ ground (arith)

pub service_event-valid :
    (env : Env) (kind surface work_item_id stage : String) (data_of : Fields)
    → Named env
    → IsEvent kind surface work_item_id stage data_of
    → validate_event_envelope (service_event env kind surface work_item_id stage data_of) ≡ ok tt
unfolding validate_event_envelope new_event validate_map
service_event-valid env kind surface w stage d n h =
    rw
      (
        event_id-given w _ h.work_item_given,
        h.kind_given,
        n.actor,
        h.surface_valid,
        h.work_item_given,
        h.stage_valid,
        n.clock,
        (validate_object_iff d "event data").1 h.object,
      )
      refl

-- The append of a valid event answers no error.
pub log-valid :
    (event : EventEnvelope) (t : Service)
    → validate_event_envelope event ≡ ok tt
    → (log event t).1 ≡ none
unfolding log append_event
log-valid event t h = rw h refl
