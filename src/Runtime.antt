-- ===== src/Runtime.antt =====
-- internal/runtime/service*.go: the steps that the methods of Service share.
-- A method's stages run on one service, and an error hands what it left to the rollback.
pub mod Intact
pub mod Logged
pub mod Outcomes
pub mod Calls
pub mod Room
pub mod Policy
pub mod Branch
pub mod Flow
pub mod Approval
pub mod Tokens
pub mod Verify
pub mod Gateway
pub mod Agenda
pub mod Jobs
pub mod Commands
pub mod Delivery
pub mod Events
pub mod Work
use layeros.Base.{String, none, some, Result, ok, err}
use layeros.Json.{Fields}
use layeros.Types.Events.{EventEnvelope}
use layeros.Env.{Env}
use layeros.EventStore.{EventStore, append_event, restore_events, new_event}
use layeros.State.{Service, Saved}
use layeros.Persist.{Outcome, and_then, persist_locked}
use layeros.Env.{Domain}

-- a guard, or a step on one store, before anything changed
abbrev pub checked {ℓ} : {A : Type ℓ} → Result A → Service → (A → Outcome) → Outcome
checked (ok a) s k = k a
checked (err e) s k = (s, some e)

abbrev pub on_error : Outcome → (Service → Service) → Outcome
on_error (t, none) undo = (t, none)
on_error (t, some e) undo = (undo t, some e)

abbrev pub put_events : Service → Result EventStore → Outcome
put_events s (ok events) = (record s { events = events }, none)
put_events s (err e) = (s, some e)

-- `s.event.append(event)`
unfoldable pub log : EventEnvelope → Service → Outcome
log event s = put_events s (append_event event s.events)

-- `newEvent(kind, s.currentActor(), …)`
abbrev pub service_event : Env → String → String → String → String → Fields → EventEnvelope
service_event env kind surface work_item_id stage event_data =
    new_event env.event_stamp env.event_at kind env.actor surface work_item_id stage event_data

unfoldable pub new_system_event : Env → String → Fields → EventEnvelope
new_system_event env kind event_data = service_event env kind "api" "system" "discover" event_data

-- `s.event = newEventStoreFromState(oldEventState)`
abbrev pub restored_events : Env → Service → Service → Service
restored_events env old t = record t { events = restore_events env.event_retention old.events }

-- The end of a method, from the change of its store on: the event, what else it does with
-- its own rollback, and persistLocked, with what the first and the last of them roll back.
module _ (encode : (d : Domain) → Saved d → String) where
  unfoldable pub finish :
      Env
      → EventEnvelope
      → (Service → Outcome)
      → (Service → Service)
      → (Service → Service)
      → Service
      → Outcome
  finish env event more undo undo_all t =
      and_then (on_error (log event t) undo)
        (λ u. and_then (more u) (λ v. on_error (persist_locked encode env v) undo_all))

-- a method that does nothing more
abbrev pub no_more : Service → Outcome
no_more s = (s, none)
