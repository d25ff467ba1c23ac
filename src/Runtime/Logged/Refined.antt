-- ===== src/Runtime/Logged/Refined.antt =====
-- The end of a method as steps of the log's history.
use layeros.Base.{
  String, ◌≡◌, refl, sym, Option, none, some, List, [], ◌∷◌, ◌++◌, Result, ok, err, length,
}
use mathlib.Core.Path.{subst}
use layeros.Types.Events.{EventEnvelope}
use layeros.Env.{Env, Domain}
use layeros.EventStore.{EventStore, append_event, restore_events, count_events}
use layeros.EventStore.History.{
  History, appended, rolled_back, Run, start, next, Run-trans, Run-Refines, Refines, count-Refines,
}
use layeros.State.{Service, Saved}
use layeros.Persist.{Outcome, and_then, persist_locked}
use layeros.Persist.Archive.{log_of, persist_locked-Run}
use layeros.Runtime.{checked, on_error, log, put_events, finish, no_more}

-- the history that a method leaves: with its event where it answers no error
abbrev pub history_after : List EventEnvelope → EventEnvelope → Option String → History
history_after before event none = record { before = before; all = before ++ event ∷ [] }
history_after before event (some e) = record { before = before; all = before }

-- a method's steps of the log, from its beginning to what it leaves
abbrev pub Steps : List EventEnvelope → EventEnvelope → Service → Outcome → Type 0
Steps before event t r =
    Run (log_of t.events t) (record { before = before; all = before }) (log_of t.events r.0)
      (history_after before event r.1)

-- a rollback that leaves the log, and one that puts back the state of the beginning
abbrev pub KeepsLog : (Service → Service) → Type 0
KeepsLog undo = (v : Service) → (old : EventStore) → log_of old (undo v) ≡ log_of old v

abbrev pub RestoresLog : Env → EventStore → (Service → Service) → Type 0
RestoresLog env old undo =
    (v : Service)
    → log_of old (undo v) ≡ record {
      store = restore_events env.event_retention old;
      old = old;
      archive = v.disk.archive;
    }

module _ (encode : (d : Domain) → Saved d → String) (env : Env) (event : EventEnvelope)
    (undo undo_all : Service → Service) (t : Service) (before : List EventEnvelope) where
  saved-Steps :
      (r : Outcome)
      → RestoresLog env t.events undo_all
      → Run
          (log_of t.events t)
          (record { before = before; all = before })
          (log_of t.events r.0)
          (record { before = before; all = before ++ event ∷ [] })
      → Steps before event t (on_error r undo_all)
  saved-Steps (v, none) restores run = run
  saved-Steps (v, some e) restores run =
      subst
        (λ l.
          Run (log_of t.events t) (record { before = before; all = before }) l
            (record { before = before; all = before }))
        (sym (restores v)) (next run (rolled_back env.event_retention))

  logged-Steps :
      (r : Result EventStore)
      → append_event event t.events ≡ r
      → KeepsLog undo
      → RestoresLog env t.events undo_all
      → Steps before event t (
          and_then
            (on_error (put_events t r) undo)
            (λ u. on_error (persist_locked encode env u) undo_all))
  logged-Steps (ok es) h keeps restores =
      let u : Service = record t { events = es } in
      saved-Steps (persist_locked encode env u) restores (
        Run-trans (next start (appended event h)) (
          persist_locked-Run encode env t.events
            (record { before = before; all = before ++ event ∷ [] }) u))
  logged-Steps (err e) h keeps restores =
      subst
        (λ l.
          Run (log_of t.events t) (record { before = before; all = before }) l
            (record { before = before; all = before }))
        (sym (keeps t t.events)) start

  pub finish-Steps :
      KeepsLog undo
      → RestoresLog env t.events undo_all
      → Steps before event t (finish encode env event no_more undo undo_all t)
  unfolding finish log
  finish-Steps = logged-Steps (append_event event t.events) refl

-- the log and the archive that an outcome leaves stand for the history, and for its event without an error
abbrev pub After : List EventEnvelope → EventEnvelope → Outcome → Type 0
After before event r =
    Refines (history_after before event r.1).all r.0.disk.archive r.0.events
    × (count_events r.0.events ≡ length (history_after before event r.1).all)

pub Steps-After :
    (before : List EventEnvelope) (event : EventEnvelope) (t : Service) (r : Outcome)
    → Refines before t.disk.archive t.events
    → Steps before event t r
    → After before event r
Steps-After before event t r held run =
    Run-Refines (log_of t.events t) (log_of t.events r.0) (record { before = before; all = before })
      (history_after before event r.1) (record { now = held; earlier = held }) run

-- an error of a guard leaves the history
pub checked-After :
    {A : Type 0} (before : List EventEnvelope) (event : EventEnvelope) (r : Result A) (s : Service)
    (k : A → Outcome)
    → Refines before s.disk.archive s.events
    → ((a : A) → r ≡ ok a → After before event (k a))
    → After before event (checked r s k)
checked-After before event (ok a) s k held rest = rest a refl
checked-After before event (err e) s k held rest =
    (held, count-Refines before s.disk.archive s.events held)
