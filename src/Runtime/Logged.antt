-- ===== src/Runtime/Logged.antt =====
-- What a method of Service leaves when it answers no error.
pub mod Stored
pub mod Refined
use mathlib.Core.Path.{subst}
use layeros.Base.{String, ◌≡◌, refl, sym, ◌∙◌, none, some, Result, ok, err}
use layeros.Types.Events.{EventEnvelope}
use layeros.Env.{Env, Domain}
use layeros.EventStore.{EventStore, append_event}
use layeros.State.{Service, Saved}
use layeros.Persist.{Outcome, and_then, persist_locked}
use layeros.Persist.Kept.{Kept, persist_locked-Kept}
use layeros.Runtime.{checked, on_error, log, finish, put_events, no_more}

-- `w` has the stores of `t`, with `event` in its log.
pub record Logged (event : EventEnvelope) (t w : Service) : Type 0 where
  pub events : EventStore
  pub appended : append_event event t.events ≡ ok events
  pub kept : Kept (record t { events = events }) w

-- A stage that answered no error handed on what it left.
stage-none :
    (r : Outcome) (undo : Service → Service) (f : Service → Outcome)
    → (and_then (on_error r undo) f).1 ≡ none
    → (r.1 ≡ none) × ((f r.0).1 ≡ none) × ((and_then (on_error r undo) f).0 ≡ (f r.0).0)
stage-none (t, none) undo f h = (refl, h, refl)
stage-none (t, some e) undo f h = cc

on_error-none :
    (r : Outcome) (undo : Service → Service)
    → (on_error r undo).1 ≡ none
    → (on_error r undo).0 ≡ r.0
on_error-none (t, none) undo h = refl
on_error-none (t, some e) undo h = cc

on_error-passed : (r : Outcome) (undo : Service → Service) → (on_error r undo).1 ≡ none → r.1 ≡ none
on_error-passed (t, none) undo h = refl
on_error-passed (t, some e) undo h = cc

log-none :
    (event : EventEnvelope) (t : Service)
    → (log event t).1 ≡ none
    → (es : EventStore) × (append_event event t.events ≡ ok es)
      × ((log event t).0 ≡ record t { events = es })
unfolding log
log-none event t = go (append_event event t.events)
  where
    go :
        (r : Result EventStore)
        → (put_events t r).1 ≡ none
        → (es : EventStore) × (r ≡ ok es) × ((put_events t r).0 ≡ record t { events = es })
    go (ok es) h = (es, refl, refl)
    go (err e) h = cc

-- A further stage that answered no error handed on what it left.
and_then-none :
    (r : Outcome) (f : Service → Outcome)
    → (and_then r f).1 ≡ none
    → (r.1 ≡ none) × ((f r.0).1 ≡ none) × ((and_then r f).0 ≡ (f r.0).0)
and_then-none (t, none) f h = (refl, h, refl)
and_then-none (t, some e) f h = cc

module _ (encode : (d : Domain) → Saved d → String) (env : Env) (event : EventEnvelope)
    (more : Service → Outcome) (undo undo_all : Service → Service) (t : Service) where
  rest : Service → Outcome
  rest u = and_then (more u) (λ v. on_error (persist_locked encode env v) undo_all)

  rest-none :
      (u : Service)
      → (rest u).1 ≡ none
      → ((more u).1 ≡ none)
        × ((persist_locked encode env (more u).0).1 ≡ none)
        × ((rest u).0 ≡ (persist_locked encode env (more u).0).0)
  unfolding rest
  rest-none u h =
      let (done, saved, same) =
        and_then-none (more u) (λ v. on_error (persist_locked encode env v) undo_all) h in
      let wrote = persist_locked encode env (more u).0 in
      (done, on_error-passed wrote undo_all saved, same ∙ on_error-none wrote undo_all saved)

  -- what `w` is, where persistLocked ran on `u` behind the further steps and answered no error
  Ends : Service → Service → Type 0
  Ends u w =
      ((more u).1 ≡ none)
      × ((persist_locked encode env (more u).0).1 ≡ none)
      × (w ≡ (persist_locked encode env (more u).0).0)

  -- the event was appended, the rest was done, and persistLocked left what the method leaves
  pub finish-persisted :
      (finish encode env event more undo undo_all t).1 ≡ none
      → (es : EventStore) × (append_event event t.events ≡ ok es)
        × ((more (record t { events = es })).1 ≡ none)
        × ((persist_locked encode env (more (record t { events = es })).0).1 ≡ none)
        × ((finish encode env event more undo undo_all t).0
            ≡ (persist_locked encode env (more (record t { events = es })).0).0)
  unfolding finish rest Ends
  finish-persisted h =
      let (logged, later, same) = stage-none (log event t) undo rest h in
      let (es, appended, at) = log-none event t logged in
      let (done, saved, wrote) = rest-none (log event t).0 later in
      let (moved_done, moved_saved, moved_wrote) =
        subst (λ u. Ends u (finish encode env event more undo undo_all t).0) at
          (done, saved, same ∙ wrote) in
      (es, appended, moved_done, moved_saved, moved_wrote)

  -- the event was appended, the rest was done, and what was saved keeps the stores
  pub finish-none :
      (finish encode env event more undo undo_all t).1 ≡ none
      → (es : EventStore) × (append_event event t.events ≡ ok es)
        × ((more (record t { events = es })).1 ≡ none)
        × Kept (more (record t { events = es })).0 (finish encode env event more undo undo_all t).0
  finish-none h =
      let (es, appended, done, saved, wrote) = finish-persisted h in
      let u = (more (record t { events = es })).0 in
      (es, appended, done, subst (Kept u) (sym wrote) (persist_locked-Kept encode env u))

pub finish-Logged :
    (encode : (d : Domain) → Saved d → String) (env : Env) (event : EventEnvelope)
    (undo undo_all : Service → Service) (t : Service)
    → (finish encode env event no_more undo undo_all t).1 ≡ none
    → Logged event t (finish encode env event no_more undo undo_all t).0
finish-Logged encode env event undo undo_all t h =
    let (es, appended, done, kept) = finish-none encode env event no_more undo undo_all t h in
    record { events = es; appended = appended; kept = kept }

-- A guard that answered no error passed, and the method went on.
pub checked-none {ℓ} :
    {A : Type ℓ} (r : Result A) (s : Service) (k : A → Outcome)
    → (checked r s k).1 ≡ none
    → (a : A) × (r ≡ ok a) × ((k a).1 ≡ none) × ((checked r s k).0 ≡ (k a).0)
checked-none (ok a) s k h = (a, refl, h, refl)
checked-none (err e) s k h = cc

pub Logged-move :
    (event : EventEnvelope) (t t' w w' : Service)
    → t ≡ t'
    → w' ≡ w
    → Logged event t w
    → Logged event t' w'
Logged-move event t t' w w' p q h =
    subst (Logged event t') (sym q) (subst (λ x. Logged event x w) p h)
