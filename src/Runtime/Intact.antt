-- ===== src/Runtime/Intact.antt =====
-- An error leaves the stores in memory as they were: the rollback of the methods of Service.
pub mod Steps
pub mod Undone
use mathlib.Core.Path.{subst}
use layeros.Base.{ℕ, String, ◌≡◌, refl, sym, ap, ◌∙◌, none, some, Result, ok, err}
use layeros.Types.Events.{EventEnvelope}
use layeros.Env.{Env, Domain}
use layeros.EventStore.{EventStore, append_event, restore_events}
use layeros.State.{Service, Saved}
use layeros.Persist.{Outcome, and_then, persist_locked}
use layeros.Persist.Kept.{Kept, persist_locked-Kept, persist_locked-marks}
use layeros.Runtime.{checked, on_error, log, finish, put_events, no_more}

-- The events in memory, in order, and the number of those in the archive.
abbrev pub SameEvents : EventStore → EventStore → Type 0
SameEvents a b =
    (b.items ≡ a.items)
    × (b.pending_archive ≡ a.pending_archive)
    × (b.archived_count ≡ a.archived_count)

-- `t` holds what `s` held, but for the room, the files, and the log's limit.
pub record Intact (s t : Service) : Type 0 where
  pub stores : t ≡ record s { room = t.room; events = t.events; disk = t.disk }
  pub evidence : SameEvents s.events t.events

-- What stands between the change of a store and its rollback.
pub record Between (s t : Service) : Type 0 where
  pub same : t ≡ record s { room = t.room; events = t.events; disk = t.disk }

pub Intact-refl : (s : Service) → Intact s s
Intact-refl s = record { stores = refl; evidence = (refl, refl, refl) }

pub restore_events-same : (limit : ℕ) (e : EventStore) → SameEvents e (restore_events limit e)
unfolding restore_events
restore_events-same limit e = (refl, refl, refl)

-- an error of `log` has changed nothing
pub log-error :
    (event : EventEnvelope) (s : Service) (e : String)
    → (log event s).1 ≡ some e
    → (log event s).0 ≡ s
unfolding log
log-error event s e = put_events-error (append_event event s.events)
  where
    put_events-error :
        (r : Result EventStore) → (put_events s r).1 ≡ some e → (put_events s r).0 ≡ s
    put_events-error (ok x) h = cc
    put_events-error (err x) h = refl

pub log-Between : (event : EventEnvelope) (s : Service) → Between s (log event s).0
unfolding log
log-Between event s = put_events-Between (append_event event s.events)
  where
    put_events-Between : (r : Result EventStore) → Between s (put_events s r).0
    put_events-Between (ok x) = record { same = refl }
    put_events-Between (err x) = record { same = refl }

pub Between-trans : (s t u : Service) → Between s t → Between t u → Between s u
Between-trans s t u h k = record {
  same =
      k.same
      ∙ ap (λ (x : Service). record x { room = u.room; events = u.events; disk = u.disk }) h.same;
}

Kept-Between : (s t : Service) → Kept s t → t.persisted ≡ s.persisted → Between s t
Kept-Between s t h marks = record {
  same =
      h.same
      ∙ ap (λ m. record s { room = t.room; events = t.events; persisted = m; disk = t.disk }) marks;
}

-- What a rollback has to do: from anything that the stages leave, back to the stores of `s`.
abbrev pub Undoes : Service → Service → (Service → Service) → Type 0
Undoes s t undo = (v : Service) → Between t v → Intact s (undo v)

on_error-Intact :
    (s : Service) (r : Outcome) (undo : Service → Service) (e : String)
    → (r.1 ≡ some e → Intact s (undo r.0))
    → (on_error r undo).1 ≡ some e
    → Intact s (on_error r undo).0
on_error-Intact s (t, none) undo e h p = cc
on_error-Intact s (t, some x) undo e h p = h p

-- an error of a chain is that of its first stage, or of the rest after a first that succeeded
pub chain-Intact :
    (s : Service) (r : Outcome) (f : Service → Outcome) (e : String)
    → (r.1 ≡ some e → Intact s r.0)
    → (r.1 ≡ none → (f r.0).1 ≡ some e → Intact s (f r.0).0)
    → (and_then r f).1 ≡ some e
    → Intact s (and_then r f).0
chain-Intact s (t, none) f e first rest p = rest refl p
chain-Intact s (t, some x) f e first rest p = first p

pub on_error-Between :
    (t : Service) (r : Outcome) (undo : Service → Service)
    → Between t r.0
    → (on_error r undo).1 ≡ none
    → Between t (on_error r undo).0
on_error-Between t (v, none) undo h p = h
on_error-Between t (v, some e) undo h p = cc

pub no_more-Between : (u : Service) → Between u (no_more u).0
no_more-Between u = record { same = refl }

-- a further stage whose rollback is that of persistLocked
pub guarded-back :
    (s t : Service) (step : Service → Outcome) (undo_all : Service → Service) (e : String)
    → ((u : Service) → Between u (step u).0)
    → Undoes s t undo_all
    → (u : Service) → Between t u
    → (on_error (step u) undo_all).1 ≡ some e
    → Intact s (on_error (step u) undo_all).0
guarded-back s t step undo_all e gentle undoes u h =
    on_error-Intact s (step u) undo_all e
      (λ p. undoes (step u).0 (Between-trans t u (step u).0 h (gentle u)))

module _ (encode : (d : Domain) → Saved d → String) (env : Env) (s t : Service) where
  persist_stage :
      (undo : Service → Service) (v : Service) (e : String)
      → Undoes s t undo
      → Between t v
      → (on_error (persist_locked encode env v) undo).1 ≡ some e
      → Intact s (on_error (persist_locked encode env v) undo).0
  persist_stage undo v e undoes h = on_error-Intact s (persist_locked encode env v) undo e (λ p.
      undoes (persist_locked encode env v).0 (
        Between-trans t v (persist_locked encode env v).0 h (
          Kept-Between v (persist_locked encode env v).0 (persist_locked-Kept encode env v)
            (persist_locked-marks encode env v e p))))

  -- The rollbacks are enough for an error of any stage.
  pub finish-error :
      (event : EventEnvelope) (more : Service → Outcome) (undo undo_all : Service → Service)
      (e : String)
      → ((log event t).1 ≡ some e → Intact s (undo t))
      → ((u : Service) → Between t u → (more u).1 ≡ some e → Intact s (more u).0)
      → ((u : Service) → (more u).1 ≡ none → Between u (more u).0)
      → Undoes s t undo_all
      → (finish encode env event more undo undo_all t).1 ≡ some e
      → Intact s (finish encode env event more undo undo_all t).0
  unfolding finish
  finish-error event more undo undo_all e back more-back gentle undoes =
      chain-Intact s (on_error (log event t) undo) _ e
        (on_error-Intact s (log event t) undo e
          (λ p. subst (λ x. Intact s (undo x)) (sym (log-error event t e p)) (back p)))
        (λ logged.
          let u = (on_error (log event t) undo).0 in
          let h = on_error-Between t (log event t) undo (log-Between event t) logged in
          chain-Intact s (more u) _ e (more-back u h) (λ done.
            persist_stage undo_all (more u).0 e undoes
              (Between-trans t u (more u).0 h (gentle u done))))

  -- with a further step that changes the room and the log, and whose rollback is that of persistLocked
  pub finish_guarded-error :
      (event : EventEnvelope) (step : Service → Outcome) (undo undo_all : Service → Service)
      (e : String)
      → ((u : Service) → Between u (step u).0)
      → ((log event t).1 ≡ some e → Intact s (undo t))
      → Undoes s t undo_all
      → (finish encode env event (λ u. on_error (step u) undo_all) undo undo_all t).1 ≡ some e
      → Intact s (finish encode env event (λ u. on_error (step u) undo_all) undo undo_all t).0
  finish_guarded-error event step undo undo_all e gentle back undoes =
      finish-error event (λ u. on_error (step u) undo_all) undo undo_all e back
        (guarded-back s t step undo_all e gentle undoes)
        (λ u p. on_error-Between u (step u) undo_all (gentle u) p) undoes

  -- with nothing further to do
  pub finish_plain-error :
      (event : EventEnvelope) (undo undo_all : Service → Service) (e : String)
      → ((log event t).1 ≡ some e → Intact s (undo t))
      → Undoes s t undo_all
      → (finish encode env event no_more undo undo_all t).1 ≡ some e
      → Intact s (finish encode env event no_more undo undo_all t).0
  finish_plain-error event undo undo_all e back undoes =
      finish-error event no_more undo undo_all e back (λ u h p. cc) (λ u p. no_more-Between u)
        undoes

-- an error of a guard has changed nothing
pub checked-Intact {ℓ} :
    {A : Type ℓ} (s : Service) (r : Result A) (k : A → Outcome) (e : String)
    → ((a : A) → r ≡ ok a → (k a).1 ≡ some e → Intact s (k a).0)
    → (checked r s k).1 ≡ some e
    → Intact s (checked r s k).0
checked-Intact s (ok a) k e h p = h a refl p
checked-Intact s (err x) k e h p = Intact-refl s

pub chain-Between :
    (s : Service) (r : Outcome) (f : Service → Outcome)
    → Between s r.0
    → ((u : Service) → Between u (f u).0)
    → Between s (and_then r f).0
chain-Between s (t, none) f h k = Between-trans s t (f t).0 h (k t)
chain-Between s (t, some e) f h k = h

pub checked-Between {ℓ} :
    {A : Type ℓ} (s : Service) (r : Result A) (k : A → Outcome)
    → ((a : A) → Between s (k a).0)
    → Between s (checked r s k).0
checked-Between s (ok a) k h = h a
checked-Between s (err e) k h = record { same = refl }
