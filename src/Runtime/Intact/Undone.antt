-- ===== src/Runtime/Intact/Undone.antt =====
-- What an error leaves is what one of a method's two rollbacks gives.
use mathlib.Core.Path.{subst}
use layeros.Base.{String, ◌≡◌, refl, sym, ◌⊎◌, none, some, Result, ok, err}
use layeros.Review.Room.{normalize_room, copy_room}
use layeros.Types.Events.{EventEnvelope}
use layeros.Env.{Env, Domain}
use layeros.State.{Service, Saved}
use layeros.Persist.{Outcome, and_then, persist_locked}
use layeros.Runtime.{checked, on_error, finish, log, no_more}
use layeros.Runtime.Intact.{log-error}

pub on_error-undone :
    (P : Service → Type 0) (r : Outcome) (undo : Service → Service) (e : String)
    → (r.1 ≡ some e → P (undo r.0))
    → (on_error r undo).1 ≡ some e
    → P (on_error r undo).0
on_error-undone P (t, none) undo e k h = cc
on_error-undone P (t, some x) undo e k h = k h

and_then-undone :
    (P : Service → Type 0) (r : Outcome) (f : Service → Outcome) (e : String)
    → (r.1 ≡ some e → P r.0)
    → ((u : Service) → (f u).1 ≡ some e → P (f u).0)
    → (and_then r f).1 ≡ some e
    → P (and_then r f).0
and_then-undone P (t, none) f e h k p = k t p
and_then-undone P (t, some x) f e h k p = h p

pub checked-undone :
    {A : Type 0} (P : Service → Type 0) (r : Result A) (s : Service) (k : A → Outcome) (e : String)
    → P s
    → ((a : A) → r ≡ ok a → (k a).1 ≡ some e → P (k a).0)
    → (checked r s k).1 ≡ some e
    → P (checked r s k).0
checked-undone P (ok a) s k e start h p = h a refl p
checked-undone P (err x) s k e start h p = start

module _ (encode : (d : Domain) → Saved d → String) (env : Env) (P : Service → Type 0) where
  -- a method whose further stage rolls back what persistLocked rolls back
  pub finish_guarded-undone :
      (event : EventEnvelope) (step : Service → Outcome) (undo undo_all : Service → Service)
      (t : Service) (e : String)
      → P (undo t)
      → ((v : Service) → P (undo_all v))
      → (finish encode env event (λ u. on_error (step u) undo_all) undo undo_all t).1 ≡ some e
      → P (finish encode env event (λ u. on_error (step u) undo_all) undo undo_all t).0
  unfolding finish
  finish_guarded-undone event step undo undo_all t e first rest =
      and_then-undone P (on_error (log event t) undo) _ e
        (on_error-undone P (log event t) undo e
          (λ p. subst (λ x. P (undo x)) (sym (log-error event t e p)) first))
        (λ u.
          and_then-undone P (on_error (step u) undo_all) _ e
            (on_error-undone P (step u) undo_all e (λ _. rest _))
            (λ v. on_error-undone P (persist_locked encode env v) undo_all e (λ _. rest _)))

  pub finish-undone :
      (event : EventEnvelope) (undo undo_all : Service → Service) (t : Service) (e : String)
      → P (undo t)
      → ((v : Service) → P (undo_all v))
      → (finish encode env event no_more undo undo_all t).1 ≡ some e
      → P (finish encode env event no_more undo undo_all t).0
  unfolding finish
  finish-undone event undo undo_all t e first rest =
      and_then-undone P (on_error (log event t) undo) _ e
        (on_error-undone P (log event t) undo e
          (λ p. subst (λ x. P (undo x)) (sym (log-error event t e p)) first))
        (λ u. on_error-undone P (persist_locked encode env u) undo_all e (λ _. rest _))

-- the room as it was, or its copy, which its items' normalization alone tells apart from it
abbrev pub SameRoom : Env → Service → Service → Type 0
SameRoom env s t = (t.room ≡ s.room) ⊎ (t.room ≡ normalize_room env.now (copy_room env.now s.room))
