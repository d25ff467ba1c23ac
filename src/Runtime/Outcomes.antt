-- ===== src/Runtime/Outcomes.antt =====
-- A method of Service either changes its own stores as it means to, or none.
use mathlib.Core.Path.{subst}
use layeros.Base.{String, ◌≡◌, refl, sym, ap, ◌∙◌, none, Result, ok, err}
use layeros.Types.Events.{EventEnvelope}
use layeros.Env.{Env, Domain}
use layeros.State.{Service, Saved}
use layeros.Persist.{Outcome}
use layeros.Persist.Kept.{Kept}
use layeros.Runtime.{checked, on_error, finish, no_more}
use layeros.Runtime.Intact.{Between, on_error-Between}
use layeros.Runtime.Logged.{finish-none}

-- `w` has the stores of `t`.
pub record Stores (t w : Service) : Type 0 where
  pub same :
      w ≡ record t { room = w.room; events = w.events; persisted = w.persisted; disk = w.disk }

-- between equal services
pub Stores-move : (t t' w w' : Service) → t ≡ t' → w' ≡ w → Stores t w → Stores t' w'
Stores-move t t' w w' p q h = subst (Stores t') (sym q) (subst (λ x. Stores x w) p h)

Between-Kept-Stores : (t u v w : Service) → Stores t u → Between u v → Kept v w → Stores t w
Between-Kept-Stores t u v w h b k = record {
  same =
      k.same
      ∙ ap
          (λ (x : Service). record x {
            room = w.room;
            events = w.events;
            persisted = w.persisted;
            disk = w.disk;
          })
          (b.same
            ∙ ap (λ (x : Service). record x { room = v.room; events = v.events; disk = v.disk })
                h.same);
}

module _ (encode : (d : Domain) → Saved d → String) (env : Env) (t : Service) where
  pub finish-Stores :
      (event : EventEnvelope) (more : Service → Outcome) (undo undo_all : Service → Service)
      → ((u : Service) → (more u).1 ≡ none → Between u (more u).0)
      → (finish encode env event more undo undo_all t).1 ≡ none
      → Stores t (finish encode env event more undo undo_all t).0
  finish-Stores event more undo undo_all gentle h =
      let (es, appended, more_done, kept) = finish-none encode env event more undo undo_all t h in
      let u : Service = record t { events = es } in
      Between-Kept-Stores t u (more u).0 (finish encode env event more undo undo_all t).0
        (record { same = refl }) (gentle u more_done) kept

  pub finish_plain-Stores :
      (event : EventEnvelope) (undo undo_all : Service → Service)
      → (finish encode env event no_more undo undo_all t).1 ≡ none
      → Stores t (finish encode env event no_more undo undo_all t).0
  finish_plain-Stores event undo undo_all =
      finish-Stores event no_more undo undo_all (λ u _. record { same = refl })

  pub finish_guarded-Stores :
      (event : EventEnvelope) (step : Service → Outcome) (undo undo_all : Service → Service)
      → ((u : Service) → Between u (step u).0)
      → (finish encode env event (λ u. on_error (step u) undo_all) undo undo_all t).1 ≡ none
      → Stores t (finish encode env event (λ u. on_error (step u) undo_all) undo undo_all t).0
  finish_guarded-Stores event step undo undo_all gentle =
      finish-Stores event (λ u. on_error (step u) undo_all) undo undo_all
        (λ u p. on_error-Between u (step u) undo_all (gentle u) p)

-- A method whose guards pass keeps what the rest of it keeps.
pub checked-keeps {ℓ κ} :
    {A : Type ℓ} (P : Service → Type κ) (s : Service) (r : Result A) (k : A → Outcome)
    → ((a : A) → (k a).1 ≡ none → P (k a).0)
    → (checked r s k).1 ≡ none
    → P (checked r s k).0
checked-keeps P s (ok a) k h p = h a p
checked-keeps P s (err e) k h p = cc
