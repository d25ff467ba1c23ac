-- ===== src/Runtime/Calls/Counted/Kept.antt =====
-- What keeps the counts of the state, and the ends of a method that do.
use mathlib.Core.Path.{subst}
use layeros.Base.{String, ◌≡◌, refl, sym, inl, inr, none, Bool-cases, ◌==◌}
use layeros.Types.Events.{EventEnvelope}
use layeros.Stores.Work.{count_work}
use layeros.Stores.Delivery.{count_approvals}
use layeros.Stores.Company.{CompanyState, update_deploy_health}
use layeros.Env.{Env, Domain}
use layeros.State.{Service, Saved}
use layeros.Persist.{Outcome}
use layeros.Runtime.{finish, no_more, on_error}
use layeros.Runtime.Intact.{Between}
use layeros.Runtime.Outcomes.{Stores, finish_plain-Stores, finish_guarded-Stores}
use layeros.Runtime.Delivery.{rollback_health}

-- The state's counts are those of the stores.
pub record Counted (s : Service) : Type 0 where
  pub active : s.company.work_items_active ≡ count_work s.work_items
  pub pending : s.company.approvals_pending ≡ count_approvals s.approvals

pub rollback_health-counts :
    (status : String) (c : CompanyState)
    → ((rollback_health status c).work_items_active ≡ c.work_items_active)
      × ((rollback_health status c).approvals_pending ≡ c.approvals_pending)
unfolding rollback_health update_deploy_health
rollback_health-counts status c = elim (Bool-cases (status == "succeeded")) [
  | inl p ↦ rw p (refl, refl)
  | inr p ↦ elim (Bool-cases (status == "failed")) [
    | inl q ↦ rw (p, q) (refl, refl)
    | inr q ↦ rw (p, q) (refl, refl)
  ]
]

pub from_same : (t w : Service) → Counted t → Stores t w → Counted w
from_same t w h k = subst Counted (sym k.same) (record { active = h.active; pending = h.pending })

module _ (encode : (d : Domain) → Saved d → String) (env : Env) where
  pub plain :
      (t : Service) (event : EventEnvelope) (undo undo_all : Service → Service)
      → Counted t
      → (finish encode env event no_more undo undo_all t).1 ≡ none
      → Counted (finish encode env event no_more undo undo_all t).0
  plain t event undo undo_all h p =
      from_same t _ h (finish_plain-Stores encode env t event undo undo_all p)

  pub guarded :
      (t : Service) (event : EventEnvelope) (step : Service → Outcome)
      (undo undo_all : Service → Service)
      → ((u : Service) → Between u (step u).0)
      → Counted t
      → (finish encode env event (λ u. on_error (step u) undo_all) undo undo_all t).1 ≡ none
      → Counted (finish encode env event (λ u. on_error (step u) undo_all) undo undo_all t).0
  guarded t event step undo undo_all gentle h p =
      from_same t _ h (finish_guarded-Stores encode env t event step undo undo_all gentle p)
