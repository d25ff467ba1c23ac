-- ===== src/Runtime/Policy/Rollback.antt =====
-- An error of the methods on policies and executions leaves the stores as they were.
use layeros.Base.{String, ◌≡◌, ap, some, List}
use layeros.Types.Control.{PolicyDecision, ExecuteRun}
use layeros.Stores.Control.{create_policy_decision, create_execute_run}
use layeros.Review.Suggest.{suggestion_for_execute}
use layeros.Env.{Env, Domain}
use layeros.State.{Service, Saved}
use layeros.Runtime.{restored_events}
use layeros.Runtime.Intact.{
  Intact, Intact-refl, checked-Intact, finish_plain-error, finish_guarded-error,
  restore_events-same, Undoes,
}
use layeros.Runtime.Room.{auto_open_some, restored_room}
use layeros.Runtime.Room.Opened.{auto_open_some-Between}
use layeros.Runtime.Policy.{create_policy, create_execute}

module _ (encode : (d : Domain) → Saved d → String) (env : Env) (s : Service) (e : String) where
  undo_policy-Undoes :
      (policies : List PolicyDecision)
      → Undoes s
          (record s { policies = policies })
          (λ t. restored_events env s (record t { policies = s.policies }))
  undo_policy-Undoes policies v h = record {
    stores = ap (λ t. restored_events env s (record t { policies = s.policies })) h.same;
    evidence = restore_events-same env.event_retention s.events;
  }

  -- An error of CreatePolicy leaves every store in memory as it was.
  pub create_policy-atomic :
      (item : PolicyDecision)
      → (create_policy encode env item s).1 ≡ some e
      → Intact s (create_policy encode env item s).0
  unfolding create_policy
  create_policy-atomic item =
      checked-Intact s (create_policy_decision item s.policies) _ e (λ policies _.
        finish_plain-error encode env s (record s { policies = policies }) _
          (λ t. record t { policies = s.policies }) _ e (λ _. Intact-refl s)
          (undo_policy-Undoes policies))

  undo_execute-Undoes :
      (executes : List ExecuteRun)
      → Undoes s
          (record s { executes = executes })
          (λ t. restored_room env s (restored_events env s (record t { executes = s.executes })))
  undo_execute-Undoes executes v h = record {
    stores =
        ap (λ t. restored_room env s (restored_events env s (record t { executes = s.executes })))
          h.same;
    evidence = restore_events-same env.event_retention s.events;
  }

  -- An error of CreateExecute leaves every store in memory as it was.
  pub create_execute-atomic :
      (item : ExecuteRun)
      → (create_execute encode env item s).1 ≡ some e
      → Intact s (create_execute encode env item s).0
  unfolding create_execute
  create_execute-atomic item =
      checked-Intact s (create_execute_run item s.executes) _ e (λ executes _.
        finish_guarded-error encode env s (record s { executes = executes }) _
          (auto_open_some env (suggestion_for_execute env.now item))
          (λ t. record t { executes = s.executes }) _ e (auto_open_some-Between env _)
          (λ _. Intact-refl s) (undo_execute-Undoes executes))
