-- ===== src/Runtime/Delivery/Rollback.antt =====
-- An error of the methods on releases, deploys, rollbacks and targets leaves the stores as they were.
use layeros.Base.{refl, inl, inr, String, ◌≡◌, ap, some, List, reject_if}
use layeros.Types.Vocabulary.{has_none, items}
use layeros.Types.Delivery.{ReleasePacket, DeployRun, RollbackRun, DeployTarget}
use layeros.Stores.Delivery.{
  get_release, create_release_packet, create_deploy_run, create_rollback_run, put_target,
}
use layeros.Stores.Company.{CompanyState}
use layeros.Review.Suggest.{suggestion_for_deploy, suggestion_for_rollback}
use layeros.Env.{Env, Domain}
use layeros.State.{Service, Saved}
use layeros.Runtime.{restored_events}
use layeros.Runtime.Intact.{
  Intact, Intact-refl, checked-Intact, finish_plain-error, finish_guarded-error,
  restore_events-same, Undoes,
}
use layeros.Runtime.Intact.Undone.{SameRoom, checked-undone, finish_guarded-undone}
use layeros.Runtime.Room.{auto_open_some, restored_room}
use layeros.Runtime.Room.Opened.{auto_open_some-Between}
use layeros.Runtime.Delivery.{
  check_refs, filled_release, filled_deploy, filled_rollback, found_release, check_deploy_ref,
  undo_release, undo_deploy, undo_rollback, create_release, create_deploy, create_rollback,
  put_deploy_target,
}

module _ (encode : (d : Domain) → Saved d → String) (env : Env) (s : Service) (e : String) where
  -- An error of CreateRelease leaves every store in memory as it was.
  pub create_release-atomic :
      (item : ReleasePacket)
      → (create_release encode env item s).1 ≡ some e
      → Intact s (create_release encode env item s).0
  unfolding create_release
  create_release-atomic raw =
      let item = filled_release env.now raw in
      checked-Intact s
        (reject_if (has_none item.approval_refs) "release approval_refs must not be empty") _ e
        (λ _ _.
          checked-Intact s (check_refs item.work_item_id s.approvals (items item.approval_refs)) _ e
            (λ _ _. checked-Intact s (create_release_packet item s.releases) _ e (λ releases _.
              finish_plain-error encode env s _ _ (undo_release s) _ e (λ _. Intact-refl s)
                (λ v h. record {
                  stores = ap (λ t. restored_events env s (undo_release s t)) h.same;
                  evidence = restore_events-same env.event_retention s.events;
                }))))

  undo_deploy-Undoes :
      (deploys : List DeployRun) (company : CompanyState)
      → Undoes s
          (record s { deploys = deploys; company = company })
          (λ t. restored_room env s (restored_events env s (undo_deploy s t)))
  undo_deploy-Undoes deploys company v h = record {
    stores = ap (λ t. restored_room env s (restored_events env s (undo_deploy s t))) h.same;
    evidence = restore_events-same env.event_retention s.events;
  }

  -- An error of CreateDeploy leaves every store in memory as it was.
  pub create_deploy-atomic :
      (item : DeployRun)
      → (create_deploy encode env item s).1 ≡ some e
      → Intact s (create_deploy encode env item s).0
  unfolding create_deploy
  create_deploy-atomic raw =
      checked-Intact s
        (found_release "deploy release_id not found" (get_release raw.release_id s.releases)) _ e
        (λ release _.
          let item = filled_deploy env.now release raw in
          checked-Intact s (create_deploy_run item s.deploys) _ e (λ deploys _.
            finish_guarded-error encode env s _ _
              (auto_open_some env (suggestion_for_deploy env.now item)) (undo_deploy s) _ e
              (auto_open_some-Between env _) (λ _. Intact-refl s) (undo_deploy-Undoes deploys _)))

  undo_rollback-Undoes :
      (rollbacks : List RollbackRun) (company : CompanyState)
      → Undoes s
          (record s { rollbacks = rollbacks; company = company })
          (λ t. restored_room env s (restored_events env s (undo_rollback s t)))
  undo_rollback-Undoes rollbacks company v h = record {
    stores = ap (λ t. restored_room env s (restored_events env s (undo_rollback s t))) h.same;
    evidence = restore_events-same env.event_retention s.events;
  }

  -- An error of CreateRollback leaves every store in memory as it was.
  pub create_rollback-atomic :
      (item : RollbackRun)
      → (create_rollback encode env item s).1 ≡ some e
      → Intact s (create_rollback encode env item s).0
  unfolding create_rollback
  create_rollback-atomic raw =
      checked-Intact s
        (found_release "rollback release_id not found" (get_release raw.release_id s.releases)) _ e
        (λ release _. checked-Intact s (check_deploy_ref raw.deploy_id s.deploys) _ e (λ _ _.
          let item = filled_rollback env.now release raw in
          checked-Intact s (create_rollback_run item s.rollbacks) _ e (λ rollbacks _.
            finish_guarded-error encode env s _ _
              (auto_open_some env (suggestion_for_rollback env.now item)) (undo_rollback s) _ e
              (auto_open_some-Between env _) (λ _. Intact-refl s)
              (undo_rollback-Undoes rollbacks _))))

  -- An error of PutTarget leaves every store in memory as it was.
  pub put_deploy_target-atomic :
      (item : DeployTarget)
      → (put_deploy_target encode env item s).1 ≡ some e
      → Intact s (put_deploy_target encode env item s).0
  unfolding put_deploy_target
  put_deploy_target-atomic item = checked-Intact s (put_target item s.targets) _ e (λ targets _.
      finish_plain-error encode env s (record s { targets = targets }) _
        (λ t. record t { targets = s.targets }) _ e (λ _. Intact-refl s)
        (λ v h. record {
          stores = ap (λ t. restored_events env s (record t { targets = s.targets })) h.same;
          evidence = restore_events-same env.event_retention s.events;
        }))

  -- An error of CreateDeploy leaves the room as it was, or its copy.
  pub create_deploy-SameRoom :
      (item : DeployRun)
      → (create_deploy encode env item s).1 ≡ some e
      → SameRoom env s (create_deploy encode env item s).0
  unfolding create_deploy
  create_deploy-SameRoom raw =
      checked-undone (SameRoom env s)
        (found_release "deploy release_id not found" (get_release raw.release_id s.releases)) s _ e
        (inl refl)
        (λ release _.
          let item = filled_deploy env.now release raw in
          checked-undone (SameRoom env s) (create_deploy_run item s.deploys) s _ e (inl refl)
            (λ deploys _.
              finish_guarded-undone encode env (SameRoom env s) _
                (auto_open_some env (suggestion_for_deploy env.now item)) (undo_deploy s) _ _ e
                (inl refl) (λ v. inr refl)))

  -- An error of CreateRollback leaves the room as it was, or its copy.
  pub create_rollback-SameRoom :
      (item : RollbackRun)
      → (create_rollback encode env item s).1 ≡ some e
      → SameRoom env s (create_rollback encode env item s).0
  unfolding create_rollback
  create_rollback-SameRoom raw =
      checked-undone (SameRoom env s)
        (found_release "rollback release_id not found" (get_release raw.release_id s.releases)) s _
        e (inl refl)
        (λ release _.
          checked-undone (SameRoom env s) (check_deploy_ref raw.deploy_id s.deploys) s _ e
            (inl refl)
            (λ _ _.
              let item = filled_rollback env.now release raw in
              checked-undone (SameRoom env s) (create_rollback_run item s.rollbacks) s _ e
                (inl refl)
                (λ rollbacks _.
                  finish_guarded-undone encode env (SameRoom env s) _
                    (auto_open_some env (suggestion_for_rollback env.now item)) (undo_rollback s) _
                    _ e (inl refl) (λ v. inr refl))))
