-- ===== src/Runtime/Calls/Counted/Delivery.antt =====
-- The methods on releases, deploys, policies, executions, verifications and gateway calls keep the counts.
use layeros.Base.{String, reject_if, ◌≡◌, ◌∙◌, none}
use layeros.Stores.Company.{
  update_work_items_active, update_approvals_pending, update_last_release_at, update_deploy_health,
}
use layeros.Env.{Env, Domain}
use layeros.State.{Service, Saved}
use layeros.Runtime.Outcomes.{finish-Stores, checked-keeps}
use layeros.Runtime.Room.Opened.{auto_open_some-Between}
use layeros.Types.Vocabulary.{has_none, items}
use layeros.Stores.Delivery.{
  create_release_packet, get_release, create_deploy_run, create_rollback_run, put_target,
}
use layeros.Stores.Control.{
  create_policy_decision, create_execute_run, create_preflight_record, create_verification_record,
  create_gateway_record,
}
use layeros.Review.Suggest.{suggestion_for_deploy, suggestion_for_rollback, suggestion_for_execute}
use layeros.Runtime.Room.{auto_open_some}
use layeros.Runtime.Delivery
use layeros.Runtime.Delivery.{
  create_release, create_deploy, create_rollback, put_deploy_target, rollback_health,
  filled_release, with_releases, found_release, filled_deploy, check_deploy_ref, filled_rollback,
}
use layeros.Runtime.Policy.{create_policy, create_execute}
use layeros.Runtime.Verify.{create_preflight, create_verification, verification_room}
use layeros.Runtime.Verify.Rollback.{verification_room-Between}
use layeros.Runtime.Gateway.{prepared_call, gateway_more, store_gateway_call, create_gateway_call}
use layeros.Runtime.Gateway.Rollback.{gateway_more-Between}
use layeros.Runtime.Calls.Counted.Kept.{Counted, rollback_health-counts, from_same, plain, guarded}
use layeros.Types.Delivery.{ReleasePacket, DeployRun, RollbackRun, DeployTarget}
use layeros.Types.Control.{
  PolicyDecision, ExecuteRun, PreflightRecord, VerificationRecord, GatewayCall,
}
use layeros.Json.{Fields}
use layeros.Runtime.Gateway.{Adapter}
use layeros.Base.{Option}

module _ (encode : (d : Domain) → Saved d → String) (env : Env) (s : Service) (c : Counted s) where
  pub create_release-Counted :
      (raw : ReleasePacket)
      → (create_release encode env raw s).1 ≡ none
      → Counted (create_release encode env raw s).0
  unfolding create_release update_work_items_active update_approvals_pending update_last_release_at
      update_deploy_health
  create_release-Counted raw =
      let item = filled_release env.now raw in
      checked-keeps Counted s
        (reject_if (has_none item.approval_refs) "release approval_refs must not be empty") _
        (λ _.
          checked-keeps Counted s
            (Delivery.check_refs item.work_item_id s.approvals (items item.approval_refs)) _
            (λ _. checked-keeps Counted s (create_release_packet item s.releases) _ (λ releases.
              plain encode env (with_releases item releases s) _ _ _
                (record { active = c.active; pending = c.pending }))))

  pub create_deploy-Counted :
      (raw : DeployRun)
      → (create_deploy encode env raw s).1 ≡ none
      → Counted (create_deploy encode env raw s).0
  unfolding create_deploy update_work_items_active update_approvals_pending update_last_release_at
      update_deploy_health
  create_deploy-Counted raw =
      checked-keeps Counted s
        (found_release "deploy release_id not found" (get_release raw.release_id s.releases)) _
        (λ release.
          let item = filled_deploy env.now release raw in
          checked-keeps Counted s (create_deploy_run item s.deploys) _ (λ deploys.
            guarded encode env
              (record s { deploys = deploys; company = update_deploy_health item.status s.company })
              _ (auto_open_some env (suggestion_for_deploy env.now item)) _ _
              (auto_open_some-Between env _) (record { active = c.active; pending = c.pending })))

  pub create_rollback-Counted :
      (raw : RollbackRun)
      → (create_rollback encode env raw s).1 ≡ none
      → Counted (create_rollback encode env raw s).0
  unfolding create_rollback update_work_items_active update_approvals_pending update_last_release_at
      update_deploy_health
  create_rollback-Counted raw =
      checked-keeps Counted s
        (found_release "rollback release_id not found" (get_release raw.release_id s.releases)) _
        (λ release. checked-keeps Counted s (check_deploy_ref raw.deploy_id s.deploys) _ (λ _.
          let item = filled_rollback env.now release raw in
          let (active, pending) = rollback_health-counts item.status s.company in
          checked-keeps Counted s (create_rollback_run item s.rollbacks) _ (λ rollbacks.
            guarded encode env
              (record s { rollbacks = rollbacks; company = rollback_health item.status s.company })
              _ (auto_open_some env (suggestion_for_rollback env.now item)) _ _
              (auto_open_some-Between env _)
              (record { active = active ∙ c.active; pending = pending ∙ c.pending }))))

  pub put_deploy_target-Counted :
      (item : DeployTarget)
      → (put_deploy_target encode env item s).1 ≡ none
      → Counted (put_deploy_target encode env item s).0
  unfolding put_deploy_target update_work_items_active update_approvals_pending
      update_last_release_at update_deploy_health
  put_deploy_target-Counted item = checked-keeps Counted s (put_target item s.targets) _ (λ targets.
      plain encode env (record s { targets = targets }) _ _ _
        (record { active = c.active; pending = c.pending }))

  pub create_policy-Counted :
      (item : PolicyDecision)
      → (create_policy encode env item s).1 ≡ none
      → Counted (create_policy encode env item s).0
  unfolding create_policy update_work_items_active update_approvals_pending update_last_release_at
      update_deploy_health
  create_policy-Counted item =
      checked-keeps Counted s (create_policy_decision item s.policies) _ (λ policies.
        plain encode env (record s { policies = policies }) _ _ _
          (record { active = c.active; pending = c.pending }))

  pub create_execute-Counted :
      (item : ExecuteRun)
      → (create_execute encode env item s).1 ≡ none
      → Counted (create_execute encode env item s).0
  unfolding create_execute update_work_items_active update_approvals_pending update_last_release_at
      update_deploy_health
  create_execute-Counted item =
      checked-keeps Counted s (create_execute_run item s.executes) _ (λ executes.
        guarded encode env (record s { executes = executes }) _
          (auto_open_some env (suggestion_for_execute env.now item)) _ _
          (auto_open_some-Between env _) (record { active = c.active; pending = c.pending }))

  pub create_preflight-Counted :
      (models : String) (model : String) (item : PreflightRecord)
      → (create_preflight encode env models model item s).1 ≡ none
      → Counted (create_preflight encode env models model item s).0
  unfolding create_preflight update_work_items_active update_approvals_pending
      update_last_release_at update_deploy_health
  create_preflight-Counted models model item =
      checked-keeps Counted s (create_preflight_record _ s.preflights) _ (λ preflights.
        plain encode env (record s { preflights = preflights }) _ _ _
          (record { active = c.active; pending = c.pending }))

  pub create_verification-Counted :
      (item : VerificationRecord)
      → (create_verification encode env item s).1 ≡ none
      → Counted (create_verification encode env item s).0
  unfolding create_verification update_work_items_active update_approvals_pending
      update_last_release_at update_deploy_health
  create_verification-Counted item =
      checked-keeps Counted s (create_verification_record item s.verifications) _ (λ verifications.
        guarded encode env (record s { verifications = verifications }) _
          (verification_room env item) _ _ (verification_room-Between env item)
          (record { active = c.active; pending = c.pending }))

  pub create_gateway_call-Counted :
      (adapter : Adapter) (item : GatewayCall) (payload : Option Fields) (before : Service)
      → (create_gateway_call encode env adapter item payload before s).1 ≡ none
      → Counted (create_gateway_call encode env adapter item payload before s).0
  unfolding create_gateway_call store_gateway_call update_work_items_active update_approvals_pending
      update_last_release_at update_deploy_health
  create_gateway_call-Counted adapter item payload before =
      checked-keeps Counted s (prepared_call adapter item payload before.policies) _ (λ prepared.
        checked-keeps Counted s (create_gateway_record prepared s.gateway_calls) _ (λ calls h.
          let t : Service = record s { gateway_calls = calls } in
          from_same t _ (record { active = c.active; pending = c.pending })
            (finish-Stores encode env t _ (gateway_more env prepared s) _ _
              (gateway_more-Between env prepared s) h)))
