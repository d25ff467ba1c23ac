-- ===== src/Runtime/Commands/Deployed.antt =====
-- What ExecuteDeploy and ExecuteRollback leave, whatever their command answers.
use mathlib.Core.Path.{subst}
use layeros.Base.{String, ◌≡◌, ◌⊎◌, refl, Option, some, none, List, ok, inl, ok_inj, ap}
use layeros.Types.Delivery.{ReleasePacket, DeployRun, RollbackRun, DeployTarget}
use layeros.Stores.Delivery.{get_release, get_target}
use layeros.Env.{Env, Domain}
use layeros.State.{Service, Saved}
use layeros.Runtime.Delivery.{create_deploy, create_rollback}
use layeros.Runtime.Delivery.Rollback.{
  create_deploy-atomic, create_rollback-atomic, create_deploy-SameRoom, create_rollback-SameRoom,
}
use layeros.Runtime.Commands.{
  with_target, Command, Answer, target_of, deploy_run, rollback_run, execute_deploy,
  execute_rollback,
}
use layeros.Runtime.Commands.Answered.{
  Refused, Recorded, answered-cases, refuse-Refused, with_plan-cases, stored-or,
}

with_target-ok :
    (r : ReleasePacket) (o : Option DeployTarget) (release : ReleasePacket) (target : DeployTarget)
    → with_target r o ≡ ok (release, target)
    → (r ≡ release) × (o ≡ some target)
with_target-ok r none release target h = cc
with_target-ok r (some x) release target h = (
  ap (λ (p : ReleasePacket × DeployTarget). p.0) (ok_inj h),
  ap (λ (p : ReleasePacket × DeployTarget). some p.1) (ok_inj h),
)

target_of-ok :
    (missing : String) (o : Option ReleasePacket) (targets : List DeployTarget)
    (release : ReleasePacket) (target : DeployTarget)
    → target_of missing o targets ≡ ok (release, target)
    → (o ≡ some release) × (get_target release.target targets ≡ some target)
unfolding target_of
target_of-ok missing none targets release target h = cc
target_of-ok missing (some r) targets release target h =
    let both = with_target-ok r (get_target r.target targets) release target h in
    (
      ap some both.0,
      subst (λ (x : ReleasePacket). get_target x.target targets ≡ some target) both.0 both.1,
    )

-- a deploy was stored after its command ran on the release's target
pub record Deployed (encode : (d : Domain) → Saved d → String) (env : Env)
    (adapter : Command DeployTarget) (release_id : String) (s t : Service)
    (run : Service × Answer DeployRun) : Type 0 where
  pub release : ReleasePacket
  pub target : DeployTarget
  pub release_found : get_release release_id s.releases ≡ some release
  pub target_found : get_target release.target s.targets ≡ some target
  pub item : DeployRun
  pub same_release : (item.release_id ≡ release_id) × (item.target ≡ release.target)
  pub recorded :
      Recorded item item.status "succeeded"
        (adapter.run target).error
        (create_deploy encode env item t)
        run

-- Whatever the command of ExecuteDeploy answers and other methods did while it ran, either the method
-- answers an error and no deploy and leaves every store in memory as it was, the review room as it was
-- or as its copy normalized again, with the files and the limit of the log left open, or the release
-- and its target were found, the deploy is stored as CreateDeploy stores it, its status is succeeded
-- exactly where the method answers no error, and it is what the method answers beside the command's
-- error.
pub execute_deploy-Answered :
    (encode : (d : Domain) → Saved d → String) (env : Env) (adapter : Command DeployTarget)
    (deploy_id release_id : String) (base_notes : Option (List String)) (s t : Service)
    → let run = execute_deploy encode env adapter deploy_id release_id base_notes s t in
      Refused env t run ⊎ Deployed encode env adapter release_id s t run
unfolding execute_deploy deploy_run
execute_deploy-Answered encode env adapter deploy_id release_id base_notes s t =
    with_plan-cases (λ run. Refused env t run ⊎ Deployed encode env adapter release_id s t run)
      (target_of "deploy release_id not found" (get_release release_id s.releases) s.targets) t _
      (λ e. inl (refuse-Refused env e t))
      (λ (release, target) found.
        let (release_found, target_found) =
          target_of-ok "deploy release_id not found" (get_release release_id s.releases) s.targets
            release target found in
        let ran = adapter.run target in
        let item = deploy_run env adapter deploy_id release_id base_notes release ran in
        stored-or
          (answered-cases env item "succeeded" ran.error t (create_deploy encode env item t) refl
            (λ e. create_deploy-atomic encode env t e item)
            (λ e. create_deploy-SameRoom encode env t e item))
          (λ recorded. record {
            release = release;
            target = target;
            release_found = release_found;
            target_found = target_found;
            item = item;
            same_release = (refl, refl);
            recorded = recorded;
          }))

-- a rollback was stored after its command ran on the release's target
pub record RolledBack (encode : (d : Domain) → Saved d → String) (env : Env)
    (adapter : Command DeployTarget) (release_id : String) (s t : Service)
    (run : Service × Answer RollbackRun) : Type 0 where
  pub release : ReleasePacket
  pub target : DeployTarget
  pub release_found : get_release release_id s.releases ≡ some release
  pub target_found : get_target release.target s.targets ≡ some target
  pub item : RollbackRun
  pub same_release : (item.release_id ≡ release_id) × (item.target ≡ release.target)
  pub recorded :
      Recorded item item.status "succeeded"
        (adapter.run target).error
        (create_rollback encode env item t)
        run

-- Whatever the command of ExecuteRollback answers and other methods did while it ran, either the
-- method answers an error and no rollback and leaves every store in memory as it was, the review room
-- as it was or as its copy normalized again, with the files and the limit of the log left open, or the
-- release and its target were found, the rollback is stored as CreateRollback stores it, its status is
-- succeeded exactly where the method answers no error, and it is what the method answers beside the
-- command's error.
pub execute_rollback-Answered :
    (encode : (d : Domain) → Saved d → String) (env : Env) (adapter : Command DeployTarget)
    (rollback_id release_id deploy_id : String) (base_notes : Option (List String)) (s t : Service)
    → let run =
        execute_rollback encode env adapter rollback_id release_id deploy_id base_notes s t in
      Refused env t run ⊎ RolledBack encode env adapter release_id s t run
unfolding execute_rollback rollback_run
execute_rollback-Answered encode env adapter rollback_id release_id deploy_id base_notes s t =
    with_plan-cases (λ run. Refused env t run ⊎ RolledBack encode env adapter release_id s t run)
      (target_of "rollback release_id not found" (get_release release_id s.releases) s.targets) t _
      (λ e. inl (refuse-Refused env e t))
      (λ (release, target) found.
        let (release_found, target_found) =
          target_of-ok "rollback release_id not found" (get_release release_id s.releases) s.targets
            release target found in
        let ran = adapter.run target in
        let item =
          rollback_run env adapter rollback_id release_id deploy_id base_notes release ran in
        stored-or
          (answered-cases env item "succeeded" ran.error t (create_rollback encode env item t) refl
            (λ e. create_rollback-atomic encode env t e item)
            (λ e. create_rollback-SameRoom encode env t e item))
          (λ recorded. record {
            release = release;
            target = target;
            release_found = release_found;
            target_found = target_found;
            item = item;
            same_release = (refl, refl);
            recorded = recorded;
          }))
