-- ===== src/Runtime/Delivery.antt =====
-- internal/runtime/service_release.go: releases, deploys, rollbacks and their targets.
pub mod Rollback
pub mod Approved
pub mod Refined
use layeros.Base.{
  String, not, Option, some, none, List, [], ◌∷◌, Result, ok, err, ◌>>=◌, ◌>>◌, reject_if,
  if◌then◌else◌, ◌==◌, is_none,
}
use layeros.Text.{trim_space, is_blank}
use layeros.Json.{Fields, texts, end}
use layeros.Types.Vocabulary.{Time, items, no_time, has_none}
use layeros.Types.Delivery.{ApprovalItem, ReleasePacket, DeployRun, RollbackRun, DeployTarget}
use layeros.Stores.Delivery.{
  get_approval, create_release_packet, get_release, create_deploy_run, get_deploy,
  create_rollback_run, put_target,
}
use layeros.Stores.Branches.{or_text, or_time}
use layeros.Stores.Company.{CompanyState, update_last_release_at, update_deploy_health}
use layeros.Review.Suggest.{suggestion_for_deploy, suggestion_for_rollback}
use layeros.Env.{Env, Domain}
use layeros.State.{Service, Saved}
use layeros.Persist.{Outcome}
use layeros.Runtime.{
  checked, on_error, service_event, new_system_event, finish, no_more, restored_events,
}
use layeros.Runtime.Room.{auto_open_some, restored_room}

-- the loop over a release's approvals
approved_for : String → Option ApprovalItem → Result (Unit {0})
approved_for work_item_id none = err "release approval_ref not found"
approved_for work_item_id (some approval) = do
  reject_if (not (approval.status == "approved")) "release requires approved approval refs"
  reject_if (not (approval.work_item_id == work_item_id)) "release approval_ref work_item mismatch"

unfoldable pub check_refs : String → List ApprovalItem → List String → Result (Unit {0})
unfolding approved_for
check_refs work_item_id approvals [] = ok tt
check_refs work_item_id approvals (ref ∷ refs) =
    approved_for work_item_id (get_approval ref approvals) >> check_refs work_item_id approvals refs

-- `if t == nil || t.IsZero() { now := …; t = &now }`
abbrev pub some_time : Option Time → Time → Option Time
some_time t now = if no_time t then some now else t

abbrev pub or_map : Option Fields → Option Fields
or_map none = some end
or_map (some fs) = some fs

unfoldable pub filled_release : Time → ReleasePacket → ReleasePacket
filled_release now item = record item {
  released_at = some_time item.released_at now;
  artifacts = some (items item.artifacts);
  metrics = or_map item.metrics;
  approval_refs = some (items item.approval_refs);
}

unfoldable pub filled_deploy : Time → ReleasePacket → DeployRun → DeployRun
filled_deploy now release item = record item {
  target = or_text item.target release.target;
  status = or_text item.status "succeeded";
  notes = some (items item.notes);
  started_at = or_time item.started_at now;
  finished_at = some_time item.finished_at now;
}

unfoldable pub filled_rollback : Time → ReleasePacket → RollbackRun → RollbackRun
filled_rollback now release item = record item {
  target = or_text item.target release.target;
  status = or_text item.status "succeeded";
  notes = some (items item.notes);
  started_at = or_time item.started_at now;
  finished_at = some_time item.finished_at now;
}

unfoldable pub found_release : String → Option ReleasePacket → Result ReleasePacket
found_release missing none = err missing
found_release missing (some release) = ok release

unfoldable pub check_deploy_ref : Option String → List DeployRun → Result (Unit {0})
check_deploy_ref none deploys = ok tt
check_deploy_ref (some deploy_id) deploys =
    if is_blank deploy_id
    then ok tt
    else reject_if (is_none (get_deploy (trim_space deploy_id) deploys))
        "rollback deploy_id not found"

unfoldable pub rollback_health : String → CompanyState → CompanyState
rollback_health status company =
    if status == "succeeded"
    then update_deploy_health "succeeded" company
    else if status == "failed"
    then update_deploy_health "failed" company
    else company

abbrev pub undo_release : Service → Service → Service
undo_release old t = record t { releases = old.releases; company = old.company }

abbrev pub with_releases : ReleasePacket → List ReleasePacket → Service → Service
with_releases item releases s = record s {
  releases = releases;
  company = update_last_release_at item.released_at s.company;
}

abbrev pub undo_deploy : Service → Service → Service
undo_deploy old t = record t { deploys = old.deploys; company = old.company }

abbrev pub undo_rollback : Service → Service → Service
undo_rollback old t = record t { rollbacks = old.rollbacks; company = old.company }

module _ (encode : (d : Domain) → Saved d → String) where
  unfoldable pub create_release : Env → ReleasePacket → Service → Outcome
  create_release env raw s =
      let item = filled_release env.now raw in
      checked (reject_if (has_none item.approval_refs) "release approval_refs must not be empty") s
        (λ _. checked (check_refs item.work_item_id s.approvals (items item.approval_refs)) s (λ _.
          checked (create_release_packet item s.releases) s (λ releases.
            finish encode env
              (service_event env "release.created" "api" item.work_item_id "release"
                (texts (("target", item.target) ∷ ("channel", item.channel) ∷ [])))
              no_more (undo_release s) (λ t. restored_events env s (undo_release s t))
              (with_releases item releases s))))

  unfoldable pub create_deploy : Env → DeployRun → Service → Outcome
  create_deploy env raw s =
      checked (found_release "deploy release_id not found" (get_release raw.release_id s.releases))
        s
        (λ release.
          let item = filled_deploy env.now release raw in
          let undo_all =
            λ (t : Service). restored_room env s (restored_events env s (undo_deploy s t)) in
          checked (create_deploy_run item s.deploys) s (λ deploys.
            finish encode env
              (service_event env "deploy.created" "api" release.work_item_id "release"
                (texts (("target", item.target) ∷ ("status", item.status) ∷ [])))
              (λ u. on_error (auto_open_some env (suggestion_for_deploy env.now item) u) undo_all)
              (undo_deploy s) undo_all
              (record s {
                deploys = deploys;
                company = update_deploy_health item.status s.company;
              })))

  unfoldable pub create_rollback : Env → RollbackRun → Service → Outcome
  create_rollback env raw s =
      checked
        (found_release "rollback release_id not found" (get_release raw.release_id s.releases)) s
        (λ release. checked (check_deploy_ref raw.deploy_id s.deploys) s (λ _.
          let item = filled_rollback env.now release raw in
          let undo_all =
            λ (t : Service). restored_room env s (restored_events env s (undo_rollback s t)) in
          checked (create_rollback_run item s.rollbacks) s (λ rollbacks.
            finish encode env
              (service_event env "rollback.created" "api" release.work_item_id "release"
                (texts (("target", item.target) ∷ ("status", item.status) ∷ [])))
              (λ u. on_error (auto_open_some env (suggestion_for_rollback env.now item) u) undo_all)
              (undo_rollback s) undo_all
              (record s {
                rollbacks = rollbacks;
                company = rollback_health item.status s.company;
              }))))

  unfoldable pub put_deploy_target : Env → DeployTarget → Service → Outcome
  put_deploy_target env item s = checked (put_target item s.targets) s (λ targets.
      finish encode env
        (new_system_event env "target.updated" (texts (("target_id", item.target_id) ∷ []))) no_more
        (λ t. record t { targets = s.targets })
        (λ t. restored_events env s (record t { targets = s.targets }))
        (record s { targets = targets }))
