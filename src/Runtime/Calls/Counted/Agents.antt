-- ===== src/Runtime/Calls/Counted/Agents.antt =====
-- The methods on the review room and agent jobs keep the counts.
use layeros.Base.{String, ◌≡◌, none, List}
use layeros.Stores.Company.{
  update_work_items_active, update_approvals_pending, update_last_release_at, update_deploy_health,
}
use layeros.Env.{Env, Domain}
use layeros.State.{Service, Saved}
use layeros.Runtime.Outcomes.{checked-keeps}
use layeros.Runtime.Work.{ensure_active_branch}
use layeros.Types.Review.{validate_review_room_item}
use layeros.Review.Items.{normalize_item}
use layeros.Review.Room.{add_item, transition_structured}
use layeros.Stores.Jobs.{create_job, get_job, update_job}
use layeros.Runtime.Agenda.{add_structured, transition_room}
use layeros.Runtime.Jobs.{normalize_job, found_job, job_room, create_agent_job, update_agent_job}
use layeros.Runtime.Jobs.Rollback.{job_room-Between}
use layeros.Runtime.Calls.Counted.Kept.{Counted, plain, guarded}
use layeros.Types.Vocabulary.{Time}
use layeros.Types.Review.{ReviewRoomItem, ReviewRoomResolution}
use layeros.Types.Jobs.{AgentJob}
use layeros.Json.{Fields}
use layeros.Base.{Option}

module _ (encode : (d : Domain) → Saved d → String) (env : Env) (s : Service) (c : Counted s) where
  pub add_structured-Counted :
      (section : String) (raw : ReviewRoomItem)
      → (add_structured encode env section raw s).1 ≡ none
      → Counted (add_structured encode env section raw s).0
  unfolding add_structured update_work_items_active update_approvals_pending update_last_release_at
      update_deploy_health
  add_structured-Counted section raw =
      let item = normalize_item env.now raw in
      checked-keeps Counted s (validate_review_room_item item) _ (λ _.
        checked-keeps Counted s (add_item env section item s.room) _ (λ room.
          plain encode env (record s { room = room }) _ _ _
            (record { active = c.active; pending = c.pending })))

  pub transition_room-Counted :
      (format : Time → String) (action : String) (item : String)
      (resolution : Option ReviewRoomResolution)
      → (transition_room encode format env action item resolution s).1 ≡ none
      → Counted (transition_room encode format env action item resolution s).0
  unfolding transition_room update_work_items_active update_approvals_pending update_last_release_at
      update_deploy_health
  transition_room-Counted format action item resolution =
      checked-keeps Counted s (transition_structured env action item resolution s.room) _ (λ r.
        plain encode env (record s { room = r.0 }) _ _ _
          (record { active = c.active; pending = c.pending }))

  pub create_agent_job-Counted :
      (raw : AgentJob)
      → (create_agent_job encode env raw s).1 ≡ none
      → Counted (create_agent_job encode env raw s).0
  unfolding create_agent_job update_work_items_active update_approvals_pending
      update_last_release_at update_deploy_health
  create_agent_job-Counted raw =
      checked-keeps Counted s (ensure_active_branch raw.branch_id s.branches) _ (λ _.
        checked-keeps Counted s (create_job (normalize_job env.now raw) s.agent_jobs) _ (λ jobs.
          plain encode env (record s { agent_jobs = jobs }) _ _ _
            (record { active = c.active; pending = c.pending })))

  pub update_agent_job-Counted :
      (kind : String) (job_id : String) (status : String) (notes : Option (List String))
      (result : Option Fields)
      → (update_agent_job encode env kind job_id status notes result s).1 ≡ none
      → Counted (update_agent_job encode env kind job_id status notes result s).0
  unfolding update_agent_job update_work_items_active update_approvals_pending
      update_last_release_at update_deploy_health
  update_agent_job-Counted kind job_id status notes result =
      checked-keeps Counted s (found_job (get_job job_id s.agent_jobs)) _ (λ _.
        checked-keeps Counted s (update_job job_id status notes result env.now s.agent_jobs) _ (λ r.
          guarded encode env (record s { agent_jobs = r.1 }) _ (job_room env r.0) _ _
            (job_room-Between env r.0) (record { active = c.active; pending = c.pending })))
