-- ===== src/Runtime/Jobs/Rollback.antt =====
-- An error of the methods on agent jobs leaves the stores as they were.
use layeros.Base.{
  arith, >>=-eq-ok, String, Bool, false, not, ◌≡◌, refl, ap, Option, none, some, List, ok, no_error,
  ◌==◌,
}
use layeros.Text.{is_blank}
use layeros.Json.{Fields}
use layeros.Json.Check.{texts-IsObject}
use layeros.Types.Jobs.{AgentJob, validate_agent_job}
use layeros.Types.Review.{ReviewRoomItem, ReviewRoom}
use layeros.Stores.Jobs.{create_job, get_job, update_job}
use layeros.Review.Suggest.{suggestion_for_job}
use layeros.Env.{Env, Domain}
use layeros.State.{Service, Saved}
use layeros.Runtime.{restored_events}
use layeros.Runtime.Events.{Named, IsEvent, service_event-valid, log-valid}
use layeros.Runtime.Intact.{
  Intact, Intact-refl, Between, checked-Intact, checked-Between, finish_plain-error,
  finish_guarded-error, restore_events-same, Undoes,
}
use layeros.Runtime.Room.{keep_room, restored_room}
use layeros.Runtime.Work.{ensure_active_branch}
use layeros.Runtime.Intact.Steps.{if-Between, if_step-Between, Between-refl}
use layeros.Runtime.Room.Opened.{keep_room-Between}
use layeros.Runtime.Jobs.{
  normalize_job, job_fields, job_created, found_job, ensured, resolved_room, job_suggested,
  job_room, create_agent_job, update_agent_job,
}

ensured-Between : (env : Env) (s : Service) (r : ReviewRoom × Bool) → Between s (ensured env s r).0
unfolding ensured
ensured-Between env s (room, changed) =
    if-Between changed s (keep_room env room s) s (keep_room-Between env room s) (Between-refl s)

resolved_room-Between :
    (env : Env) (s : Service) (r : ReviewRoom × Option ReviewRoomItem)
    → Between s (resolved_room env s r).0
unfolding resolved_room
resolved_room-Between env s (room, none) = Between-refl s
resolved_room-Between env s (room, some _) = keep_room-Between env room s

job_suggested-Between :
    (env : Env) (job : AgentJob) (s : Service) (o : Option ReviewRoomItem)
    → Between s (job_suggested env job s o).0
unfolding job_suggested
job_suggested-Between env job s (some suggestion) =
    checked-Between s _ (ensured env s) (ensured-Between env s)
job_suggested-Between env job s none =
    if_step-Between (not (job.status == "failed")) s _
      (checked-Between s _ (resolved_room env s) (resolved_room-Between env s))

pub job_room-Between : (env : Env) (job : AgentJob) (s : Service) → Between s (job_room env job s).0
unfolding job_room
job_room-Between env job s = job_suggested-Between env job s (suggestion_for_job env.now job)

job_created-given : is_blank "agent_job.created" ≡ false
unfolding is_blank
job_created-given = refl

keys_given :
    (is_blank "kind" ≡ false)
    × ((is_blank "role" ≡ false)
        × ((is_blank "status" ≡ false) × ((is_blank "summary" ≡ false) × Unit {0})))
unfolding is_blank
keys_given = (refl, (refl, (refl, (refl, tt))))

create_job-valid :
    (item : AgentJob) (jobs : List AgentJob) {made : List AgentJob}
    → create_job item jobs ≡ ok made
    → validate_agent_job item ≡ ok tt
unfolding create_job
create_job-valid item jobs h = let (u, valid, _) = >>=-eq-ok (validate_agent_job item) _ h in valid

-- what the check of a job says of the event on it
job_created-IsEvent :
    (item : AgentJob)
    → validate_agent_job item ≡ ok tt
    → IsEvent "agent_job.created" item.surface item.job_id item.stage (job_fields item)
unfolding validate_agent_job
job_created-IsEvent item h = record {
  kind_given = job_created-given;
  surface_valid = ground (arith, h);
  work_item_given = ground (arith, h);
  stage_valid = ground (arith, h);
  object = texts-IsObject _ keys_given;
}

module _ (encode : (d : Domain) → Saved d → String) (env : Env) (s : Service) (e : String) where
  undo_job-Undoes :
      (jobs : List AgentJob)
      → Undoes s
          (record s { agent_jobs = jobs })
          (λ t. restored_events env s (record t { agent_jobs = s.agent_jobs }))
  undo_job-Undoes jobs v h = record {
    stores = ap (λ t. restored_events env s (record t { agent_jobs = s.agent_jobs })) h.same;
    evidence = restore_events-same env.event_retention s.events;
  }

  undo_job_room-Undoes :
      (jobs : List AgentJob)
      → Undoes s
          (record s { agent_jobs = jobs })
          (λ t.
            restored_events env s (restored_room env s (record t { agent_jobs = s.agent_jobs })))
  undo_job_room-Undoes jobs v h = record {
    stores =
        ap
          (λ t.
            restored_events env s (restored_room env s (record t { agent_jobs = s.agent_jobs })))
          h.same;
    evidence = restore_events-same env.event_retention s.events;
  }

  -- An error of UpdateAgentJob, and of the update of a report, leaves every store as it was.
  pub update_agent_job-atomic :
      (kind job_id status : String) (notes : Option (List String)) (result : Option Fields)
      → (update_agent_job encode env kind job_id status notes result s).1 ≡ some e
      → Intact s (update_agent_job encode env kind job_id status notes result s).0
  unfolding update_agent_job
  update_agent_job-atomic kind job_id status notes result =
      checked-Intact s (found_job (get_job job_id s.agent_jobs)) _ e (λ _ _.
        checked-Intact s (update_job job_id status notes result env.now s.agent_jobs) _ e (λ r _.
          finish_guarded-error encode env s (record s { agent_jobs = r.1 }) _ (job_room env r.0)
            (λ t. record t { agent_jobs = s.agent_jobs }) _ e (job_room-Between env r.0)
            (λ _. Intact-refl s) (undo_job_room-Undoes r.1)))

  -- An error of CreateAgentJob leaves every store as it was, though a failed event would roll nothing
  -- back: with an actor and a clock, the event of a checked job does not fail.
  pub create_agent_job-atomic :
      (item : AgentJob)
      → Named env
      → (create_agent_job encode env item s).1 ≡ some e
      → Intact s (create_agent_job encode env item s).0
  unfolding create_agent_job
  create_agent_job-atomic raw named =
      let item = normalize_job env.now raw in
      checked-Intact s (ensure_active_branch raw.branch_id s.branches) _ e (λ _ _.
        checked-Intact s (create_job item s.agent_jobs) _ e (λ jobs made.
          finish_plain-error encode env s (record s { agent_jobs = jobs }) _ (λ t. t) _ e
            (λ failed.
              no_error _ e
                (log-valid (job_created env item) (record s { agent_jobs = jobs })
                  (service_event-valid env _ _ _ _ _ named
                    (job_created-IsEvent item (create_job-valid item s.agent_jobs made))))
                failed)
            (undo_job-Undoes jobs)))
