-- ===== src/Runtime/Jobs/Reclaim/Stopped.antt =====
-- After the start no job is left running.
use layeros.Base.{
  String, Bool, true, false, ◌≡◌, ◌⊎◌, ap, sym, ◌∙◌, Option, none, List, [], ◌∷◌, inl, inr,
  if◌then◌else◌, ◌==◌, replace_by, find_by-key, All,
}
use mathlib.Core.Path.{subst}
use layeros.Text.{seen}
use layeros.Json.{Fields}
use layeros.Types.Jobs.{AgentJob}
use layeros.Stores.Jobs.{get_job, update_job, updated_job}
use layeros.Stores.Loop.{update_first-eq-ok}
use layeros.Env.{Env, Domain}
use layeros.State.{Service, Saved}
use layeros.Runtime.Logged.{checked-none}
use layeros.Runtime.Outcomes.{finish_guarded-Stores}
use layeros.Runtime.Jobs.{found_job, update_agent_job, job_room}
use layeros.Runtime.Jobs.Rollback.{job_room-Between}
use layeros.Runtime.Jobs.Reclaim.{reclaim_job, reclaim_each, reclaim_stale_jobs}
use layeros.Runtime.Jobs.Reclaim.Lists.{
  DistinctIds, updated_job-fields, StoppedBut, running_ids, replace-StoppedBut, replace-DistinctIds,
  running_ids-StoppedBut,
}

-- the turn of every running job answers no error
unfoldable pub EachReclaimed :
    ((d : Domain) → Saved d → String) → Env → List AgentJob → Service → Type 0
EachReclaimed encode env [] s = Unit
EachReclaimed encode env (job ∷ jobs) s =
    if job.status == "running"
    then ((reclaim_job encode env job s).1 ≡ none)
      × EachReclaimed encode env jobs (reclaim_job encode env job s).0
    else EachReclaimed encode env jobs s

-- the job that a turn leaves in the place of the old one
record Failed (id : String) (old new : List AgentJob) : Type 0 where
  pub job : AgentJob
  pub same_id : job.job_id ≡ id
  pub failed : job.status ≡ "failed"
  pub replaced : new ≡ replace_by (λ j. j.job_id) id job old

module _ (encode : (d : Domain) → Saved d → String) (env : Env) where
  update-Failed :
      (kind id : String) (notes : Option (List String)) (result : Option Fields) (s : Service)
      → (update_agent_job encode env kind id "failed" notes result s).1 ≡ none
      → Failed id s.agent_jobs
          (update_agent_job encode env kind id "failed" notes result s).0.agent_jobs
  unfolding update_agent_job update_job
  update-Failed kind id notes result s h =
      let (_, _, h1, e1) = checked-none (found_job (get_job id s.agent_jobs)) s _ h in
      let (r, made, h2, e2) =
        checked-none (update_job id "failed" notes result env.now s.agent_jobs) s _ h1 in
      let (old, found, changed, put) =
        update_first-eq-ok (λ (j : AgentJob). j.job_id) id "job_id not found"
          (updated_job "failed" notes result env.now) s.agent_jobs {y = r.0} {ys = r.1} made in
      let kept_fields = updated_job-fields "failed" notes result env.now old r.0 changed in
      let kept =
        finish_guarded-Stores encode env (record s { agent_jobs = r.1 }) _ (job_room env r.0) _ _
          (job_room-Between env r.0) h2 in
      record {
        job = r.0;
        same_id =
            kept_fields.0
            ∙ find_by-key (λ (j : AgentJob). j.job_id) id s.agent_jobs {x = old} found;
        failed = kept_fields.1;
        replaced =
            ap (λ (w : Service). w.agent_jobs) (e1 ∙ e2)
            ∙ ap (λ (w : Service). w.agent_jobs) kept.same
            ∙ put;
      }

turn-Stopped :
    {E F : Type 0} (b : Bool) (id : String) (keys : List String) (s yes_run not_run : Service)
    → (E → StoppedBut (id ∷ keys) s.agent_jobs → StoppedBut [] yes_run.agent_jobs)
    → (F → StoppedBut keys s.agent_jobs → StoppedBut [] not_run.agent_jobs)
    → (if b then E else F)
    → StoppedBut (if b then id ∷ keys else keys) s.agent_jobs
    → StoppedBut [] (if b then yes_run else not_run).agent_jobs
turn-Stopped true id keys s yes_run not_run f g each stopped = f each stopped
turn-Stopped false id keys s yes_run not_run f g each stopped = g each stopped

reclaim-Failed :
    (encode : (d : Domain) → Saved d → String) (env : Env) (job : AgentJob) (s : Service)
    → (reclaim_job encode env job s).1 ≡ none
    → Failed job.job_id s.agent_jobs (reclaim_job encode env job s).0.agent_jobs
unfolding reclaim_job
reclaim-Failed encode env job s h = update-Failed encode env "agent_job.failed" job.job_id _ _ s h

each-Stopped :
    (encode : (d : Domain) → Saved d → String) (env : Env) (jobs : List AgentJob) (s : Service)
    → DistinctIds s.agent_jobs
    → StoppedBut (running_ids jobs) s.agent_jobs
    → EachReclaimed encode env jobs s
    → StoppedBut [] (reclaim_each encode env jobs s).agent_jobs
unfolding reclaim_each EachReclaimed
each-Stopped encode env [] s distinct stopped each = stopped
each-Stopped encode env (job ∷ jobs) s distinct stopped each =
    turn-Stopped (job.status == "running") job.job_id (running_ids jobs) s _ _
      (λ e left.
        let f = reclaim-Failed encode env job s e.0 in
        each-Stopped encode env jobs (reclaim_job encode env job s).0
          (subst DistinctIds (sym f.replaced)
            (replace-DistinctIds job.job_id f.job s.agent_jobs f.same_id distinct))
          (subst (StoppedBut (running_ids jobs)) (sym f.replaced) (
            replace-StoppedBut job.job_id (running_ids jobs) f.job s.agent_jobs f.failed distinct
              left))
          e.1)
      (λ e left. each-Stopped encode env jobs s distinct left e) each stopped

StoppedBut-All :
    (jobs : List AgentJob) → StoppedBut [] jobs → All (λ j. (j.status == "running") ≡ false) jobs
unfolding StoppedBut seen
StoppedBut-All [] h = tt
StoppedBut-All (x ∷ xs) h = (no_key h.0, StoppedBut-All xs h.1)
  where
    no_key : {P : Type 0} → P ⊎ (false ≡ true) → P
    no_key (inl p) = p
    no_key (inr e) = cc

-- At the start, where the identifiers of the jobs are distinct and the change of each job that was
-- running answers no error, no job is left running.
pub reclaim_stale_jobs-stopped :
    (encode : (d : Domain) → Saved d → String) (env : Env) (s : Service)
    → DistinctIds s.agent_jobs
    → EachReclaimed encode env s.agent_jobs s
    → All (λ j. (j.status == "running") ≡ false) (reclaim_stale_jobs encode env s).agent_jobs
unfolding reclaim_stale_jobs
reclaim_stale_jobs-stopped encode env s distinct each =
    StoppedBut-All _
      (each-Stopped encode env s.agent_jobs s distinct (running_ids-StoppedBut s.agent_jobs) each)
