-- ===== src/Runtime/Jobs/Reclaim.antt =====
-- internal/runtime/service.go: reclaimStaleJobsOnStartup, which fails the jobs that a daemon left running.
pub mod Lists
pub mod Stopped
pub mod Unique
use layeros.Base.{String, List, [], ◌∷◌, some, if◌then◌else◌, ◌==◌}
use layeros.Json.{Fields, text, put, clone_object}
use layeros.Types.Vocabulary.{items}
use layeros.Types.Jobs.{AgentJob}
use layeros.Stores.Control.{append_unique_string}
use layeros.Env.{Env, Domain}
use layeros.State.{Service, Saved}
use layeros.Persist.{Outcome}
use layeros.Runtime.Jobs.{or_end, update_agent_job}

abbrev reclaim_result : AgentJob → Fields
reclaim_result job = put "reclaim_reason" (text "daemon_restart") (or_end (clone_object job.result))

module _ (encode : (d : Domain) → Saved d → String) where
  -- the turn of the loop on a job that was running, and its error, which the loop drops
  unfoldable pub reclaim_job : Env → AgentJob → Service → Outcome
  reclaim_job env job s =
      update_agent_job encode env "agent_job.failed" job.job_id "failed"
        (some (append_unique_string (items job.notes) "startup_reclaim"))
        (some (reclaim_result job)) s

  unfoldable pub reclaim_each : Env → List AgentJob → Service → Service
  unfolding reclaim_job
  reclaim_each env [] s = s
  reclaim_each env (job ∷ jobs) s =
      let passed = reclaim_each env jobs s in
      let later = reclaim_each env jobs (reclaim_job env job s).0 in
      if job.status == "running" then later else passed

  unfoldable pub reclaim_stale_jobs : Env → Service → Service
  unfolding reclaim_each
  reclaim_stale_jobs env s = reclaim_each env s.agent_jobs s
