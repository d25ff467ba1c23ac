-- ===== src/Runtime/Jobs/Report/Supported.antt =====
-- When a report of success passes the check of service_job_report.go, and what it then has.
use layeros.Base.{String, true, false, ◌≡◌, List, ◌==◌}
use layeros.Text.{trim_space}
use layeros.Json.{Fields, get}
use layeros.Types.Jobs.{AgentJob}
use layeros.Runtime.Jobs.{result_string}
use layeros.Runtime.Jobs.Evidence.{Repo, PathEvidence, payload_string_list}
use layeros.Runtime.Jobs.Evidence.Backed.{Backed}
use layeros.Runtime.Jobs.Evidence.Named.{EachNamed}
use layeros.Runtime.Jobs.Report.{role_needs_artifacts, result_has_artifacts}

-- what holds of a path reads its kind and the path alone
abbrev BackedFor : Repo → List String → List String → PathEvidence → Type 0
BackedFor disk allowed blocked ref = Backed disk allowed blocked ref ref.kind

pub record Supported (disk : Repo) (job : AgentJob) (result : Fields) : Type 0 where
  pub summary : (trim_space (result_string (get "summary" result)) == "") ≡ false
  pub artifacts : role_needs_artifacts job.role ≡ true → result_has_artifacts result ≡ true
  pub paths :
      EachNamed
        (BackedFor disk
          (payload_string_list job.payload "allowed_paths")
          (payload_string_list job.payload "blocked_paths"))
        result
