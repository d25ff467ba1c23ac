-- ===== src/Stores/Jobs.antt =====
-- internal/runtime/agent_job.go
use layeros.Base.{
  String, Bool, false, ◌||◌, Option, some, none, List, [], ◌∷◌, ◌++◌, Result, ok, ◌>>◌, reject_if,
  ◌==◌, find_by,
}
use layeros.Json.{Fields, clone_object}
use layeros.Types.Vocabulary.{Time, items}
use layeros.Types.Jobs.{AgentJob, validate_agent_job}
use layeros.Stores.Loop.{update_first}

-- `for _, existing := range s.items { if existing.JobID == item.JobID { … } }`
unfoldable pub has_job : String → List AgentJob → Bool
has_job id [] = false
has_job id (j ∷ js) = j.job_id == id || has_job id js

unfoldable pub create_job : AgentJob → List AgentJob → Result (List AgentJob)
unfolding has_job
create_job item jobs = do
  validate_agent_job item
  reject_if (has_job item.job_id jobs) "job_id already exists"
  ok (jobs ++ item ∷ [])

unfoldable pub get_job : String → List AgentJob → Option AgentJob
get_job = find_by (λ j. j.job_id)

-- `if result != nil { item.Result = cloneJSONObject(result) }`
unfoldable pub new_result : Option Fields → Option Fields → Option Fields
new_result none old = old
new_result (some new) old = clone_object (some new)

unfoldable pub updated_job :
    String → Option (List String) → Option Fields → Time → AgentJob → Result AgentJob
unfolding new_result
updated_job status notes result updated_at item = do
  let item' = record item {
    status = status;
    notes = some (items notes);
    result = new_result result item.result;
    updated_at = updated_at;
  }
  validate_agent_job item'
  ok item'

unfoldable pub update_job :
    String
    → String
    → Option (List String)
    → Option Fields
    → Time
    → List AgentJob
    → Result (AgentJob × List AgentJob)
update_job job_id status notes result updated_at =
    update_first (λ j. j.job_id) job_id "job_id not found"
      (updated_job status notes result updated_at)
