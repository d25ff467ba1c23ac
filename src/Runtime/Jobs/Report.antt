-- ===== src/Runtime/Jobs/Report.antt =====
-- internal/runtime/service_job_report.go: what a report of a job's end is completed with, its check,
-- the change of the job that it makes, and the follow-up that it names. Behind that change
-- ReportAgentJob also writes the corpus and the observations and applies the chain rules.
pub mod Supported
use layeros.Base.{
  ℕ, String, Bool, true, false, not, ◌&&◌, ◌||◌, Option, some, none, List, [], ◌∷◌, ◌++◌, Result,
  ok, ◌>>◌, reject_if, if◌then◌else◌, ◌==◌, ltb, length, is_none,
}
use layeros.Text.{◌<>◌, trim_space, decimal, seen}
use layeros.Json.{
  Value, text, array, nil, Fields, field, end, get, put, put_all, clone_object, text_items,
}
use layeros.Types.Vocabulary.{valid_agent_job_terminal_status}
use layeros.Types.Jobs.{AgentJob}
use layeros.Stores.Jobs.{get_job}
use layeros.Auth.{normalize_actor}
use layeros.Env.{Env, Domain}
use layeros.State.{Service, Saved}
use layeros.Persist.{Outcome}
use layeros.Runtime.{checked}
use layeros.Runtime.Jobs.{result_string, or_end, found_job, update_agent_job}
use layeros.Runtime.Jobs.Evidence.{Repo, result_string_list, validate_path_evidence}

-- `agentJobResultArrayLen`
unfoldable pub array_len : Option Value → ℕ
unfolding result_string_list
array_len value = length (result_string_list value)

unfoldable pub default_report_summary : AgentJob → String → String
default_report_summary job status =
    let about = " " <> status <> ": " <> trim_space job.summary in
    if valid_agent_job_terminal_status status
    then "Agent job " <> job.job_id <> about
    else trim_space job.summary

unfoldable pub role_needs_artifacts : String → Bool
role_needs_artifacts role = trim_space role == "implementer" || trim_space role == "verifier"

some_array : List String → Fields → Bool
unfolding array_len
some_array [] result = false
some_array (key ∷ keys) result = ltb 0 (array_len (get key result)) || some_array keys result

some_text : List String → Fields → Bool
unfolding result_string
some_text [] result = false
some_text (key ∷ keys) result =
    not (trim_space (result_string (get key result)) == "") || some_text keys result

unfoldable pub result_has_artifacts : Fields → Bool
unfolding some_array some_text
result_has_artifacts result =
    some_array ("artifacts" ∷ "changed_paths" ∷ "touched_paths" ∷ "artifact_relative_paths" ∷ [])
      result
    || some_text ("artifact_relative_path" ∷ "artifact_path" ∷ "verification_record_id" ∷ []) result

unfoldable pub validate_succeeded_evidence : Repo → AgentJob → Fields → Result (Unit {0})
unfolding role_needs_artifacts result_has_artifacts validate_path_evidence result_string
validate_succeeded_evidence disk job result = do
  reject_if (trim_space (result_string (get "summary" result)) == "")
      "job report succeeded requires result.summary"
  reject_if (role_needs_artifacts job.role && not (result_has_artifacts result)) (
      "job report succeeded for role "
      <> trim_space job.role
      <> " requires non-empty result.artifacts or changed path evidence")
  validate_path_evidence disk job result

-- `if _, ok := merged[key]; !ok { merged[key] = value }`
put_missing : String → Value → Fields → Fields
put_missing key value fs = if is_none (get key fs) then put key value fs else fs

-- the result that `normalizeAgentJobReportResult` puts together
unfoldable pub merged_report : AgentJob → String → Option Fields → String → Fields
unfolding default_report_summary put_missing result_string
merged_report job status result actor =
    let merged = put_all (or_end (clone_object result)) (or_end (clone_object job.result)) in
    let given = trim_space (result_string (get "summary" merged)) in
    let summary = if given == "" then default_report_summary job status else given in
    put_missing "completion_mode" (text "explicit_job_report") (
      put "report_transport" (text "job_report") (
        put "reported_by_actor" (text (normalize_actor actor)) (
          put "report_status" (text status)
            (put_missing "artifacts" (array nil) (put "summary" (text summary) merged)))))

unfoldable pub normalize_report_result :
    Repo → AgentJob → String → Option Fields → String → Result Fields
unfolding merged_report validate_succeeded_evidence
normalize_report_result disk job status result actor =
    let merged = merged_report job status result actor in
    (if status == "succeeded" then validate_succeeded_evidence disk job merged else ok tt)
    >> ok merged

-- the part of `ReportAgentJob` up to the change of the job
module _ (encode : (d : Domain) → Saved d → String) where
  unfoldable pub report_agent_job :
      Env → Repo → String → String → Option (List String) → Option Fields → Service → Outcome
  unfolding normalize_report_result
  report_agent_job env disk job_id status notes result s =
      checked
        (reject_if (not (valid_agent_job_terminal_status status))
          "job report status must be terminal")
        s
        (λ _. checked (found_job (get_job job_id s.agent_jobs)) s (λ current.
          checked (normalize_report_result disk current status result env.actor) s (λ normalized.
            update_agent_job encode env ("agent_job." <> status) job_id status notes
              (some normalized) s)))

pub record AgentJobChainResult : Type 0 where
  pub parent_job_id : String
  pub considered : ℕ
  pub created : ℕ
  pub existing : ℕ
  pub dispatched : ℕ
  pub telegram_requested : ℕ
  pub created_job_ids : List String
  pub existing_job_ids : List String

pub record AgentJobFollowUp : Type 0 where
  pub mode : String
  pub summary : String
  pub job_ids : List String

-- what is left of the identifiers, behind those that were seen
unique_ids : List String → List String → List String
unfolding seen
unique_ids keys [] = []
unique_ids keys (raw ∷ raws) =
    let id = trim_space raw in
    let rest = unique_ids keys raws in
    let later = unique_ids (id ∷ keys) raws in if id == "" || seen id keys then rest else id ∷ later

-- `collectAgentJobFollowUpIDs`; the nil list is the empty one
unfoldable pub collect_follow_up_ids : Option AgentJobChainResult → List String
unfolding unique_ids
collect_follow_up_ids none = []
collect_follow_up_ids (some chain) = unique_ids [] (chain.created_job_ids ++ chain.existing_job_ids)

abbrev dispatched : Option AgentJobChainResult → ℕ
dispatched none = 0
dispatched (some chain) = chain.dispatched

abbrev prepared : Option AgentJobChainResult → Bool
prepared none = false
prepared (some chain) = ltb 0 chain.created || ltb 0 chain.existing

-- the cases of `buildAgentJobReportFollowUp` that name no job
unfoldable pub follow_up_of_status : String → AgentJobFollowUp
follow_up_of_status status =
    if status == "failed"
    then record {
      mode = "inspect_failure";
      summary = "재시도하거나 대체 작업을 올리기 전에 실패 레인 증거부터 확인해야 해.";
      job_ids = [];
    }
    else if status == "canceled"
    then record {
      mode = "decide_replacement";
      summary = "취소된 레인을 다시 열지, 새 bounded 작업으로 바꿀지 먼저 결정해야 해.";
      job_ids = [];
    }
    else record {
      mode = "continue_loop";
      summary = "자동 후속 작업은 안 열렸어. founder 검토나 `layer-osctl next`로 다음 레인을 잡아야 해.";
      job_ids = [];
    }

abbrev some_text_of : List String → Bool
some_text_of [] = false
some_text_of (_ ∷ _) = true

unfoldable pub build_follow_up :
    AgentJob → List String → Option AgentJobChainResult → AgentJobFollowUp
unfolding collect_follow_up_ids follow_up_of_status
build_follow_up job warnings chain =
    let ids = collect_follow_up_ids chain in
    if some_text_of warnings
    then record {
      mode = "review_warnings";
      summary = "job.report 경고부터 확인한 뒤 다음 자동화를 믿어야 해.";
      job_ids = ids;
    }
    else if ltb 0 (dispatched chain)
    then record {
      mode = "monitor_dispatched_jobs";
      summary =
          "후속 작업 " <> decimal (dispatched chain) <> "건이 자동 투입됐어. 새 수동 작업을 만들기 전에 그 레인부터 확인해야 해.";
      job_ids = ids;
    }
    else if prepared chain || some_text_of ids
    then record {
      mode = "review_follow_up_jobs";
      summary = "후속 작업은 준비됐지만 아직 자동 투입되진 않았어. 다음으로 그 레인을 검토하거나 투입해야 해.";
      job_ids = ids;
    }
    else follow_up_of_status (trim_space job.status)

job_ids_field : List String → Fields
job_ids_field [] = end
job_ids_field (id ∷ ids) = field "job_ids" (array (text_items (id ∷ ids))) end

-- `agentJobFollowUpPayload`
unfoldable pub follow_up_payload : AgentJobFollowUp → Fields
unfolding job_ids_field
follow_up_payload item =
    field "mode" (text (trim_space item.mode))
      (field "summary" (text (trim_space item.summary)) (job_ids_field item.job_ids))
