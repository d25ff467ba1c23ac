-- ===== src/Runtime/Jobs/Chain/Valid.antt =====
-- The job that a rule of service_job_chain.go makes passes the check of jobs.
use layeros.Base.{
  String, Bool, true, false, not, ◌≡◌, refl, Option, some, none, List, ok, Bool-cases, inl, inr,
  if◌then◌else◌, reject_if-eq-ok, >>=-eq-ok, not-eq-false, ◌&&◌, ap, ◌∙◌,
}
use layeros.Text.{◌<>◌, trim_space, is_blank}
use layeros.Text.Trim.{is_blank-append, is_blank-trim_space}
use layeros.Json.{flag, Fields, put, clone_object, marshals_fields}
use layeros.Json.Check.{
  IsJson, null_json, text_json, flag_json, object_json, IsObject, no_fields, put-IsObject,
  validate_object_iff,
}
use layeros.Types.Vocabulary.{
  Time, is_zero, some_blank, valid_surface, valid_stage, valid_agent_job_status, validate_map,
}
use layeros.Types.Jobs.{AgentJob, ChainRule, validate_agent_job, validate_chain_rule}
use layeros.Stores.Branches.{normalize_ref}
use layeros.Runtime.Jobs.{or_end}
use layeros.Runtime.Jobs.Chain.{
  cloned, chained_payload, chained_agent_job, derive_chained_job_id, put_ref, put_result,
}

-- what the check of the parent and of the rule is needed for
record Parent (job : AgentJob) : Type 0 where
  pub surface : valid_surface job.surface ≡ true
  pub stage : valid_stage job.stage ≡ true
  pub result : validate_map job.result "agent job result" ≡ ok tt

validate_agent_job-Parent : (job : AgentJob) → validate_agent_job job ≡ ok tt → Parent job
unfolding validate_agent_job
validate_agent_job-Parent job h =
    let (_, h1) = reject_if-eq-ok (is_blank job.job_id) _ _ h in
    let (_, h2) = reject_if-eq-ok (some_blank job.branch_id) _ _ h1 in
    let (_, h3) = reject_if-eq-ok (is_blank job.kind) _ _ h2 in
    let (_, h4) = reject_if-eq-ok (is_blank job.role) _ _ h3 in
    let (_, h5) = reject_if-eq-ok (is_blank job.summary) _ _ h4 in
    let (_, h6) = reject_if-eq-ok (not (valid_agent_job_status job.status)) _ _ h5 in
    let (_, h7) = reject_if-eq-ok (is_blank job.source) _ _ h6 in
    let (surface, h8) = reject_if-eq-ok (not (valid_surface job.surface)) _ _ h7 in
    let (stage, h9) = reject_if-eq-ok (not (valid_stage job.stage)) _ _ h8 in
    let (_, h10) = reject_if-eq-ok (some_blank job.ref) _ _ h9 in
    let (_, _, h11) = >>=-eq-ok (validate_map job.payload "agent job payload") _ h10 in
    let (_, result, _) = >>=-eq-ok (validate_map job.result "agent job result") _ h11 in
    record { surface = not-eq-false _ surface; stage = not-eq-false _ stage; result = result }

record Rule (rule : ChainRule) : Type 0 where
  pub rule_kind : is_blank rule.next_kind ≡ false
  pub rule_role : is_blank rule.next_role ≡ false
  pub rule_summary : is_blank rule.summary ≡ false
  pub rule_payload : validate_map rule.payload "chain rule payload" ≡ ok tt

validate_chain_rule-Rule : (rule : ChainRule) → validate_chain_rule rule ≡ ok tt → Rule rule
unfolding validate_chain_rule
validate_chain_rule-Rule rule h =
    let (_, h1) = reject_if-eq-ok (is_blank rule.rule_id) _ _ h in
    let (_, h2) = reject_if-eq-ok _ "chain rule on_status is invalid" _ h1 in
    let (rule_kind, h3) = reject_if-eq-ok (is_blank rule.next_kind) _ _ h2 in
    let (rule_role, h4) = reject_if-eq-ok (is_blank rule.next_role) _ _ h3 in
    let (_, h5) = reject_if-eq-ok _ "chain rule next_stage is invalid" _ h4 in
    let (_, h6) = reject_if-eq-ok _ "chain rule surface is invalid" _ h5 in
    let (rule_summary, h7) = reject_if-eq-ok (is_blank rule.summary) _ _ h6 in
    let (_, rule_payload, _) = >>=-eq-ok (validate_map rule.payload "chain rule payload") _ h7 in
    record {
      rule_kind = rule_kind;
      rule_role = rule_role;
      rule_summary = rule_summary;
      rule_payload = rule_payload;
    }

-- a map that may be missing, copied
or_end-IsObject :
    (path : String) (o : Option Fields)
    → validate_map o path ≡ ok tt
    → IsObject (or_end (clone_object o))
unfolding validate_map clone_object
or_end-IsObject path none h = no_fields
or_end-IsObject path (some fs) h = elim (Bool-cases (marshals_fields fs)) [
  | inl written ↦ rw written ((validate_object_iff fs path).0 h)
  | inr unwritten ↦ rw unwritten no_fields
]

cloned-IsJson :
    (path : String) (fs : Fields)
    → validate_map (some fs) path ≡ ok tt
    → IsJson (cloned (clone_object (some fs)))
unfolding validate_map clone_object
cloned-IsJson path fs h = elim (Bool-cases (marshals_fields fs)) [
  | inl written ↦ rw written (object_json ((validate_object_iff fs path).0 h))
  | inr unwritten ↦ rw unwritten null_json
]

-- the keys that the chain writes
put_ref-IsObject : (ref : Option String) (fs : Fields) → IsObject fs → IsObject (put_ref ref fs)
unfolding put_ref is_blank trim_space
put_ref-IsObject none fs h = h
put_ref-IsObject (some ref) fs h =
    put-IsObject "chain_parent_ref" refl (text_json (trim_space ref)) h

put_result-IsObject :
    (result : Option Fields) (fs : Fields)
    → validate_map result "agent job result" ≡ ok tt
    → IsObject fs
    → IsObject (put_result result fs)
unfolding put_result is_blank trim_space
put_result-IsObject none fs v h = h
put_result-IsObject (some result) fs v h =
    put-IsObject "chain_parent_result" refl (cloned-IsJson "agent job result" result v) h

notified-IsObject :
    (b : Bool) (fs : Fields)
    → IsObject fs
    → IsObject (if b then put "notify_telegram" (flag true) fs else fs)
unfolding is_blank trim_space
notified-IsObject true fs h = put-IsObject "notify_telegram" refl (flag_json true) h
notified-IsObject false fs h = h

chained_payload-IsObject :
    (parent : AgentJob) (rule : ChainRule)
    → Parent parent
    → Rule rule
    → IsObject (chained_payload parent rule)
unfolding chained_payload is_blank trim_space
chained_payload-IsObject parent rule p r = notified-IsObject rule.notify_telegram _ (
    put_result-IsObject parent.result _ p.result (
      put_ref-IsObject parent.ref _ (
        put-IsObject "chain_parent_summary" refl (text_json parent.summary) (
          put-IsObject "chain_rule_id" refl (text_json rule.rule_id) (
            put-IsObject "chain_parent_status" refl (text_json parent.status) (
              put-IsObject "chain_parent_role" refl (text_json parent.role) (
                put-IsObject "chain_parent_job_id" refl (text_json parent.job_id)
                  (or_end-IsObject "chain rule payload" rule.payload r.rule_payload))))))))

chosen : (f : String → Bool) (x y : String) → f y ≡ true → f (if f x then x else y) ≡ true
chosen f x y h = elim (Bool-cases (f x)) [ inl good ↦ rw (good, good) refl | inr bad ↦ rw bad h ]

normalize_ref-some_blank : (ref : Option String) → some_blank (normalize_ref ref) ≡ false
unfolding normalize_ref
normalize_ref-some_blank none = refl
normalize_ref-some_blank (some ref) = elim (Bool-cases (is_blank ref)) [
  | inl blank ↦ rw blank refl
  | inr shown ↦ rw shown (is_blank-trim_space ref ∙ shown)
]

-- what the check of a job without a branch and a result asks
accepts_agent_job :
    (job : AgentJob) (notes : List String) (payload : Fields)
    → job.branch_id ≡ none
    → job.result ≡ none
    → job.notes ≡ some notes
    → job.payload ≡ some payload
    → is_blank job.job_id ≡ false
    → is_blank job.kind ≡ false
    → is_blank job.role ≡ false
    → is_blank job.summary ≡ false
    → valid_agent_job_status job.status ≡ true
    → is_blank job.source ≡ false
    → valid_surface job.surface ≡ true
    → valid_stage job.stage ≡ true
    → some_blank job.ref ≡ false
    → IsObject payload
    → is_zero job.created_at ≡ false
    → is_zero job.updated_at ≡ false
    → validate_agent_job job ≡ ok tt
unfolding validate_agent_job validate_map
accepts_agent_job job notes payload branch result noted paid id kind role summary status source
      surface stage ref fields created updated =
    rw
      (
        branch,
        result,
        noted,
        paid,
        id,
        kind,
        role,
        summary,
        status,
        source,
        surface,
        stage,
        ref,
        (validate_object_iff payload "agent job payload").1 fields,
        created,
        updated,
      )
      refl

prefix_is_shown : is_blank "job_chain_" ≡ false
unfolding is_blank trim_space
prefix_is_shown = refl

prefix-is_blank : (s : String) → is_blank ("job_chain_" <> s) ≡ false
prefix-is_blank s = is_blank-append "job_chain_" s ∙ ap (λ b. b && is_blank s) prefix_is_shown

derive-is_blank :
    (checksum : String → String) (id : String) (rule : ChainRule)
    → is_blank (derive_chained_job_id checksum id rule) ≡ false
unfolding derive_chained_job_id
derive-is_blank checksum id rule = prefix-is_blank _

-- The job that a rule that passes its check makes of a job that passes its own passes the check of jobs,
-- if the clock is not at Go's zero time, whatever the checksum.
pub chained_agent_job-valid :
    (checksum : String → String) (now : Time) (parent : AgentJob) (rule : ChainRule)
    → is_zero now ≡ false
    → validate_agent_job parent ≡ ok tt
    → validate_chain_rule rule ≡ ok tt
    → validate_agent_job (chained_agent_job checksum now parent rule) ≡ ok tt
unfolding chained_agent_job is_blank trim_space valid_agent_job_status
chained_agent_job-valid checksum now parent rule clock job_valid rule_valid =
    let p = validate_agent_job-Parent parent job_valid in
    let r = validate_chain_rule-Rule rule rule_valid in
    accepts_agent_job (chained_agent_job checksum now parent rule) _ (chained_payload parent rule)
      refl refl refl refl (derive-is_blank checksum parent.job_id rule)
      (is_blank-trim_space rule.next_kind ∙ r.rule_kind)
      (is_blank-trim_space rule.next_role ∙ r.rule_role)
      (is_blank-trim_space rule.summary ∙ r.rule_summary) refl refl
      (chosen valid_surface rule.surface parent.surface p.surface)
      (chosen valid_stage rule.next_stage parent.stage p.stage)
      (normalize_ref-some_blank parent.ref) (chained_payload-IsObject parent rule p r) clock clock
