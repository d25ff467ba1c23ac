-- ===== src/Runtime/Jobs/Chain.antt =====
-- internal/runtime/service_job_chain.go: the jobs that follow a job by the rules in its payload. The
-- checksum of a text, the reading of rules from a value, and DispatchAgentJob are arguments.
pub mod Valid
pub mod Turns
pub mod Balanced
pub mod Settled
use package.text.Mathlib.Text.{starts_with}
use layeros.Base.{
  suc, ◌+◌, String, Bool, true, false, not, ◌&&◌, ◌||◌, Option, some, none, List, [], ◌∷◌, ◌++◌,
  Result, ok, err, ◌>>◌, ◌>>=◌, if◌then◌else◌, ◌==◌,
}
use layeros.Text.{◌<>◌, trim_space, to_lower}
use layeros.Text.Parts.{join}
use layeros.Json.{Value, null, text, flag, object, Fields, get, put, clone_object}
use layeros.Types.Vocabulary.{Time, items, valid_surface, valid_stage}
use layeros.Types.Jobs.{AgentJob, ChainRule, ChainRules, validate_chain_rules}
use layeros.Stores.Branches.{normalize_ref}
use layeros.Stores.Control.{append_unique_string}
use layeros.Stores.Jobs.{get_job}
use layeros.Env.{Env, Domain}
use layeros.State.{Service, Saved}
use layeros.Persist.{Outcome}
use layeros.Runtime.Jobs.{or_end, create_agent_job}
use layeros.Runtime.Jobs.Report.{AgentJobChainResult}

-- `%08x` of `crc32.ChecksumIEEE` behind the prefix
unfoldable pub derive_chained_job_id : (String → String) → String → ChainRule → String
derive_chained_job_id checksum parent_job_id rule =
    "job_chain_"
    <> checksum (
        join "|" (
          trim_space parent_job_id
          ∷ trim_space rule.rule_id
          ∷ trim_space rule.on_status
          ∷ trim_space rule.next_kind
          ∷ trim_space rule.next_role
          ∷ trim_space rule.summary
          ∷ []))

put_ref : Option String → Fields → Fields
put_ref none fs = fs
put_ref (some ref) fs = put "chain_parent_ref" (text (trim_space ref)) fs

abbrev pub cloned : Option Fields → Value
cloned none = null
cloned (some fs) = object fs

put_result : Option Fields → Fields → Fields
put_result none fs = fs
put_result (some result) fs = put "chain_parent_result" (cloned (clone_object (some result))) fs

unfoldable pub chained_payload : AgentJob → ChainRule → Fields
unfolding put_ref put_result
chained_payload parent rule =
    let named = put "chain_parent_summary" (text parent.summary) (
      put "chain_rule_id" (text rule.rule_id) (
        put "chain_parent_status" (text parent.status) (
          put "chain_parent_role" (text parent.role) (
            put "chain_parent_job_id" (text parent.job_id)
              (or_end (clone_object rule.payload)))))) in
    let result = put_result parent.result (put_ref parent.ref named) in
    if rule.notify_telegram then put "notify_telegram" (flag true) result else result

append_each : List String → List String → List String
append_each acc [] = acc
append_each acc (note ∷ notes) = append_each (append_unique_string acc note) notes

unfoldable pub chained_agent_job : (String → String) → Time → AgentJob → ChainRule → AgentJob
unfolding derive_chained_job_id chained_payload append_each
chained_agent_job checksum now parent rule = record {
  job_id = derive_chained_job_id checksum parent.job_id rule;
  branch_id = none;
  kind = trim_space rule.next_kind;
  role = trim_space rule.next_role;
  summary = trim_space rule.summary;
  status = "queued";
  source = "agent_job.chain";
  surface = if valid_surface rule.surface then rule.surface else parent.surface;
  stage = if valid_stage rule.next_stage then rule.next_stage else parent.stage;
  ref = normalize_ref parent.ref;
  payload = some (chained_payload parent rule);
  result = none;
  notes = some (
      append_each
        ("chain:child" ∷ ("chain_parent:" <> parent.job_id) ∷ ("chain_rule:" <> rule.rule_id) ∷ [])
        (items rule.notes));
  created_at = now;
  updated_at = now;
}

-- `strings.Contains`
unfoldable pub has_part : String → String → Bool
has_part part String.[] = starts_with "" part
has_part part (String.◌∷◌ c s) = starts_with (String.◌∷◌ c s) part || has_part part s

-- What the loop has so far: the service, what it counted, and the error that ended it.
pub record Chained : Type 0 where
  pub service : Service
  pub result : AgentJobChainResult
  pub error : Option String

-- a dispatch behind a creation, and what is counted of it
unfoldable pub chain_dispatched : String → AgentJobChainResult → Outcome → Chained
chain_dispatched prefix result (s, none) = record {
  service = s;
  result = record result { dispatched = suc result.dispatched };
  error = none;
}
chain_dispatched prefix result (s, some e) = record {
  service = s;
  result = result;
  error = some (prefix <> e);
}

unfoldable pub chain_kept : AgentJobChainResult → Service → Chained
chain_kept result s = record { service = s; result = result; error = none }

abbrev pub can_dispatch : Option AgentJob → Bool
can_dispatch none = false
can_dispatch (some job) = job.status == "queued" || job.status == "failed"

module _ (dispatch : String → Service → Outcome) where
  -- the rest of a turn behind CreateAgentJob
  unfoldable pub chain_turn : ChainRule → String → AgentJobChainResult → Outcome → Chained
  unfolding chain_dispatched chain_kept has_part
  chain_turn rule job_id result (s, none) =
      let created = record result {
        created = suc result.created;
        created_job_ids = result.created_job_ids ++ job_id ∷ [];
        telegram_requested =
            if rule.notify_telegram
            then suc result.telegram_requested
            else result.telegram_requested;
      } in
      if rule.auto_dispatch
      then chain_dispatched ("chain rule " <> rule.rule_id <> " dispatch child job: ") created
          (dispatch job_id s)
      else chain_kept created s
  chain_turn rule job_id result (s, some e) =
      let existing = record result {
        existing = suc result.existing;
        existing_job_ids = result.existing_job_ids ++ job_id ∷ [];
      } in
      if not (has_part "job_id already exists" (to_lower e))
      then record {
        service = s;
        result = result;
        error = some ("chain rule " <> rule.rule_id <> " create job: " <> e);
      }
      else if rule.auto_dispatch && can_dispatch (get_job job_id s.agent_jobs)
      then chain_dispatched ("chain rule " <> rule.rule_id <> " dispatch existing job: ") existing
          (dispatch job_id s)
      else chain_kept existing s

-- the rules that the status of the job calls for
unfoldable pub called : AgentJob → ChainRule → Bool
called parent rule = trim_space rule.on_status == trim_space parent.status

-- an error ends the loop
abbrev pub chain_or : Option String → Chained → Chained → Chained
chain_or none turn rest = rest
chain_or (some e) turn rest = turn

-- `chainRulesFromPayload`; what is read of a value is an argument
unfoldable pub rules_from : (Value → Result ChainRules) → Option Value → Result (Option ChainRules)
rules_from decode none = ok none
rules_from decode (some null) = ok none
rules_from decode (some raw) = do rules ← decode raw; validate_chain_rules rules; ok (some rules)

unfoldable pub chain_rules_from_payload :
    (Value → Result ChainRules) → Option Fields → Result (Option ChainRules)
unfolding rules_from
chain_rules_from_payload decode none = ok none
chain_rules_from_payload decode (some payload) = rules_from decode (get "chain_rules" payload)

abbrev pub no_chain : String → AgentJobChainResult
no_chain parent_job_id = record {
  parent_job_id = parent_job_id;
  considered = 0;
  created = 0;
  existing = 0;
  dispatched = 0;
  telegram_requested = 0;
  created_job_ids = [];
  existing_job_ids = [];
}

module _ (encode : (d : Domain) → Saved d → String) (checksum : String → String)
    (dispatch : String → Service → Outcome) where
  unfoldable pub chain_loop :
      Env → AgentJob → List ChainRule → Service → AgentJobChainResult → Chained
  unfolding chain_turn chained_agent_job called
  chain_loop env parent [] s result = chain_kept result s
  chain_loop env parent (rule ∷ rules) s result =
      let child = chained_agent_job checksum env.now parent rule in
      let turn =
        chain_turn dispatch rule child.job_id (record result { considered = suc result.considered })
          (create_agent_job encode env child s) in
      let passed = chain_loop env parent rules s result in
      let later = chain_loop env parent rules turn.service turn.result in
      if called parent rule then chain_or turn.error turn later else passed

  unfoldable pub chain_found : Env → AgentJob → Service → Result (Option ChainRules) → Chained
  unfolding chain_loop
  chain_found env parent s (err e) = record {
    service = s;
    result = no_chain parent.job_id;
    error = some e;
  }
  chain_found env parent s (ok none) = chain_kept (no_chain parent.job_id) s
  chain_found env parent s (ok (some rules)) =
      chain_loop env parent rules.rules s (no_chain parent.job_id)

  unfoldable pub apply_agent_job_chain :
      Env → (Value → Result ChainRules) → AgentJob → Service → Chained
  unfolding chain_found chain_rules_from_payload
  apply_agent_job_chain env decode parent s =
      chain_found env parent s (chain_rules_from_payload decode parent.payload)
