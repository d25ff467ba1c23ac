-- ===== src/JobExamples.antt =====
-- The theorems on agent jobs, their chains and their reclaim at the start, on concrete jobs and rules.
use layeros.Base.{true, inr, String, false, ◌≡◌, refl, none, some, All, ◌==◌, Result, ok, [], ◌∷◌}
use layeros.Json.{Value, Fields, field, text, flag, end}
use layeros.Types.Jobs.{AgentJob, ChainRule, ChainRules, validate_agent_job, validate_chain_rule}
use layeros.Persist.{Outcome}
use layeros.State.{Service}
use layeros.Runtime.Jobs.Chain.{chained_agent_job, apply_agent_job_chain, chain_rules_from_payload}
use layeros.Runtime.Jobs.Chain.Valid.{chained_agent_job-valid}
use layeros.Types.Vocabulary.{Time}
use layeros.Stores.Jobs.{create_job, update_job}
use layeros.Runtime.Jobs.Reclaim.{reclaim_job, reclaim_stale_jobs}
use layeros.Runtime.Jobs.Reclaim.Lists.{DistinctIds}
use layeros.Runtime.Jobs.Reclaim.Stopped.{EachReclaimed, reclaim_stale_jobs-stopped}
use layeros.Runtime.Jobs.Reclaim.Unique.{Reachable, empty, created, Reachable-DistinctIds}
use layeros.Stores.Jobs.{has_job}
use layeros.Runtime.Jobs.Chain.{derive_chained_job_id, no_chain}
use layeros.Runtime.Jobs.Chain.Balanced.{count_called}
use layeros.Runtime.Jobs.Chain.Settled.{Settled, Unchanged, apply_agent_job_chain-Unchanged}
use layeros.Samples.{encode, env, service}

abbrev checksum : String → String
checksum s = "0000beef"

abbrev parent : AgentJob
parent = record {
  job_id = "J1";
  branch_id = none;
  kind = "task";
  role = "implementer";
  summary = "Write it";
  status = "succeeded";
  source = "operator";
  surface = "api";
  stage = "compose";
  ref = some " W1 ";
  payload = some (field "chain_rules" (text "rules") end);
  result = some (field "summary" (text "done") end);
  notes = some [];
  created_at = 90;
  updated_at = 90;
}

abbrev rule : ChainRule
rule = record {
  rule_id = "verify";
  on_status = "succeeded";
  next_kind = "check";
  next_role = "verifier";
  next_stage = "";
  surface = "";
  summary = "Check it";
  auto_dispatch = false;
  notify_telegram = false;
  payload = none;
  notes = none;
}

parent_valid : validate_agent_job parent ≡ ok tt
unfolding validate_agent_job layeros.Text.is_blank layeros.Types.Vocabulary.valid_agent_job_status
    layeros.Types.Vocabulary.valid_surface layeros.Types.Vocabulary.valid_stage
    layeros.Types.Vocabulary.validate_map layeros.Json.validate_object
parent_valid = refl

rule_valid : validate_chain_rule rule ≡ ok tt
unfolding validate_chain_rule layeros.Text.is_blank
    layeros.Types.Vocabulary.valid_agent_job_terminal_status layeros.Types.Vocabulary.validate_map
rule_valid = refl

chained_agent_job-valid_example :
    validate_agent_job (chained_agent_job checksum 100 parent rule) ≡ ok tt
chained_agent_job-valid_example =
    chained_agent_job-valid checksum 100 parent rule refl parent_valid rule_valid

abbrev decode : Value → Result ChainRules
decode v = ok (record { rules = rule ∷ [] })

abbrev dispatch : String → Service → Outcome
dispatch id s = (s, some "no provider")

abbrev running : AgentJob
running = record parent { status = "running" }

abbrev queued : AgentJob
queued = record parent { job_id = "J2"; status = "queued" }

abbrev job_service : Service
job_service = record service { agent_jobs = running ∷ queued ∷ [] }

ids_distinct : DistinctIds job_service.agent_jobs
unfolding DistinctIds layeros.Stores.Jobs.has_job
ids_distinct = (refl, (refl, tt))

reclaimed : (reclaim_job encode env running job_service).1 ≡ none
unfolding reclaim_job layeros.Runtime.Jobs.update_agent_job layeros.Runtime.Jobs.found_job
    layeros.Stores.Jobs.get_job update_job layeros.Stores.Loop.update_first
    layeros.Stores.Jobs.updated_job validate_agent_job layeros.Text.is_blank
    layeros.Types.Vocabulary.valid_agent_job_status layeros.Types.Vocabulary.valid_surface
    layeros.Types.Vocabulary.valid_stage layeros.Types.Vocabulary.validate_map
    layeros.Json.validate_object layeros.Json.clone_object layeros.Json.put layeros.Runtime.finish
    layeros.Runtime.log layeros.EventStore.append_event layeros.Types.Events.validate_event_envelope
    layeros.Runtime.Jobs.job_event layeros.EventStore.new_event layeros.Json.get
    layeros.Runtime.Jobs.job_room layeros.Review.Suggest.suggestion_for_job
    layeros.Review.Room.ensure_item layeros.Types.Review.normalize_review_section
    layeros.Text.to_lower layeros.Review.Items.normalize_item layeros.Review.Suggest.new_signal_item
    layeros.Review.Items.new_structured_item layeros.Review.Items.normalize_items
    layeros.Persist.persist_locked layeros.Persist.persist_snapshot layeros.Persist.persist_flagged
    layeros.Persist.any_dirty layeros.Persist.persist_domains layeros.Persist.is_dirty encode
    layeros.Persist.synced layeros.Review.Sync.sync_audit_room layeros.Persist.save_all
    layeros.Persist.save layeros.EventStore.retain layeros.Stores.Company.default_company_state
reclaimed = refl

each_reclaimed : EachReclaimed encode env job_service.agent_jobs job_service
unfolding EachReclaimed
each_reclaimed = (reclaimed, tt)

reclaim_stale_jobs-stopped_example :
    All
      (λ j. (j.status == "running") ≡ false)
      (reclaim_stale_jobs encode env job_service).agent_jobs
reclaim_stale_jobs-stopped_example =
    reclaim_stale_jobs-stopped encode env job_service ids_distinct each_reclaimed

two_jobs : Reachable (parent ∷ queued ∷ [])
unfolding create_job validate_agent_job layeros.Text.is_blank
    layeros.Types.Vocabulary.valid_agent_job_status layeros.Types.Vocabulary.valid_surface
    layeros.Types.Vocabulary.valid_stage layeros.Types.Vocabulary.validate_map
    layeros.Json.validate_object
two_jobs = created queued (created parent empty refl) refl

Reachable-DistinctIds_example : DistinctIds (parent ∷ queued ∷ [])
Reachable-DistinctIds_example = Reachable-DistinctIds two_jobs

abbrev rules : ChainRules
rules = record { rules = rule ∷ [] }

abbrev settled_service : Service
settled_service = record service { agent_jobs = chained_agent_job checksum 100 parent rule ∷ [] }

rules_read : chain_rules_from_payload decode parent.payload ≡ ok (some rules)
unfolding chain_rules_from_payload layeros.Json.get layeros.Types.Jobs.validate_chain_rules
    layeros.Types.Vocabulary.validate_each validate_chain_rule layeros.Text.is_blank
    layeros.Types.Vocabulary.valid_agent_job_terminal_status layeros.Types.Vocabulary.validate_map
rules_read = refl

child_there :
    has_job (derive_chained_job_id checksum parent.job_id rule) settled_service.agent_jobs ≡ true
unfolding has_job chained_agent_job
child_there = refl

settled : Settled checksum parent settled_service rule
settled = record { valid = rule_valid; quiet = refl; present = inr child_there }

apply_agent_job_chain-Unchanged_example :
    Unchanged settled_service
      (no_chain "J1")
      (count_called parent (rule ∷ []))
      (apply_agent_job_chain encode checksum dispatch env decode parent settled_service)
apply_agent_job_chain-Unchanged_example =
    apply_agent_job_chain-Unchanged encode checksum dispatch env decode parent settled_service rules
      refl parent_valid rules_read (settled, tt)
