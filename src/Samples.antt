-- ===== src/Samples.antt =====
-- A concrete run and concrete records, for the examples.
use layeros.Base.{String, true, false, Option, some, none, List, [], ◌∷◌, length}
use layeros.Text.{decimal, ◌<>◌}
use layeros.Json.{texts}
use layeros.Types.Work.{WorkItem, Branch, ProposalItem}
use layeros.Types.Delivery.{ApprovalItem, ReleasePacket, DeployRun}
use layeros.Types.Control.{PolicyDecision}
use layeros.Types.Events.{SystemMemory, EventEnvelope}
use layeros.Types.Review.{ReviewRoom}
use layeros.Stores.Company.{default_company_state}
use layeros.Env.{
  Env, Domain, branch, proposal, agent_job, observation, continuity, work, flow, approval, event,
  release, deploy, rollback, target, preflight, policy, gateway, execute, verify, review_room,
  memory, auth, state,
}
use layeros.State.{Service, Saved}

abbrev size {ℓ} : {A : Type ℓ} → List A → String
size xs = decimal (length xs)

-- A stand-in for json.Marshal: how many items a domain has.
unfoldable pub encode : (d : Domain) → Saved d → String
unfolding decimal
encode branch v = size v
encode proposal v = size v
encode agent_job v = size v
encode observation v = v
encode continuity v = v
encode work v = size v
encode flow v = size v
encode approval v = size v
encode event v = size v
encode release v = size v
encode deploy v = size v
encode rollback v = size v
encode target v = size v
encode preflight v = size v
encode policy v = size v
encode gateway v = size v
encode execute v = size v
encode verify v = size v
encode review_room v = size v.open_items
encode memory v = v.current_focus
encode auth v = v.write_token_hash
encode state v = decimal v.work_items_active <> "/" <> decimal v.approvals_pending

abbrev pub env : Env
env = record {
  now = 100;
  event_at = 101;
  event_stamp = "t101";
  actor = "codex";
  event_retention = 2;
  is_word = λ _. true;
  audit_items = none;
  lease_error = none;
  save_error = λ _. none;
  second_error = λ _. none;
}

-- the same run where the file of the work items cannot be written
abbrev work_error : Domain → Option String
work_error work = some "disk full"
work_error d = none

abbrev pub env_full : Env
env_full = record env { save_error = work_error }

abbrev pub item : WorkItem
item = record {
  id = "W1";
  branch_id = none;
  title = "Title";
  intent = "Intent";
  stage = "discover";
  surface = "api";
  pack = "default";
  priority = "high";
  risk = "low";
  requires_approval = false;
  payload = some (texts []);
  correlation_id = "c";
  created_at = 90;
}

abbrev pub approved_item : ApprovalItem
approved_item = record {
  approval_id = "A1";
  work_item_id = "W1";
  stage = "release";
  summary = "Ship it";
  risks = some [];
  rollback_plan = "revert";
  decision_surface = "cockpit";
  status = "approved";
  requested_at = 80;
  resolved_at = some 85;
}

abbrev pub packet : ReleasePacket
packet = record {
  release_id = "R1";
  work_item_id = "W1";
  target = "vm";
  channel = "stable";
  artifacts = none;
  metrics = none;
  rollback_plan = "revert";
  approval_refs = some ("A1" ∷ []);
  released_at = none;
}

abbrev pub deploy_item : DeployRun
deploy_item = record {
  deploy_id = "D1";
  release_id = "R9";
  target = "";
  status = "failed";
  notes = none;
  started_at = 0;
  finished_at = none;
}

abbrev pub policy_item : PolicyDecision
policy_item = record {
  decision_id = "P1";
  intent = "ship";
  scope = "repo";
  risk = "low";
  novelty = "low";
  token_class = "small";
  requires_approval = false;
  mode = "local";
  decision = "go";
  reasons = some [];
  created_at = 70;
}

abbrev pub proposal_item : ProposalItem
proposal_item = record {
  proposal_id = "Q1";
  branch_id = none;
  title = "Propose";
  intent = "Intent";
  summary = "";
  surface = "telegram";
  priority = "low";
  risk = "low";
  status = "";
  notes = none;
  promoted_work_item_id = none;
  created_at = 0;
  updated_at = 0;
}

abbrev pub branch_item : Branch
branch_item = record {
  branch_id = "B1";
  parent_branch_id = none;
  root_branch_id = "";
  title = "Branch";
  intent = "Intent";
  summary = "";
  stage = "";
  surface = "";
  status = "";
  basis_ref = none;
  merge_target_branch_id = none;
  merged_at = none;
  notes = none;
  created_at = 0;
  updated_at = 0;
}

abbrev pub envelope : String → EventEnvelope
envelope id = record {
  event_id = id;
  kind = "note";
  actor = "codex";
  surface = "api";
  work_item_id = "system";
  stage = "discover";
  timestamp = 5;
  event_data = some (texts []);
}

abbrev pub room : ReviewRoom
room = record {
  source = "review_room.json";
  accepted = [];
  open_items = [];
  deferred = [];
  issues = [];
  updated_at = none;
}

abbrev pub memory_item : SystemMemory
memory_item = record {
  current_focus = "focus";
  current_goal = none;
  next_steps = some [];
  open_risks = some [];
  handoff_note = none;
  last_operator = none;
  updated_at = 60;
}

-- A service whose memory holds an approval, a policy and a work item, and whose files are as `files`.
abbrev pub service_on : (Domain → String) → Service
service_on files = record {
  company = default_company_state;
  branches = [];
  proposals = [];
  agent_jobs = [];
  observations = "";
  continuity_records = "";
  work_items = item ∷ [];
  flows = [];
  approvals = approved_item ∷ [];
  events = record { items = []; pending_archive = []; archived_count = 0; limit = 2 };
  releases = [];
  deploys = [];
  rollbacks = [];
  targets = [];
  preflights = [];
  policies = policy_item ∷ [];
  gateway_calls = [];
  executes = [];
  verifications = [];
  room = room;
  system_memory = memory_item;
  auth_config = record {
    write_token_hash = "";
    scoped_token_hashes = none;
    auth_updated_at = none;
  };
  persisted = files;
  disk = record { file = files; archive = []; sealed_room = none };
}

abbrev pub no_files : Domain → String
no_files _ = ""

abbrev pub service : Service
service = service_on no_files
