-- ===== src/State.antt =====
-- internal/runtime/service.go: what a Service holds, and what a `persistDomain` reads of it.
use layeros.Base.{String, Option, List}
use layeros.Types.Vocabulary.{Time}
use layeros.Types.Work.{WorkItem, Branch, ProposalItem}
use layeros.Types.Delivery.{ApprovalItem, ReleasePacket, DeployRun, RollbackRun, DeployTarget}
use layeros.Types.Control.{
  FlowRun, PreflightRecord, PolicyDecision, GatewayCall, ExecuteRun, VerificationRecord,
}
use layeros.Types.Events.{EventEnvelope, SystemMemory}
use layeros.Types.Jobs.{AgentJob}
use layeros.Types.Review.{ReviewRoom}
use layeros.Stores.Company.{CompanyState}
use layeros.EventStore.{EventStore}
use layeros.Env.{
  Domain, branch, proposal, agent_job, observation, continuity, work, flow, approval, event,
  release, deploy, rollback, target, preflight, policy, gateway, execute, verify, review_room,
  memory, auth, state,
}

-- internal/runtime/auth.go
pub record AuthConfig : Type 0 where
  pub write_token_hash : String
  pub scoped_token_hashes : Option (List (String × String))
  pub auth_updated_at : Option Time

-- The data directory: the file of each domain by its text, the archive, and the room under seal.
pub record Disk : Type 0 where
  pub file : Domain → String
  pub archive : List EventEnvelope
  pub sealed_room : Option ReviewRoom

-- Observations and continuity records stand as texts: no modelled operation reads them.
pub record Service : Type 0 where
  pub company : CompanyState
  pub branches : List Branch
  pub proposals : List ProposalItem
  pub agent_jobs : List AgentJob
  pub observations : String
  pub continuity_records : String
  pub work_items : List WorkItem
  pub flows : List FlowRun
  pub approvals : List ApprovalItem
  pub events : EventStore
  pub releases : List ReleasePacket
  pub deploys : List DeployRun
  pub rollbacks : List RollbackRun
  pub targets : List DeployTarget
  pub preflights : List PreflightRecord
  pub policies : List PolicyDecision
  pub gateway_calls : List GatewayCall
  pub executes : List ExecuteRun
  pub verifications : List VerificationRecord
  pub room : ReviewRoom
  pub system_memory : SystemMemory
  pub auth_config : AuthConfig
  pub persisted : Domain → String
  pub disk : Disk

-- What a domain saves, by its type and from a service.
abbrev pub Saved : Domain → Type 0
Saved branch = List Branch
Saved proposal = List ProposalItem
Saved agent_job = List AgentJob
Saved observation = String
Saved continuity = String
Saved work = List WorkItem
Saved flow = List FlowRun
Saved approval = List ApprovalItem
Saved event = List EventEnvelope
Saved release = List ReleasePacket
Saved deploy = List DeployRun
Saved rollback = List RollbackRun
Saved target = List DeployTarget
Saved preflight = List PreflightRecord
Saved policy = List PolicyDecision
Saved gateway = List GatewayCall
Saved execute = List ExecuteRun
Saved verify = List VerificationRecord
Saved review_room = ReviewRoom
Saved memory = SystemMemory
Saved auth = AuthConfig
Saved state = CompanyState

abbrev pub saved : (d : Domain) → Service → Saved d
saved branch s = s.branches
saved proposal s = s.proposals
saved agent_job s = s.agent_jobs
saved observation s = s.observations
saved continuity s = s.continuity_records
saved work s = s.work_items
saved flow s = s.flows
saved approval s = s.approvals
saved event s = s.events.items
saved release s = s.releases
saved deploy s = s.deploys
saved rollback s = s.rollbacks
saved target s = s.targets
saved preflight s = s.preflights
saved policy s = s.policies
saved gateway s = s.gateway_calls
saved execute s = s.executes
saved verify s = s.verifications
saved review_room s = s.room
saved memory s = s.system_memory
saved auth s = s.auth_config
saved state s = s.company
