-- ===== src/Runtime/Jobs/Chain/Balanced.antt =====
-- What ApplyAgentJobChain of service_job_chain.go counts.
use layeros.Base.{ℕ, suc, ◌≡◌, Option, some, none, List, [], ◌∷◌, Result, ok, if◌then◌else◌}
use layeros.Types.Jobs.{AgentJob, ChainRule, ChainRules}
use layeros.Env.{Env}
use layeros.Runtime.Jobs.Chain.{Chained, called}
use layeros.Runtime.Jobs.Chain.Turns.{Balanced}

-- how many rules the status of the job calls for
unfoldable pub count_called : AgentJob → List ChainRule → ℕ
count_called parent [] = 0
count_called parent (rule ∷ rules) =
    let rest = count_called parent rules in if called parent rule then suc rest else rest

abbrev pub rules_of : Option ChainRules → List ChainRule
rules_of none = []
rules_of (some rules) = rules.rules

-- the rules were read, and each that the status of the job calls for was considered
pub record Tallied (found : Result (Option ChainRules)) (parent : AgentJob) (c : Chained)
    : Type 0 where
  pub rules : Option ChainRules
  pub read : found ≡ ok rules
  pub considered : c.result.considered ≡ count_called parent (rules_of rules)
  pub balanced : Balanced c.result
