-- ===== src/Runtime/Jobs/Chain/Settled.antt =====
-- A chain whose jobs are all there already changes nothing.
use layeros.Base.{
  ℕ, suc, ◌+◌, String, Bool, true, false, ◌≡◌, ◌⊎◌, refl, sym, ap, ◌∙◌, some, none, List, [], ◌∷◌,
  Result, ok, err, inl, inr, if◌then◌else◌, All, arith,
}
use mathlib.Core.Path.{subst}
use layeros.Text.{to_lower}
use layeros.Json.{Value}
use layeros.Types.Vocabulary.{Time, is_zero}
use layeros.Types.Jobs.{AgentJob, ChainRule, ChainRules, validate_agent_job, validate_chain_rule}
use layeros.Stores.Jobs.{has_job, create_job}
use layeros.Env.{Env, Domain}
use layeros.State.{Service, Saved}
use layeros.Persist.{Outcome}
use layeros.Runtime.{checked}
use layeros.Runtime.Work.{ensure_active_branch}
use layeros.Runtime.Jobs.{normalize_job, create_agent_job}
use layeros.Runtime.Jobs.Report.{AgentJobChainResult}
use layeros.Runtime.Jobs.Chain.{
  Chained, chain_kept, chain_turn, chain_or, called, chained_agent_job, chain_loop, has_part,
  derive_chained_job_id, no_chain, chain_rules_from_payload, chain_found, apply_agent_job_chain,
}
use layeros.Runtime.Jobs.Chain.Valid.{chained_agent_job-valid}
use layeros.Runtime.Jobs.Chain.Balanced.{count_called}

-- a rule that passes its check, dispatches nothing, and whose job is there if it is called for
pub record Settled (checksum : String → String) (parent : AgentJob) (s : Service) (rule : ChainRule)
    : Type 0 where
  pub valid : validate_chain_rule rule ≡ ok tt
  pub quiet : rule.auto_dispatch ≡ false
  pub present :
      (called parent rule ≡ false)
      ⊎ (has_job (derive_chained_job_id checksum parent.job_id rule) s.agent_jobs ≡ true)

-- nothing but the count of the jobs that are there has changed
pub record Unchanged (s : Service) (r : AgentJobChainResult) (n : ℕ) (c : Chained) : Type 0 where
  pub no_error : c.error ≡ none
  pub same_service : c.service ≡ s
  pub no_new : c.result.created ≡ r.created
  pub found : c.result.existing ≡ r.existing + n

normalize_job-chained :
    (checksum : String → String) (now : Time) (parent : AgentJob) (rule : ChainRule)
    → is_zero now ≡ false
    → normalize_job now (chained_agent_job checksum now parent rule)
      ≡ chained_agent_job checksum now parent rule
unfolding normalize_job chained_agent_job
normalize_job-chained checksum now parent rule clock = rw clock refl

create_job-exists :
    (item : AgentJob) (jobs : List AgentJob)
    → validate_agent_job item ≡ ok tt
    → has_job item.job_id jobs ≡ true
    → create_job item jobs ≡ err "job_id already exists"
unfolding create_job
create_job-exists item jobs valid there = rw (valid, there) refl

called-Unchanged :
    (b : Bool) (s : Service) (r : AgentJobChainResult) (n : ℕ) (x y : Chained)
    → (b ≡ true → Unchanged s r (suc n) x)
    → (b ≡ false → Unchanged s r n y)
    → Unchanged s r (if b then suc n else n) (if b then x else y)
called-Unchanged true s r n x y f g = f refl
called-Unchanged false s r n x y f g = g refl

wanted_there : {P : Type 0} (b : Bool) → b ≡ true → (b ≡ false) ⊎ P → P
wanted_there b h (inl other) = cc
wanted_there b h (inr there) = there

-- a turn that changed nothing, and the rest of the loop
or-Unchanged :
    (s : Service) (r : AgentJobChainResult) (n : ℕ) (turn rest : Chained)
    → Unchanged s r 1 turn
    → Unchanged turn.service turn.result n rest
    → Unchanged s r (suc n) (chain_or turn.error turn rest)
or-Unchanged s r n turn rest u v =
    subst (λ o. Unchanged s r (suc n) (chain_or o turn rest)) (sym u.no_error)
      (record {
        no_error = v.no_error;
        same_service = v.same_service ∙ u.same_service;
        no_new = v.no_new ∙ u.no_new;
        found = omega (arith, v.found, u.found);
      })

checked_err :
    {A : Type 0} (r : Result A) (s : Service) (k : A → Outcome) {e : String}
    → r ≡ err e
    → checked r s k ≡ (s, some e)
checked_err r s k h = ap (λ x. checked x s k) h

module _ (encode : (d : Domain) → Saved d → String) (checksum : String → String)
    (dispatch : String → Service → Outcome) (env : Env) (parent : AgentJob)
    (clock : is_zero env.now ≡ false) (parent_valid : validate_agent_job parent ≡ ok tt) where
  -- creating a job that is there is refused
  create-exists :
      (rule : ChainRule) (s : Service)
      → validate_chain_rule rule ≡ ok tt
      → has_job (derive_chained_job_id checksum parent.job_id rule) s.agent_jobs ≡ true
      → create_agent_job encode env (chained_agent_job checksum env.now parent rule) s
        ≡ (s, some "job_id already exists")
  unfolding create_agent_job ensure_active_branch chained_agent_job
  create-exists rule s valid there =
      let child = chained_agent_job checksum env.now parent rule in
      let refused : create_job (normalize_job env.now child) s.agent_jobs
          ≡ err "job_id already exists" =
        ap (λ (j : AgentJob). create_job j s.agent_jobs)
          (normalize_job-chained checksum env.now parent rule clock)
        ∙ create_job-exists child s.agent_jobs
            (chained_agent_job-valid checksum env.now parent rule clock parent_valid valid) there in
      checked_err (create_job (normalize_job env.now child) s.agent_jobs) s _ refused

  turn-exists :
      (rule : ChainRule) (job_id : String) (s : Service) (r : AgentJobChainResult)
      → rule.auto_dispatch ≡ false
      → Unchanged s r 1 (
          chain_turn dispatch rule job_id
            (record r { considered = suc r.considered })
            (s, some "job_id already exists"))
  unfolding chain_turn chain_kept has_part to_lower
  turn-exists rule job_id s r quiet =
      rw quiet (record { no_error = refl; same_service = refl; no_new = refl; found = omega arith })

  chain_turn-Unchanged :
      (rule : ChainRule) (s : Service) (r : AgentJobChainResult)
      → Settled checksum parent s rule
      → has_job (derive_chained_job_id checksum parent.job_id rule) s.agent_jobs ≡ true
      → let child = chained_agent_job checksum env.now parent rule in
        Unchanged s r 1 (
          chain_turn dispatch rule child.job_id
            (record r { considered = suc r.considered })
            (create_agent_job encode env child s))
  chain_turn-Unchanged rule s r h there =
      subst
        (λ o. Unchanged s r 1 (
          chain_turn dispatch rule (chained_agent_job checksum env.now parent rule).job_id
            (record r { considered = suc r.considered }) o))
        (sym (create-exists rule s h.valid there)) (turn-exists rule _ s r h.quiet)

  chain_loop-Unchanged :
      (rules : List ChainRule) (s : Service) (r : AgentJobChainResult)
      → All (Settled checksum parent s) rules
      → Unchanged s r
          (count_called parent rules)
          (chain_loop encode checksum dispatch env parent rules s r)
  unfolding chain_loop count_called chain_kept
  chain_loop-Unchanged [] s r h = record {
    no_error = refl;
    same_service = refl;
    no_new = refl;
    found = omega arith;
  }
  chain_loop-Unchanged (rule ∷ rules) s r h =
      called-Unchanged (called parent rule) s r (count_called parent rules) _ _
        (λ wanted.
          let child = chained_agent_job checksum env.now parent rule in
          let turn =
            chain_turn dispatch rule child.job_id (record r { considered = suc r.considered })
              (create_agent_job encode env child s) in
          let u =
            chain_turn-Unchanged rule s r h.0
              (wanted_there (called parent rule) wanted (h.0).present) in
          or-Unchanged s r (count_called parent rules) turn _ u (
            chain_loop-Unchanged rules turn.service turn.result
              (subst (λ t. All (Settled checksum parent t) rules) (sym u.same_service) h.1)))
        (λ other. chain_loop-Unchanged rules s r h.1)

-- With a clock that is not at Go's zero time, where a job and the rules in its payload pass their checks,
-- no rule dispatches, and the job of each rule that is called for is there already, ApplyAgentJobChain
-- answers no error, leaves the service as it was, creates no job and finds as many as there are rules
-- called for.
pub apply_agent_job_chain-Unchanged :
    (encode : (d : Domain) → Saved d → String) (checksum : String → String)
    (dispatch : String → Service → Outcome) (env : Env) (decode : Value → Result ChainRules)
    (parent : AgentJob) (s : Service) (rules : ChainRules)
    → is_zero env.now ≡ false
    → validate_agent_job parent ≡ ok tt
    → chain_rules_from_payload decode parent.payload ≡ ok (some rules)
    → All (Settled checksum parent s) rules.rules
    → Unchanged s
        (no_chain parent.job_id)
        (count_called parent rules.rules)
        (apply_agent_job_chain encode checksum dispatch env decode parent s)
unfolding apply_agent_job_chain chain_found
apply_agent_job_chain-Unchanged encode checksum dispatch env decode parent s rules clock valid read
      there =
    rw read (
      chain_loop-Unchanged encode checksum dispatch env parent clock valid rules.rules s
        (no_chain parent.job_id) there)
