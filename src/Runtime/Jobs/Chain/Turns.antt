-- ===== src/Runtime/Jobs/Chain/Turns.antt =====
-- What one turn of the loop of ApplyAgentJobChain counts.
use Prim.Native.Nat.{◌≤◌}
use layeros.Base.{
  ℕ, suc, ◌+◌, String, Bool, true, false, not, ◌&&◌, ◌≡◌, refl, some, none, [], ◌∷◌, ◌++◌, length,
  length-append, arith, if◌then◌else◌,
}
use layeros.Text.{to_lower}
use layeros.Types.Jobs.{ChainRule}
use layeros.State.{Service}
use layeros.Persist.{Outcome}
use layeros.Stores.Jobs.{get_job}
use layeros.Runtime.Jobs.Report.{AgentJobChainResult}
use layeros.Runtime.Jobs.Chain.{
  Chained, chain_dispatched, chain_kept, chain_turn, has_part, can_dispatch,
}

-- every rule that was considered has either created a job or found one, and the lists are as long as
-- what was counted
pub record Balanced (r : AgentJobChainResult) : Type 0 where
  pub all : r.considered ≡ r.created + r.existing
  pub created_ids : length r.created_job_ids ≡ r.created
  pub existing_ids : length r.existing_job_ids ≡ r.existing
  pub sent : r.dispatched ≤ r.considered
  pub asked : r.telegram_requested ≤ r.created

-- the same before a dispatch is counted
record Loose (r : AgentJobChainResult) : Type 0 where
  pub all : r.considered ≡ r.created + r.existing
  pub created_ids : length r.created_job_ids ≡ r.created
  pub existing_ids : length r.existing_job_ids ≡ r.existing
  pub sent : suc r.dispatched ≤ r.considered
  pub asked : r.telegram_requested ≤ r.created

unfoldable pub Counts : ℕ → Chained → Type 0
Counts n c = c.error ≡ none → (c.result.considered ≡ n) × Balanced c.result

if-Counts :
    (n : ℕ) (b : Bool) (x y : Chained) → Counts n x → Counts n y → Counts n (if b then x else y)
if-Counts n true x y p q = p
if-Counts n false x y p q = q

kept-Counts :
    (r : AgentJobChainResult) (s : Service) → Loose r → Counts r.considered (chain_kept r s)
unfolding Counts chain_kept
kept-Counts r s l h = (
  refl,
  record {
    all = l.all;
    created_ids = l.created_ids;
    existing_ids = l.existing_ids;
    sent = omega (arith, l.sent);
    asked = l.asked;
  },
)

dispatched-Counts :
    (prefix : String) (r : AgentJobChainResult) (o : Outcome)
    → Loose r
    → Counts r.considered (chain_dispatched prefix r o)
unfolding Counts chain_dispatched
dispatched-Counts prefix r (s, none) l h = (
  refl,
  record {
    all = l.all;
    created_ids = l.created_ids;
    existing_ids = l.existing_ids;
    sent = l.sent;
    asked = l.asked;
  },
)
dispatched-Counts prefix r (s, some e) l h = cc h

asked-at-most :
    (b : Bool) (asked created : ℕ)
    → asked ≤ created
    → (if b then suc asked else asked) ≤ suc created
asked-at-most true asked created h = omega (arith, h)
asked-at-most false asked created h = omega (arith, h)

failed-Counts :
    (n : ℕ) (s : Service) (r : AgentJobChainResult) (e : String)
    → Counts n (record { service = s; result = r; error = some e })
unfolding Counts
failed-Counts n s r e h = cc h

pub turn-Counts :
    (dispatch : String → Service → Outcome) (rule : ChainRule) (job_id : String)
    (r : AgentJobChainResult) (o : Outcome)
    → Balanced r
    → Counts
        (suc r.considered)
        (chain_turn dispatch rule job_id (record r { considered = suc r.considered }) o)
unfolding chain_turn
turn-Counts dispatch rule job_id r (s, none) b =
    let created : AgentJobChainResult = record r {
      considered = suc r.considered;
      created = suc r.created;
      created_job_ids = r.created_job_ids ++ job_id ∷ [];
      telegram_requested =
          if rule.notify_telegram then suc r.telegram_requested else r.telegram_requested;
    } in
    let loose : Loose created = record {
      all = omega (arith, b.all);
      created_ids = omega (arith, length-append r.created_job_ids (job_id ∷ []), b.created_ids);
      existing_ids = b.existing_ids;
      sent = omega (arith, b.sent);
      asked = asked-at-most rule.notify_telegram r.telegram_requested r.created b.asked;
    } in
    if-Counts (suc r.considered) rule.auto_dispatch _ _
      (dispatched-Counts _ created (dispatch job_id s) loose) (kept-Counts created s loose)
turn-Counts dispatch rule job_id r (s, some e) b =
    let existing : AgentJobChainResult = record r {
      considered = suc r.considered;
      existing = suc r.existing;
      existing_job_ids = r.existing_job_ids ++ job_id ∷ [];
    } in
    let loose : Loose existing = record {
      all = omega (arith, b.all);
      created_ids = b.created_ids;
      existing_ids = omega (arith, length-append r.existing_job_ids (job_id ∷ []), b.existing_ids);
      sent = omega (arith, b.sent);
      asked = b.asked;
    } in
    if-Counts (suc r.considered) (not (has_part "job_id already exists" (to_lower e))) _ _
      (failed-Counts (suc r.considered) s _ _)
      (if-Counts (suc r.considered)
        (rule.auto_dispatch && can_dispatch (get_job job_id s.agent_jobs)) _ _
        (dispatched-Counts _ existing (dispatch job_id s) loose) (kept-Counts existing s loose))
