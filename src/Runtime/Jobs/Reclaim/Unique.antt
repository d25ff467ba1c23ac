-- ===== src/Runtime/Jobs/Reclaim/Unique.antt =====
-- The store of agent jobs keeps its identifiers distinct.
use layeros.Base.{
  String, false, ◌≡◌, refl, sym, ◌∙◌, Option, List, [], ◌∷◌, ◌++◌, ok, ◌==◌, or-eq-false,
  reject_if-eq-ok, >>=-eq-ok, ok_inj, find_by-key,
}
use mathlib.Core.Path.{subst}
use layeros.Json.{Fields}
use layeros.Types.Vocabulary.{Time}
use layeros.Types.Jobs.{AgentJob, validate_agent_job}
use layeros.Stores.Jobs.{has_job, create_job, update_job, updated_job}
use layeros.Stores.Loop.{update_first-eq-ok}
use layeros.Runtime.Jobs.Reclaim.Lists.{
  ne_sym, DistinctIds, updated_job-fields, replace-DistinctIds,
}

append-has_job :
    (k : String) (item : AgentJob) (jobs : List AgentJob)
    → has_job k jobs ≡ false
    → (item.job_id == k) ≡ false
    → has_job k (jobs ++ item ∷ []) ≡ false
unfolding has_job
append-has_job k item [] h other = rw other refl
append-has_job k item (x ∷ xs) h other =
    let (here, rest) = or-eq-false (x.job_id == k) (has_job k xs) h in
    rw (here, append-has_job k item xs rest other) refl

append-DistinctIds :
    (item : AgentJob) (jobs : List AgentJob)
    → has_job item.job_id jobs ≡ false
    → DistinctIds jobs
    → DistinctIds (jobs ++ item ∷ [])
unfolding DistinctIds has_job
append-DistinctIds item [] h distinct = (refl, tt)
append-DistinctIds item (x ∷ xs) h distinct =
    let (other, rest) = or-eq-false (x.job_id == item.job_id) (has_job item.job_id xs) h in
    (
      append-has_job x.job_id item xs distinct.0 (ne_sym x.job_id item.job_id other),
      append-DistinctIds item xs rest distinct.1,
    )

-- what creations and updates make of an empty store
pub data Reachable : List AgentJob → Type 0 where
  empty : Reachable []
  created :
      {jobs after : List AgentJob} (item : AgentJob)
      → Reachable jobs
      → create_job item jobs ≡ ok after
      → Reachable after
  updated :
      {jobs after : List AgentJob} (id status : String) (notes : Option (List String))
      (result : Option Fields) (now : Time) (job : AgentJob)
      → Reachable jobs
      → update_job id status notes result now jobs ≡ ok (job, after)
      → Reachable after

create_job-DistinctIds :
    (item : AgentJob) (jobs after : List AgentJob)
    → DistinctIds jobs
    → create_job item jobs ≡ ok after
    → DistinctIds after
unfolding create_job
create_job-DistinctIds item jobs after distinct h =
    let (_, _, h1) = >>=-eq-ok (validate_agent_job item) _ h in
    let (fresh, h2) = reject_if-eq-ok (has_job item.job_id jobs) "job_id already exists" _ h1 in
    subst DistinctIds (ok_inj h2) (append-DistinctIds item jobs fresh distinct)

update_job-DistinctIds :
    (id status : String) (notes : Option (List String)) (result : Option Fields) (now : Time)
    (job : AgentJob) (jobs after : List AgentJob)
    → DistinctIds jobs
    → update_job id status notes result now jobs ≡ ok (job, after)
    → DistinctIds after
unfolding update_job
update_job-DistinctIds id status notes result now job jobs after distinct h =
    let (old, found, changed, put) =
      update_first-eq-ok (λ (j : AgentJob). j.job_id) id "job_id not found"
        (updated_job status notes result now) jobs {y = job} {ys = after} h in
    let fields = updated_job-fields status notes result now old job changed in
    subst DistinctIds (sym put) (
      replace-DistinctIds id job jobs
        (fields.0 ∙ find_by-key (λ (j : AgentJob). j.job_id) id jobs {x = old} found) distinct)

-- No two jobs of a store that creations and updates make of an empty one have one identifier.
pub Reachable-DistinctIds : {jobs : List AgentJob} → Reachable jobs → DistinctIds jobs
unfolding DistinctIds
Reachable-DistinctIds empty = tt
Reachable-DistinctIds {jobs} (created {jobs = old} item reached h) =
    create_job-DistinctIds item old jobs (Reachable-DistinctIds reached) h
Reachable-DistinctIds {jobs} (updated {jobs = old} id status notes result now job reached h) =
    update_job-DistinctIds id status notes result now job old jobs (Reachable-DistinctIds reached) h
