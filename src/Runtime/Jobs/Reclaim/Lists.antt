-- ===== src/Runtime/Jobs/Reclaim/Lists.antt =====
-- Lists of agent jobs of which one is replaced.
use layeros.Base.{
  String, Bool, true, false, ◌≡◌, ◌⊎◌, refl, ap, sym, ◌∙◌, Option, List, [], ◌∷◌, ok, inl, inr,
  Bool-cases, if◌then◌else◌, ◌==◌, ◌||◌, eq_iff, or-eq-false, replace_by, ok_inj, or-true, ==_refl,
  >>=-eq-ok,
}
use mathlib.Core.Path.{subst}
use layeros.Text.{seen}
use layeros.Json.{Fields}
use layeros.Types.Vocabulary.{Time}
use layeros.Types.Jobs.{AgentJob, validate_agent_job}
use layeros.Stores.Jobs.{has_job, updated_job}

-- no two jobs have one identifier, as the store of jobs has it
unfoldable pub DistinctIds : List AgentJob → Type 0
DistinctIds [] = Unit
DistinctIds (job ∷ jobs) = (has_job job.job_id jobs ≡ false) × DistinctIds jobs

-- the jobs that run are among those with a key
unfoldable pub StoppedBut : List String → List AgentJob → Type 0
StoppedBut keys [] = Unit
StoppedBut keys (job ∷ jobs) =
    (((job.status == "running") ≡ false) ⊎ (seen job.job_id keys ≡ true)) × StoppedBut keys jobs

abbrev pub running_ids : List AgentJob → List String
running_ids [] = []
running_ids (job ∷ jobs) =
    let rest = running_ids jobs in if job.status == "running" then job.job_id ∷ rest else rest

pub ne_sym : (a b : String) → (a == b) ≡ false → (b == a) ≡ false
ne_sym a b h = elim (Bool-cases (b == a)) [
  | inl e ↦ cc ((eq_iff a b).1 (sym ((eq_iff b a).0 e)))
  | inr e ↦ e
]

-- a job with another identifier does not need the key
other-key :
    {P : Type 0} (id : String) (keys : List String) (job_id : String)
    → (job_id == id) ≡ false
    → P ⊎ (seen job_id (id ∷ keys) ≡ true)
    → P ⊎ (seen job_id keys ≡ true)
unfolding seen
other-key id keys job_id other (inl p) = inl p
other-key id keys job_id other (inr h) = inr (rw (ne_sym job_id id other) at h)

drop-StoppedBut :
    (id : String) (keys : List String) (jobs : List AgentJob)
    → has_job id jobs ≡ false
    → StoppedBut (id ∷ keys) jobs
    → StoppedBut keys jobs
unfolding StoppedBut has_job
drop-StoppedBut id keys [] none_left stopped = tt
drop-StoppedBut id keys (x ∷ xs) none_left stopped =
    let (other, rest) = or-eq-false (x.job_id == id) (has_job id xs) none_left in
    (other-key id keys x.job_id other stopped.0, drop-StoppedBut id keys xs rest stopped.1)

pub replace-StoppedBut :
    (id : String) (keys : List String) (job : AgentJob) (jobs : List AgentJob)
    → job.status ≡ "failed"
    → DistinctIds jobs
    → StoppedBut (id ∷ keys) jobs
    → StoppedBut keys (replace_by (λ j. j.job_id) id job jobs)
unfolding StoppedBut DistinctIds
replace-StoppedBut id keys job [] failed distinct stopped = tt
replace-StoppedBut id keys job (x ∷ xs) failed distinct stopped =
    elim (Bool-cases (x.job_id == id)) [
      | inl same ↦ rw same (
        inl (rw failed refl),
        drop-StoppedBut id keys xs
            (subst (λ k. has_job k xs ≡ false) ((eq_iff x.job_id id).0 same) distinct.0) stopped.1,
      )
      | inr other ↦ rw other (
        other-key id keys x.job_id other stopped.0,
        replace-StoppedBut id keys job xs failed distinct.1 stopped.1,
      )
    ]

replace-has_job :
    (k id : String) (job : AgentJob) (jobs : List AgentJob)
    → job.job_id ≡ id
    → has_job k (replace_by (λ j. j.job_id) id job jobs) ≡ has_job k jobs
unfolding has_job
replace-has_job k id job [] same = refl
replace-has_job k id job (x ∷ xs) same = elim (Bool-cases (x.job_id == id)) [
  | inl here ↦
      rw here (ap (λ i. (i == k) || has_job k xs) (same ∙ sym ((eq_iff x.job_id id).0 here)))
  | inr other ↦ rw other (ap (λ b. (x.job_id == k) || b) (replace-has_job k id job xs same))
]

pub replace-DistinctIds :
    (id : String) (job : AgentJob) (jobs : List AgentJob)
    → job.job_id ≡ id
    → DistinctIds jobs
    → DistinctIds (replace_by (λ j. j.job_id) id job jobs)
unfolding DistinctIds
replace-DistinctIds id job [] same distinct = tt
replace-DistinctIds id job (x ∷ xs) same distinct = elim (Bool-cases (x.job_id == id)) [
  | inl here ↦ rw here (
    subst (λ k. has_job k xs ≡ false) ((eq_iff x.job_id id).0 here ∙ sym same) distinct.0,
    distinct.1,
  )
  | inr other ↦ rw other (
    replace-has_job x.job_id id job xs same ∙ distinct.0,
    replace-DistinctIds id job xs same distinct.1,
  )
]

-- a larger list of keys does as well
keep-StoppedBut :
    (id : String) (keys : List String) (jobs : List AgentJob)
    → StoppedBut keys jobs
    → StoppedBut (id ∷ keys) jobs
unfolding StoppedBut seen
keep-StoppedBut id keys [] stopped = tt
keep-StoppedBut id keys (x ∷ xs) stopped =
    (more_keys stopped.0, keep-StoppedBut id keys xs stopped.1)
  where
    more_keys :
        {P : Type 0}
        → P ⊎ (seen x.job_id keys ≡ true)
        → P ⊎ (((id == x.job_id) || seen x.job_id keys) ≡ true)
    more_keys (inl p) = inl p
    more_keys (inr h) = inr (rw h (or-true (id == x.job_id)))

front-StoppedBut :
    (b : Bool) (x : AgentJob) (keys : List String) (xs : List AgentJob)
    → (x.status == "running") ≡ b
    → StoppedBut keys xs
    → StoppedBut (if b then x.job_id ∷ keys else keys) (x ∷ xs)
unfolding StoppedBut seen
front-StoppedBut true x keys xs runs stopped =
    (inr (rw (==_refl x.job_id) refl), keep-StoppedBut x.job_id keys xs stopped)
front-StoppedBut false x keys xs rests stopped = (inl rests, stopped)

-- all that run have a key
pub running_ids-StoppedBut : (jobs : List AgentJob) → StoppedBut (running_ids jobs) jobs
unfolding StoppedBut
running_ids-StoppedBut [] = tt
running_ids-StoppedBut (x ∷ xs) =
    front-StoppedBut (x.status == "running") x (running_ids xs) xs refl (running_ids-StoppedBut xs)

-- what an update keeps and sets
pub updated_job-fields :
    (status : String) (notes : Option (List String)) (result : Option Fields) (now : Time)
    (old new : AgentJob)
    → updated_job status notes result now old ≡ ok new
    → (new.job_id ≡ old.job_id) × (new.status ≡ status)
unfolding updated_job
updated_job-fields status notes result now old new h =
    let (_, _, made) = >>=-eq-ok (validate_agent_job _) _ h in
    (
      sym (ap (λ (j : AgentJob). j.job_id) (ok_inj made)),
      sym (ap (λ (j : AgentJob). j.status) (ok_inj made)),
    )
