-- ===== src/Runtime/Commands.antt =====
-- internal/runtime/service_release.go, service_control.go, deploy.go, verify.go: the methods that run a
-- command, ExecuteDeploy, ExecuteRollback and RunVerification. They hold no lock while the command
-- runs: `s` is the service before it, `t` the service after it, whatever other methods did between.
pub mod Answered
pub mod Deployed
pub mod Verified
use Prim.Native.Char.{len_utf8}
use Prim.Native.String.{len}
use layeros.Base.{
  ℕ, zero, suc, ◌-◌, String, not, Option, some, none, List, [], ◌∷◌, ◌++◌, Result, ok, err, ◌>>◌,
  reject_if, if◌then◌else◌, ◌==◌, leb,
}
use layeros.Text.{◌<>◌, trim_space}
use layeros.Types.Vocabulary.{items}
use layeros.Types.Delivery.{ReleasePacket, DeployRun, RollbackRun, DeployTarget}
use layeros.Types.Control.{VerificationRecord}
use layeros.Files.{clean, is_abs}
use layeros.Stores.Delivery.{get_release, get_target}
use layeros.Env.{Env, Domain}
use layeros.State.{Service, Saved}
use layeros.Persist.{Outcome}
use layeros.Runtime.Delivery.{create_deploy, create_rollback}
use layeros.Runtime.Verify.{create_verification}

-- What a command answered: its output, and its error.
pub record Ran : Type 0 where
  pub output : String
  pub error : Option String

-- `DeployAdapter` and `VerifyAdapter`
pub record Command (Target : Type 0) : Type 0 where
  pub name : String
  pub run : Target → Ran

-- What a method answers that may answer a value beside its error.
pub record Answer (Value : Type 0) : Type 0 where
  pub value : Option Value
  pub error : Option String

cut_bytes : ℕ → String
cut_bytes zero = ""
cut_bytes (suc n) = "�" <> cut_bytes n

-- `s[:left]` in bytes; of a character that is cut each byte stands as json.Marshal writes it
unfoldable pub cut : ℕ → String → String
unfolding cut_bytes
cut left String.[] = String.[]
cut left (String.◌∷◌ c s) =
    let rest = cut (left - len_utf8 c) s in
    if leb (len_utf8 c) left then String.◌∷◌ c rest else cut_bytes left

unfoldable pub trim_note : String → String
unfolding cut
trim_note raw = let note = trim_space raw in if leb (len note) 240 then note else cut 240 note

output_note : String → List String
unfolding trim_note
output_note output = if output == "" then [] else trim_note ("output: " <> output) ∷ []

error_note : Option String → List String
unfolding trim_note
error_note none = []
error_note (some e) = trim_note ("error: " <> e) ∷ []

abbrev or_note : String → List String → List String
or_note note [] = note ∷ []
or_note note (n ∷ ns) = n ∷ ns

-- `buildDeployNotes` and `buildVerificationNotes`, which differ in the note of a run without any
unfoldable pub build_notes : String → Option (List String) → Ran → List String
unfolding output_note error_note
build_notes otherwise base ran =
    or_note otherwise (items base ++ output_note ran.output ++ error_note ran.error)

unfoldable pub status_from_error : String → Option String → String
status_from_error passed none = passed
status_from_error passed (some e) = "failed"

unfoldable pub normalize_command : List String → Result (List String)
unfolding clean is_abs
normalize_command [] = err "verification command is required"
normalize_command (first ∷ args) =
    let executable = trim_space first in
    let absolute = clean executable in
    reject_if (executable == "") "verification executable is required"
    >> reject_if (not (is_abs executable)) "verification executable must be an absolute path"
    >> reject_if (not (is_abs absolute)) "verification executable must be an absolute path"
    >> ok (clean absolute ∷ args)

abbrev pub refuse : {A : Type 0} → String → Service → Service × Answer A
refuse e t = (t, record { value = none; error = some e })

-- the end of the three methods: the item of a command that failed is stored all the same
abbrev pub answered : {A : Type 0} → A → Option String → Outcome → Service × Answer A
answered item error (t, none) = (t, record { value = some item; error = error })
answered item error (t, some e) = refuse e t

abbrev pub with_target : ReleasePacket → Option DeployTarget → Result (ReleasePacket × DeployTarget)
with_target release none = err "deploy target not found"
with_target release (some target) = ok (release, target)

unfoldable pub target_of :
    String → Option ReleasePacket → List DeployTarget → Result (ReleasePacket × DeployTarget)
target_of missing none targets = err missing
target_of missing (some release) targets = with_target release (get_target release.target targets)

unfoldable pub deploy_run :
    Env
    → Command DeployTarget
    → String
    → String
    → Option (List String)
    → ReleasePacket
    → Ran
    → DeployRun
unfolding build_notes status_from_error
deploy_run env adapter deploy_id release_id base_notes release ran = record {
  deploy_id = deploy_id;
  release_id = release_id;
  target = release.target;
  status = status_from_error "succeeded" ran.error;
  notes = some (build_notes "adapter executed" base_notes ran ++ ("adapter:" <> adapter.name) ∷ []);
  started_at = env.now;
  finished_at = some env.now;
}

unfoldable pub rollback_run :
    Env
    → Command DeployTarget
    → String
    → String
    → String
    → Option (List String)
    → ReleasePacket
    → Ran
    → RollbackRun
unfolding build_notes status_from_error
rollback_run env adapter rollback_id release_id deploy_id base_notes release ran = record {
  rollback_id = rollback_id;
  release_id = release_id;
  deploy_id = let id = trim_space deploy_id in if id == "" then none else some id;
  target = release.target;
  status = status_from_error "succeeded" ran.error;
  notes = some (build_notes "adapter executed" base_notes ran ++ ("adapter:" <> adapter.name) ∷ []);
  started_at = env.now;
  finished_at = some env.now;
}

unfoldable pub verification_run :
    Env
    → Command (List String × String)
    → String
    → String
    → Option (List String)
    → List String
    → Ran
    → VerificationRecord
unfolding build_notes status_from_error
verification_run env adapter record_id scope base_notes command ran = record {
  record_id = record_id;
  scope = scope;
  command = some command;
  status = status_from_error "passed" ran.error;
  notes =
      some
        (build_notes "verification executed" base_notes ran ++ ("adapter:" <> adapter.name) ∷ []);
  started_at = env.now;
  finished_at = some env.now;
}

abbrev pub with_plan :
    {A B : Type 0} → Result A → Service → (A → Service × Answer B) → Service × Answer B
with_plan (err e) t next = refuse e t
with_plan (ok a) t next = next a

module _ (encode : (d : Domain) → Saved d → String) where
  unfoldable pub execute_deploy :
      Env
      → Command DeployTarget
      → String
      → String
      → Option (List String)
      → Service
      → Service
      → Service × Answer DeployRun
  unfolding target_of
  execute_deploy env adapter deploy_id release_id base_notes s t =
      with_plan
        (target_of "deploy release_id not found" (get_release release_id s.releases) s.targets) t
        (λ plan.
          let ran = adapter.run plan.1 in
          let item = deploy_run env adapter deploy_id release_id base_notes plan.0 ran in
          answered item ran.error (create_deploy encode env item t))

  unfoldable pub execute_rollback :
      Env
      → Command DeployTarget
      → String
      → String
      → String
      → Option (List String)
      → Service
      → Service
      → Service × Answer RollbackRun
  unfolding target_of
  execute_rollback env adapter rollback_id release_id deploy_id base_notes s t =
      with_plan
        (target_of "rollback release_id not found" (get_release release_id s.releases) s.targets) t
        (λ plan.
          let ran = adapter.run plan.1 in
          let item =
            rollback_run env adapter rollback_id release_id deploy_id base_notes plan.0 ran in
          answered item ran.error (create_rollback encode env item t))

  unfoldable pub run_verification :
      Env
      → Command (List String × String)
      → String
      → String
      → String
      → List String
      → Option (List String)
      → Service
      → Service × Answer VerificationRecord
  unfolding normalize_command
  run_verification env adapter record_id scope workdir command base_notes t =
      with_plan (normalize_command command) t (λ normalized.
        let ran = adapter.run (normalized, workdir) in
        let item = verification_run env adapter record_id scope base_notes normalized ran in
        answered item ran.error (create_verification encode env item t))
