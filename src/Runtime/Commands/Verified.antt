-- ===== src/Runtime/Commands/Verified.antt =====
-- What RunVerification leaves, whatever its command answers.
use mathlib.Core.Path.{subst}
use layeros.Base.{
  String, ◌≡◌, ◌⊎◌, refl, Option, some, List, [], ◌∷◌, true, ok, inl, reject_if-eq-ok, not,
  not-eq-false, ok_inj, ◌==◌, ap, sym, ◌∙◌,
}
use layeros.Types.Control.{VerificationRecord}
use package.text.Mathlib.TextPositions.{starts_with-append}
use layeros.Text.{trim_space}
use layeros.Files.{is_abs, clean}
use layeros.Env.{Env, Domain}
use layeros.State.{Service, Saved}
use layeros.Runtime.Verify.{create_verification}
use layeros.Runtime.Verify.Rollback.{create_verification-atomic, create_verification-SameRoom}
use layeros.Runtime.Commands.{
  Command, Answer, answered, verification_run, run_verification, normalize_command,
}
use layeros.Runtime.Commands.Answered.{
  Refused, Recorded, answered-cases, refuse-Refused, with_plan-cases, stored-or,
}

-- a verification was stored after its command, by an absolute path, ran
pub record Verified (encode : (d : Domain) → Saved d → String) (env : Env)
    (adapter : Command (List String × String)) (workdir : String) (command : List String)
    (t : Service) (run : Service × Answer VerificationRecord) : Type 0 where
  pub executable : String
  pub args : List String
  pub absolute : is_abs executable ≡ true
  pub normalized : normalize_command command ≡ ok (executable ∷ args)
  pub item : VerificationRecord
  pub same_command : item.command ≡ some (executable ∷ args)
  pub recorded :
      Recorded item item.status "passed"
        (adapter.run (executable ∷ args, workdir)).error
        (create_verification encode env item t)
        run

is_abs-clean : (path : String) → is_abs path ≡ true → is_abs (clean path) ≡ true
unfolding is_abs clean
is_abs-clean path h = rw h (starts_with-append "/" _)

record Normal (parts : List String) : Type 0 where
  pub executable : String
  pub args : List String
  pub absolute : is_abs executable ≡ true
  pub same : parts ≡ executable ∷ args

normalize_command-Normal :
    (command parts : List String) → normalize_command command ≡ ok parts → Normal parts
unfolding normalize_command
normalize_command-Normal [] parts h = cc
normalize_command-Normal (first ∷ args) parts h =
    let executable = trim_space first in
    let (_, h1) = reject_if-eq-ok (executable == "") "verification executable is required" _ h in
    let (_, h2) =
      reject_if-eq-ok (not (is_abs executable)) "verification executable must be an absolute path" _
        h1 in
    let (absolute, h3) =
      reject_if-eq-ok (not (is_abs (clean executable)))
        "verification executable must be an absolute path" _ h2 in
    record {
      executable = clean (clean executable);
      args = args;
      absolute = is_abs-clean (clean executable) (not-eq-false _ absolute);
      same = sym (ok_inj h3);
    }

-- Whatever the command of RunVerification answers, either the method answers an error and no record
-- and leaves every store in memory as it was, the review room as it was or as its copy normalized
-- again, with the files and the limit of the log left open, or the record is stored as
-- CreateVerification stores it, with a command whose executable is an absolute path and which is the
-- one that was run, its status is passed exactly where the method answers no error, and it is what the
-- method answers beside that error.
pub run_verification-Answered :
    (encode : (d : Domain) → Saved d → String) (env : Env)
    (adapter : Command (List String × String)) (record_id scope workdir : String)
    (command : List String) (base_notes : Option (List String)) (t : Service)
    → let run = run_verification encode env adapter record_id scope workdir command base_notes t in
      Refused env t run ⊎ Verified encode env adapter workdir command t run
unfolding run_verification verification_run
run_verification-Answered encode env adapter record_id scope workdir command base_notes t =
    with_plan-cases (λ run. Refused env t run ⊎ Verified encode env adapter workdir command t run)
      (normalize_command command) t _ (λ e. inl (refuse-Refused env e t))
      (λ parts normalized.
        let normal = normalize_command-Normal command parts normalized in
        let ran = adapter.run (parts, workdir) in
        let item = verification_run env adapter record_id scope base_notes parts ran in
        stored-or
          (answered-cases env item "passed" ran.error t (create_verification encode env item t) refl
            (λ e. create_verification-atomic encode env t e item)
            (λ e. create_verification-SameRoom encode env t e item))
          (λ recorded. record {
            executable = normal.executable;
            args = normal.args;
            absolute = normal.absolute;
            normalized = normalized ∙ ap ok normal.same;
            item = item;
            same_command = ap some normal.same;
            recorded =
                subst
                  (λ run_parts.
                    Recorded item item.status "passed" (adapter.run (run_parts, workdir)).error
                      (create_verification encode env item t)
                      (answered item ran.error (create_verification encode env item t)))
                  normal.same recorded;
          }))
