-- ===== src/CommandExamples.antt =====
-- The theorems on the methods that run a command, on concrete runs.
use layeros.Base.{◌⊎◌, some, none, [], ◌∷◌}
use layeros.Types.Delivery.{DeployTarget}
use layeros.State.{Service}
use layeros.Runtime.Commands.{Command, execute_deploy, execute_rollback, run_verification}
use layeros.Runtime.Commands.Answered.{Refused}
use layeros.Runtime.Commands.Deployed.{
  Deployed, RolledBack, execute_deploy-Answered, execute_rollback-Answered,
}
use layeros.Runtime.Commands.Verified.{Verified, run_verification-Answered}
use layeros.Samples.{encode, env, service, packet}

-- a command that fails
abbrev command : {A : Type 0} → Command A
command = record { name = "command"; run = λ _. record { output = "out"; error = some "exit 1" } }

abbrev target : DeployTarget
target = record { target_id = "vm"; command = some ("/bin/true" ∷ []); workdir = none }

abbrev deploy_service : Service
deploy_service = record service { releases = packet ∷ []; targets = target ∷ [] }

execute_deploy-Answered_example :
    let run = execute_deploy encode env command "D1" "R1" none deploy_service deploy_service in
    Refused env deploy_service run
    ⊎ Deployed encode env command "R1" deploy_service deploy_service run
execute_deploy-Answered_example =
    execute_deploy-Answered encode env command "D1" "R1" none deploy_service deploy_service

execute_rollback-Answered_example :
    let run = execute_rollback encode env command "B1" "R1" "" none deploy_service deploy_service in
    Refused env deploy_service run
    ⊎ RolledBack encode env command "R1" deploy_service deploy_service run
execute_rollback-Answered_example =
    execute_rollback-Answered encode env command "B1" "R1" "" none deploy_service deploy_service

run_verification-Answered_example :
    let run =
      run_verification encode env command "V1" "repo" "" ("/usr/bin/go" ∷ []) none service in
    Refused env service run ⊎ Verified encode env command "" ("/usr/bin/go" ∷ []) service run
run_verification-Answered_example =
    run_verification-Answered encode env command "V1" "repo" "" ("/usr/bin/go" ∷ []) none service
