-- ===== src/Stores/Company.antt =====
-- internal/runtime/state.go, memory.go
use layeros.Base.{ℕ, String, Option, none, List, [], ◌∷◌, Result, ok, ◌>>◌, if◌then◌else◌, ◌==◌}
use layeros.Types.Vocabulary.{Time}
use layeros.Types.Events.{SystemMemory, validate_system_memory}

-- CompanyState, without the fields that Status derives and no modelled operation keeps
pub record CompanyState : Type 0 where
  pub shell_mode : String
  pub approvals_pending : ℕ
  pub work_items_active : ℕ
  pub memory_health : String
  pub deploy_health : String
  pub primary_surface : String
  pub active_surfaces : List String
  pub last_release_at : Option Time

unfoldable pub default_company_state : CompanyState
default_company_state = record {
  shell_mode = "founder";
  approvals_pending = 0;
  work_items_active = 0;
  memory_health = "ready";
  deploy_health = "ready";
  primary_surface = "cockpit";
  active_surfaces = "cockpit" ∷ "telegram" ∷ "api" ∷ [];
  last_release_at = none;
}

unfoldable pub update_work_items_active : ℕ → CompanyState → CompanyState
update_work_items_active count s = record s { work_items_active = count }

unfoldable pub update_approvals_pending : ℕ → CompanyState → CompanyState
update_approvals_pending count s = record s { approvals_pending = count }

unfoldable pub update_last_release_at : Option Time → CompanyState → CompanyState
update_last_release_at released_at s = record s { last_release_at = released_at }

unfoldable pub update_deploy_health : String → CompanyState → CompanyState
update_deploy_health status s = record s {
  deploy_health = if status == "failed" then "degraded" else "ready";
}

unfoldable pub replace_memory : SystemMemory → Result SystemMemory
replace_memory memory = do validate_system_memory memory; ok memory
