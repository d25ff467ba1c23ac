-- ===== src/TokenExamples.antt =====
-- The theorems on tokens on concrete runs, with a stand-in for the hash.
use layeros.Base.{
  String, true, false, ◌≡◌, refl, inl, inr, Option, some, none, ok, [], ◌∷◌, Bool-cases,
  if◌then◌else◌, ◌==◌,
}
use layeros.Text.{trim_space}
use layeros.State.{AuthConfig, Service}
use layeros.Env.{Env, Domain, event}
use layeros.Auth.{auth_enabled, clear_token, set_token, authorize, resolve_actor}
use layeros.Auth.Authorize.{IsHash, Authorized, authorize-Authorized, set_token-authorize}
use layeros.Auth.Others.{Revoked, clear_token-Revoked, set_token-others}
use layeros.Runtime.Tokens.{set_write_token}
use layeros.Runtime.Tokens.Leak.{set_write_token-restored, set_write_token-leaks}
use layeros.Samples.{encode, env, service}

abbrev hash : String → String
hash t = if t == "secret" then "5ec" else "0ff"

hash-IsHash : IsHash hash
unfolding IsHash trim_space layeros.Text.is_blank
hash-IsHash t = elim (Bool-cases (t == "secret")) [
  | inl p ↦ rw p (refl, refl)
  | inr p ↦ rw p (refl, refl)
]

-- the event log cannot be written
abbrev event_error : Domain → Option String
event_error event = some "disk full"
event_error d = none

abbrev env_full : Env
env_full = record env { save_error = event_error }

abbrev config : AuthConfig
config = record {
  write_token_hash = "";
  scoped_token_hashes = some (("claude", "abc") ∷ []);
  auth_updated_at = none;
}

abbrev config_after : AuthConfig
config_after = record {
  write_token_hash = "";
  scoped_token_hashes = some (("codex", "5ec") ∷ ("claude", "abc") ∷ []);
  auth_updated_at = some 100;
}

set_run : set_token hash "" "secret" "codex" 100 config ≡ ok config_after
unfolding set_token trim_space layeros.Text.to_lower
set_run = refl

set_token-authorize_example : authorize hash "" "secret" "codex" config_after ≡ true
set_token-authorize_example =
    set_token-authorize hash "" "secret" "codex" 100 config config_after hash-IsHash set_run

authorize_run : authorize hash "" "secret" "codex" config_after ≡ true
unfolding authorize layeros.Text.is_blank layeros.Text.to_lower
authorize_run = refl

authorize-Authorized_example : Authorized hash "" "secret" "codex" config_after
authorize-Authorized_example =
    authorize-Authorized hash "" "secret" "codex" config_after authorize_run

abbrev with_tokens : Service
with_tokens = record service { auth_config = config }

no_token_run : (set_write_token encode hash "" env_full "secret" service).1 ≡ some "disk full"
unfolding set_write_token set_token trim_space layeros.Runtime.finish layeros.Runtime.log
    layeros.EventStore.append_event layeros.Types.Events.validate_event_envelope
    layeros.Text.is_blank layeros.Runtime.new_system_event layeros.EventStore.new_event
    layeros.Types.Vocabulary.valid_surface layeros.Types.Vocabulary.valid_stage
    layeros.Types.Vocabulary.validate_map layeros.Json.validate_object
    layeros.Persist.persist_locked layeros.Persist.persist_snapshot layeros.Persist.persist_flagged
    layeros.Persist.any_dirty layeros.Persist.persist_domains layeros.Persist.is_dirty encode
    layeros.Persist.synced layeros.Review.Sync.sync_audit_room layeros.Persist.save_all
    layeros.Persist.save layeros.EventStore.retain
no_token_run = refl

set_write_token-restored_example :
    (set_write_token encode hash "" env_full "secret" service).0.auth_config ≡ service.auth_config
set_write_token-restored_example =
    set_write_token-restored encode hash "" env_full "secret" service "disk full" (inl refl)
      no_token_run

actor_run : (resolve_actor "" "codex" == "founder") ≡ false
unfolding resolve_actor trim_space layeros.Text.to_lower
actor_run = refl

failed_run : (set_write_token encode hash "" env_full "secret" with_tokens).1 ≡ some "disk full"
unfolding set_write_token set_token trim_space layeros.Runtime.finish layeros.Runtime.log
    layeros.EventStore.append_event layeros.Types.Events.validate_event_envelope
    layeros.Text.is_blank layeros.Runtime.new_system_event layeros.EventStore.new_event
    layeros.Types.Vocabulary.valid_surface layeros.Types.Vocabulary.valid_stage
    layeros.Types.Vocabulary.validate_map layeros.Json.validate_object
    layeros.Persist.persist_locked layeros.Persist.persist_snapshot layeros.Persist.persist_flagged
    layeros.Persist.any_dirty layeros.Persist.persist_domains layeros.Persist.is_dirty encode
    layeros.Persist.synced layeros.Review.Sync.sync_audit_room layeros.Persist.save_all
    layeros.Persist.save layeros.EventStore.retain
failed_run = refl

set_write_token-leaks_example :
    authorize hash "" "secret" "codex"
      (set_write_token encode hash "" env_full "secret" with_tokens).0.auth_config
    ≡ true
set_write_token-leaks_example =
    set_write_token-leaks encode hash "" env_full "secret" with_tokens "disk full"
      (("claude", "abc") ∷ []) config_after hash-IsHash refl actor_run set_run failed_run

enabled_run : auth_enabled config ≡ true
unfolding auth_enabled layeros.Text.is_blank
enabled_run = refl

apart_run : (resolve_actor "" "codex" == resolve_actor "" "Claude") ≡ false
unfolding resolve_actor trim_space layeros.Text.to_lower
apart_run = refl

set_token-others_example :
    authorize hash "" "guess" "Claude" config_after ≡ authorize hash "" "guess" "Claude" config
set_token-others_example =
    set_token-others hash "" "secret" "codex" "guess" "Claude" 100 config config_after hash-IsHash
      enabled_run actor_run apart_run set_run

abbrev founder_config : AuthConfig
founder_config = record config_after { write_token_hash = "5ec" }

cleared_run : authorize hash "" "secret" "codex" (clear_token "" "codex" 110 founder_config) ≡ true
unfolding authorize layeros.Text.is_blank clear_token layeros.Text.to_lower
cleared_run = refl

clear_token-Revoked_example :
    Revoked (hash (trim_space "secret")) (clear_token "" "codex" 110 founder_config)
clear_token-Revoked_example =
    clear_token-Revoked hash "" "secret" "codex" 110 founder_config actor_run cleared_run
