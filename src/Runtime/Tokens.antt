-- ===== src/Runtime/Tokens.antt =====
-- internal/runtime/service.go: the token of writes. The store of the configuration hands out a copy
-- whose map of scoped hashes is the store's own, so that the copy kept for the rollback has the map
-- after the change, unless it was the nil map. A map that a failed clear has emptied is kept: empty, and
-- still shared.
pub mod Leak
use layeros.Base.{String, Option, none, some, [], ◌∷◌}
use layeros.Json.{Fields, field, flag, text, end}
use layeros.Env.{Env, Domain}
use layeros.State.{Service, Saved, AuthConfig}
use layeros.Auth.{Hashes, hashes, set_token, clear_token, auth_enabled}
use layeros.Persist.{Outcome}
use layeros.Runtime.{checked, finish, no_more, new_system_event, restored_events}

-- the map that the old copy refers to, after the store has changed its map in place
abbrev pub shared_hashes : Option Hashes → Option Hashes → Option Hashes
shared_hashes none after = none
shared_hashes (some hs) after = some (hashes after)

-- the old copy of the configuration as it reads after the change
unfoldable pub old_config : AuthConfig → AuthConfig → AuthConfig
old_config old next = record old {
  scoped_token_hashes = shared_hashes old.scoped_token_hashes next.scoped_token_hashes;
}

abbrev pub token_fields : AuthConfig → String → Fields
token_fields config actor =
    field "write_auth_enabled" (flag (auth_enabled config)) (field "actor" (text actor) end)

-- the rest of both methods, behind the change of the store
module _ (encode : (d : Domain) → Saved d → String) where
  unfoldable pub keep_token : Env → String → AuthConfig → Service → Outcome
  unfolding auth_enabled
  keep_token env kind next s =
      let old = old_config s.auth_config next in
      finish encode env (new_system_event env kind (token_fields next env.actor)) no_more
        (λ t. record t { auth_config = old })
        (λ t. restored_events env s (record t { auth_config = old }))
        (record s { auth_config = next })

  unfoldable pub clear_write_token : String → Env → Service → Outcome
  unfolding keep_token
  clear_write_token variable env s =
      keep_token env "auth.cleared" (clear_token variable env.actor env.now s.auth_config) s

  unfoldable pub set_write_token : (String → String) → String → Env → String → Service → Outcome
  unfolding keep_token
  set_write_token hash_token variable env token s =
      checked (set_token hash_token variable token env.actor env.now s.auth_config) s
        (λ next. keep_token env "auth.enabled" next s)
