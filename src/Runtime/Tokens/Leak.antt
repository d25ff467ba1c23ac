-- ===== src/Runtime/Tokens/Leak.antt =====
-- What an error of the methods on the token of writes leaves of the configuration.
use mathlib.Core.Path.{subst}
use layeros.Base.{
  String, true, false, ◌≡◌, refl, sym, ap, ◌∙◌, ◌⊎◌, inl, inr, Option, none, some, Result, ok, ◌==◌,
}
use layeros.Env.{Env, Domain}
use layeros.State.{Service, Saved, AuthConfig}
use layeros.Auth.{Hashes, hashes, set_token, authorize, resolve_actor}
use layeros.Auth.Authorize.{IsHash, authorize_of_hash, hash_of-set_token, founder-hashes}
use layeros.Persist.{Outcome}
use layeros.Runtime.Intact.Undone.{finish-undone, checked-undone}
use layeros.Runtime.{checked, restored_events}
use layeros.Runtime.Tokens.{keep_token, set_write_token, old_config, shared_hashes}

module _ (encode : (d : Domain) → Saved d → String) where
  keep_token-error :
      (env : Env) (kind : String) (next : AuthConfig) (s : Service) (e : String)
      → (keep_token encode env kind next s).1 ≡ some e
      → (keep_token encode env kind next s).0.auth_config ≡ old_config s.auth_config next
  unfolding keep_token
  keep_token-error env kind next s e p =
      finish-undone encode env (λ t. t.auth_config ≡ old_config s.auth_config next) _
        (λ t. record t { auth_config = old_config s.auth_config next })
        (λ t. restored_events env s (record t { auth_config = old_config s.auth_config next }))
        (record s { auth_config = next }) e refl (λ v. refl) p

checked-ok :
    {A : Type 0} (r : Result A) (s : Service) (k : A → Outcome) (a : A)
    → r ≡ ok a
    → checked r s k ≡ k a
checked-ok {A = A} r s k a h = ap (λ (r : Result A). checked r s k) h

shared_hashes-same : (map : Option Hashes) → shared_hashes map map ≡ map
shared_hashes-same none = refl
shared_hashes-same (some hs) = refl

-- Where the map of the actors' tokens is nil, or the founder sets it, an error of SetWriteToken, of
-- whatever stage, leaves the configuration of the tokens as it was.
pub set_write_token-restored :
    (encode : (d : Domain) → Saved d → String) (hash_token : String → String) (variable : String)
    (env : Env) (token : String) (s : Service) (e : String)
    → (s.auth_config.scoped_token_hashes ≡ none)
      ⊎ ((resolve_actor variable env.actor == "founder") ≡ true)
    → (set_write_token encode hash_token variable env token s).1 ≡ some e
    → (set_write_token encode hash_token variable env token s).0.auth_config ≡ s.auth_config
unfolding set_write_token old_config
set_write_token-restored encode hash_token variable env token s e safe =
    checked-undone (λ t. t.auth_config ≡ s.auth_config)
      (set_token hash_token variable token env.actor env.now s.auth_config) s _ e refl
      (λ next set p.
        keep_token-error encode env "auth.enabled" next s e p
        ∙ ap (λ hs. record s.auth_config { scoped_token_hashes = hs }) (kept next set safe))
  where
    kept :
        (next : AuthConfig)
        → set_token hash_token variable token env.actor env.now s.auth_config ≡ ok next
        → (s.auth_config.scoped_token_hashes ≡ none)
          ⊎ ((resolve_actor variable env.actor == "founder") ≡ true)
        → shared_hashes s.auth_config.scoped_token_hashes next.scoped_token_hashes
          ≡ s.auth_config.scoped_token_hashes
    kept next set (inl nil) = rw nil
    kept next set (inr founder) =
        ap (shared_hashes s.auth_config.scoped_token_hashes) (
          founder-hashes hash_token variable token env.actor env.now s.auth_config next set founder)
        ∙ shared_hashes-same s.auth_config.scoped_token_hashes

-- With a hash that is not blank or spaced, where the map of the actors' tokens is not nil, an actor that is not the founder and whose SetWriteToken
-- passes the check of the store is allowed with its token even though the method answered an error.
pub set_write_token-leaks :
    (encode : (d : Domain) → Saved d → String) (hash_token : String → String) (variable : String)
    (env : Env) (token : String) (s : Service) (e : String) (hs : Hashes) (next : AuthConfig)
    → IsHash hash_token
    → s.auth_config.scoped_token_hashes ≡ some hs
    → (resolve_actor variable env.actor == "founder") ≡ false
    → set_token hash_token variable token env.actor env.now s.auth_config ≡ ok next
    → (set_write_token encode hash_token variable env token s).1 ≡ some e
    → authorize hash_token variable token env.actor
        (set_write_token encode hash_token variable env token s).0.auth_config
      ≡ true
unfolding set_write_token old_config
set_write_token-leaks encode hash_token variable env token s e hs next clean some_map other set p =
    let left = keep_token encode env "auth.enabled" next s in
    let run =
      checked-ok (set_token hash_token variable token env.actor env.now s.auth_config) s
        (λ n. keep_token encode env "auth.enabled" n s) next set in
    let config =
      keep_token-error encode env "auth.enabled" next s e
        (sym (ap (λ (o : Outcome). o.1) run) ∙ p) in
    let same : old_config s.auth_config next
        ≡ record s.auth_config { scoped_token_hashes = some (hashes next.scoped_token_hashes) } =
      ap
        (λ l. record s.auth_config {
          scoped_token_hashes = shared_hashes l next.scoped_token_hashes;
        })
        some_map in
    subst (λ (c : AuthConfig). authorize hash_token variable token env.actor c ≡ true)
      (sym (ap (λ (o : Outcome). o.0.auth_config) run ∙ config ∙ same))
      (authorize_of_hash hash_token variable token env.actor _ clean (
        hash_of-set_token hash_token variable token env.actor env.now s.auth_config next set other))
