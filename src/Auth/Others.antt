-- ===== src/Auth/Others.antt =====
-- What a change of one actor's token means for the others, and what a cleared token can do.
use layeros.Base.{
  String, Bool, true, false, not, ◌≡◌, refl, sym, ap, ◌∙◌, ◌⊎◌, inl, inr, [], ◌∷◌, ok, Bool-cases,
  if◌then◌else◌, ◌==◌, or-true,
}
use layeros.Text.{trim_space, is_blank}
use layeros.Types.Vocabulary.{Time}
use layeros.State.{AuthConfig}
use layeros.Auth.{
  Hashes, hashes, hash_of, delete_hash, put_hash, any_hash, auth_enabled, resolve_actor, set_token,
  clear_token, matches, authorize,
}
use layeros.Auth.Authorize.{
  IsHash, ByHash, Authorized, authorize-Authorized, set_token-parts, hash_of-clear, if-elim,
  true-ne-false, eq_of, actor_set,
}

-- a token that only the founder's hash allows
pub Revoked : String → AuthConfig → Type 0
Revoked sum config =
    (auth_enabled config ≡ false)
    ⊎ ((is_blank config.write_token_hash ≡ false) × (sum ≡ config.write_token_hash))

trim_space_empty : trim_space "" ≡ ""
unfolding trim_space
trim_space_empty = refl

Authorized-Revoked :
    (hash_token : String → String) (variable token candidate : String) (config : AuthConfig)
    → hash_of (resolve_actor variable candidate) (hashes config.scoped_token_hashes) ≡ ""
    → Authorized hash_token variable token candidate config
    → Revoked (hash_token (trim_space token)) config
unfolding Revoked Authorized ByHash
Authorized-Revoked hash_token variable token candidate config gone (inl off) = inl off
Authorized-Revoked hash_token variable token candidate config gone (inr (inr founder)) = inr founder
Authorized-Revoked hash_token variable token candidate config gone (inr (inl (named, same))) =
    elim (true-ne-false
      (sym (ap (λ s. s == "") (ap trim_space gone ∙ trim_space_empty)) ∙ named)) [ ]

-- After an actor that is not the founder has cleared its token, a token that authorize allows for it
-- has the founder's hash, unless writes need no token any more.
pub clear_token-Revoked :
    (hash_token : String → String) (variable token candidate : String) (now : Time)
    (config : AuthConfig)
    → (resolve_actor variable candidate == "founder") ≡ false
    → authorize hash_token variable token candidate (clear_token variable candidate now config)
      ≡ true
    → Revoked (hash_token (trim_space token)) (clear_token variable candidate now config)
unfolding clear_token
clear_token-Revoked hash_token variable token candidate now config other =
    if-elim
      (λ c.
        authorize hash_token variable token candidate c ≡ true
        → Revoked (hash_token (trim_space token)) c)
      (resolve_actor variable candidate == "founder") _ _
      (λ founder _. elim (true-ne-false (sym founder ∙ other)) [ ])
      (λ _ h.
        Authorized-Revoked hash_token variable token candidate _
          (hash_of-clear (resolve_actor variable candidate) config.scoped_token_hashes)
          (authorize-Authorized hash_token variable token candidate _ h))

hash_of-delete_other :
    (a b : String) (hs : Hashes) → (a == b) ≡ false → hash_of b (delete_hash a hs) ≡ hash_of b hs
unfolding hash_of delete_hash
hash_of-delete_other a b [] other = refl
hash_of-delete_other a b ((k, h) ∷ hs) other =
    let rest = hash_of-delete_other a b hs other in
    elim (Bool-cases (k == a)) [
      | inl same ↦ rw (same, eq_of k a same, other) rest
      | inr apart ↦ elim (Bool-cases (k == b)) [
        | inl named ↦ rw (apart, hash_of, named)
        | inr unnamed ↦ rw (apart, hash_of, unnamed) rest
      ]
    ]

if_on : (b x : Bool) → b ≡ true → (if not b then true else x) ≡ x
if_on true x h = refl
if_on false x h = cc

-- where writes need a token, the hashes decide
authorize-on :
    (hash_token : String → String) (variable token candidate : String) (config : AuthConfig)
    → auth_enabled config ≡ true
    → authorize hash_token variable token candidate config
      ≡ matches
          (hash_token (trim_space token))
          (trim_space
            (hash_of (resolve_actor variable candidate) (hashes config.scoped_token_hashes)))
          config
unfolding authorize
authorize-on hash_token variable token candidate config on = if_on (auth_enabled config) _ on

hash_of-put_other :
    (a b h : String) (hs : Hashes) → (a == b) ≡ false → hash_of b (put_hash a h hs) ≡ hash_of b hs
unfolding hash_of put_hash
hash_of-put_other a b h hs apart = rw apart (hash_of-delete_other a b hs apart)

matches-actor_set :
    (sum scoped actor h : String) (now : Time) (config : AuthConfig)
    → matches sum scoped (actor_set config actor h now) ≡ matches sum scoped config
unfolding matches
matches-actor_set sum scoped actor h now config = refl

actor_set-on :
    (actor h : String) (now : Time) (config : AuthConfig)
    → is_blank h ≡ false
    → auth_enabled (actor_set config actor h now) ≡ true
unfolding auth_enabled any_hash put_hash
actor_set-on actor h now config held = rw held (or-true (not (is_blank config.write_token_hash)))

-- Where writes need a token, an actor that is not the founder and sets its own changes nothing of what
-- authorize answers for another actor, with a hash that is not blank and has no space around it.
pub set_token-others :
    (hash_token : String → String) (variable token a other_token b : String) (now : Time)
    (config next : AuthConfig)
    → IsHash hash_token
    → auth_enabled config ≡ true
    → (resolve_actor variable a == "founder") ≡ false
    → (resolve_actor variable a == resolve_actor variable b) ≡ false
    → set_token hash_token variable token a now config ≡ ok next
    → authorize hash_token variable other_token b next
      ≡ authorize hash_token variable other_token b config
unfolding IsHash
set_token-others hash_token variable token a other_token b now config next clean on other apart h =
    let sum = hash_token (trim_space token) in
    let actor = resolve_actor variable a in
    let sum_b = hash_token (trim_space other_token) in
    let set = actor_set config actor sum now in
    set_token-parts hash_token variable token a now config next
      (λ c.
        authorize hash_token variable other_token b c
        ≡ authorize hash_token variable other_token b config)
      h (λ founder. elim (true-ne-false (sym founder ∙ other)) [ ])
      (λ _.
        authorize-on hash_token variable other_token b set
          (actor_set-on actor sum now config (clean (trim_space token)).1)
        ∙ matches-actor_set sum_b _ actor sum now config
        ∙ ap (λ s. matches sum_b (trim_space s) config)
            (hash_of-put_other actor (resolve_actor variable b) sum
              (hashes config.scoped_token_hashes) apart)
        ∙ sym (authorize-on hash_token variable other_token b config on))
