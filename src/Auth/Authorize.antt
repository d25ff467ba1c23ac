-- ===== src/Auth/Authorize.antt =====
-- Who may write: what a token that is set, or cleared, changes.
use mathlib.Core.Path.{subst}
use layeros.Base.{
  Option, none, some, String, Bool, true, false, not, ◌&&◌, ◌≡◌, refl, sym, ap, ◌∙◌, ◌⊎◌, inl, inr,
  [], ◌∷◌, ok, reject_if-eq-ok, ok_inj, Bool-cases, if◌then◌else◌, ◌==◌, ==_refl, eq_iff,
  not-eq-true, and-eq-true,
}
use layeros.Text.{trim_space, is_blank}
use layeros.Types.Vocabulary.{Time}
use layeros.State.{AuthConfig}
use layeros.Auth.{
  Hashes, hashes, non_empty, clear_hash, hash_of, delete_hash, put_hash, auth_enabled,
  resolve_actor, set_token, matches, authorize,
}

hash_of-delete : (key : String) (hs : Hashes) → hash_of key (delete_hash key hs) ≡ ""
unfolding hash_of delete_hash
hash_of-delete key [] = refl
hash_of-delete key ((k, h) ∷ hs) = elim (Bool-cases (k == key)) [
  | inl same ↦ rw same (hash_of-delete key hs)
  | inr other ↦ rw (other, hash_of) (rw other (hash_of-delete key hs))
]

hashes-non_empty : (hs : Hashes) → hashes (non_empty hs) ≡ hs
unfolding non_empty
hashes-non_empty [] = refl
hashes-non_empty (h ∷ hs) = refl

pub hash_of-clear :
    (key : String) (map : Option Hashes) → hash_of key (hashes (clear_hash key map)) ≡ ""
unfolding clear_hash hash_of
hash_of-clear key none = refl
hash_of-clear key (some hs) =
    ap (hash_of key) (hashes-non_empty (delete_hash key hs)) ∙ hash_of-delete key hs

pub true-ne-false : ¬ (true ≡ false)
true-ne-false h = cc

pub eq_of : (a b : String) → (a == b) ≡ true → a ≡ b
eq_of a b h = (eq_iff a b).0 h

-- a token is allowed by the hash of the actor, or by the hash of the founder
unfoldable pub ByHash : String → String → String → Type 0
ByHash sum scoped founder =
    (((scoped == "") ≡ false) × (sum ≡ scoped)) ⊎ ((is_blank founder ≡ false) × (sum ≡ founder))

if_true-eq-true : (b c : Bool) → (if b then true else c) ≡ true → (b ≡ true) ⊎ (c ≡ true)
if_true-eq-true true c h = inl refl
if_true-eq-true false c h = inr h

if_false-eq-true : (b c : Bool) → (if b then false else c) ≡ true → (b ≡ false) × (c ≡ true)
if_false-eq-true true c h = cc
if_false-eq-true false c h = (refl, h)

matches-ByHash :
    (sum scoped : String) (config : AuthConfig)
    → matches sum scoped config ≡ true
    → ByHash sum scoped config.write_token_hash
unfolding matches ByHash
matches-ByHash sum scoped config h = elim (if_true-eq-true _ _ h) [
  | inl both ↦
      let (named, same) = and-eq-true _ _ both in inl (not-eq-true _ named, eq_of sum scoped same)
  | inr rest ↦
      let (held, same) = if_false-eq-true _ _ rest in
      inr (held, eq_of sum config.write_token_hash same)
]

-- what allowed a token, where writes need one
unfoldable pub Authorized : (String → String) → String → String → String → AuthConfig → Type 0
Authorized hash_token variable token candidate config =
    (auth_enabled config ≡ false)
    ⊎ ByHash (hash_token (trim_space token))
        (trim_space
          (hash_of (resolve_actor variable candidate) (hashes config.scoped_token_hashes)))
        config.write_token_hash

-- A token that authorize allows, where writes need one, has the hash that is kept for its actor or
-- for the founder, and that hash is not blank.
pub authorize-Authorized :
    (hash_token : String → String) (variable token candidate : String) (config : AuthConfig)
    → authorize hash_token variable token candidate config ≡ true
    → Authorized hash_token variable token candidate config
unfolding authorize Authorized
authorize-Authorized hash_token variable token candidate config h = elim (if_true-eq-true _ _ h) [
  | inl off ↦ inl (not-eq-true _ off)
  | inr on ↦ inr (matches-ByHash _ _ config on)
]

-- what crypto/sha256 and encoding/hex give: no blank text, and no space around it
unfoldable pub IsHash : (String → String) → Type 0
IsHash hash_token =
    (t : String) → (trim_space (hash_token t) ≡ hash_token t) × (is_blank (hash_token t) ≡ false)

if-true : (b c : Bool) → c ≡ true → (if b then true else c) ≡ true
if-true true c h = refl
if-true false c h = h

pub if-elim :
    (P : AuthConfig → Type 0) (b : Bool) (x y : AuthConfig)
    → (b ≡ true → P x)
    → (b ≡ false → P y)
    → P (if b then x else y)
if-elim P true x y f g = f refl
if-elim P false x y f g = g refl

blank_empty : is_blank "" ≡ true
unfolding is_blank
blank_empty = refl

named_of_held : (s : String) → is_blank s ≡ false → (s == "") ≡ false
named_of_held s held = elim (Bool-cases (s == "")) [
  | inl empty ↦
      elim (true-ne-false (sym blank_empty ∙ sym (ap is_blank (eq_of s "" empty)) ∙ held)) [ ]
  | inr named ↦ named
]

matches_scoped :
    (sum scoped : String) (config : AuthConfig)
    → is_blank sum ≡ false
    → sum ≡ scoped
    → matches sum scoped config ≡ true
unfolding matches
matches_scoped sum scoped config held same =
    subst (λ t. matches sum t config ≡ true) same (rw (named_of_held sum held, ==_refl sum))

matches_founder :
    (sum scoped : String) (config : AuthConfig)
    → is_blank config.write_token_hash ≡ false
    → sum ≡ config.write_token_hash
    → matches sum scoped config ≡ true
unfolding matches
matches_founder sum scoped config held same =
    if-true (not (scoped == "") && sum == scoped)
      (if is_blank config.write_token_hash then false else sum == config.write_token_hash)
      (rw (held, same, ==_refl config.write_token_hash))

hash_of-put : (key h : String) (hs : Hashes) → hash_of key (put_hash key h hs) ≡ h
unfolding hash_of put_hash
hash_of-put key h hs = rw (==_refl key)

abbrev pub founder_set : AuthConfig → String → Time → AuthConfig
founder_set config sum now = record config { write_token_hash = sum; auth_updated_at = some now }

abbrev pub actor_set : AuthConfig → String → String → Time → AuthConfig
actor_set config actor sum now = record config {
  scoped_token_hashes = some (put_hash actor sum (hashes config.scoped_token_hashes));
  auth_updated_at = some now;
}

-- what a change of the token makes of the configuration
pub set_token-parts :
    (hash_token : String → String) (variable token candidate : String) (now : Time)
    (config next : AuthConfig) (P : AuthConfig → Type 0)
    → set_token hash_token variable token candidate now config ≡ ok next
    → ((resolve_actor variable candidate == "founder") ≡ true
        → P (record config {
          write_token_hash = hash_token (trim_space token);
          auth_updated_at = some now;
        }))
    → ((resolve_actor variable candidate == "founder") ≡ false
        → P (record config {
          scoped_token_hashes = some (
              put_hash
                (resolve_actor variable candidate)
                (hash_token (trim_space token))
                (hashes config.scoped_token_hashes));
          auth_updated_at = some now;
        }))
    → P next
unfolding set_token
set_token-parts hash_token variable token candidate now config next P h f g =
    let (_, h1) = reject_if-eq-ok (trim_space token == "") "write token is required" _ h in
    subst P (ok_inj h1) (if-elim P (resolve_actor variable candidate == "founder") _ _ f g)

-- the actor's own hash allows its token
pub authorize_of_hash :
    (hash_token : String → String) (variable token candidate : String) (config : AuthConfig)
    → IsHash hash_token
    → hash_of (resolve_actor variable candidate) (hashes config.scoped_token_hashes)
      ≡ hash_token (trim_space token)
    → authorize hash_token variable token candidate config ≡ true
unfolding authorize IsHash
authorize_of_hash hash_token variable token candidate config clean kept =
    let (trimmed, held) = clean (trim_space token) in
    let scoped =
      trim_space (hash_of (resolve_actor variable candidate) (hashes config.scoped_token_hashes)) in
    if-true (not (auth_enabled config)) _ (
      matches_scoped (hash_token (trim_space token)) scoped config held
        (sym (ap trim_space kept ∙ trimmed)))

-- what the store holds for an actor after a change by the actor
pub hash_of-set_token :
    (hash_token : String → String) (variable token candidate : String) (now : Time)
    (config next : AuthConfig)
    → set_token hash_token variable token candidate now config ≡ ok next
    → (resolve_actor variable candidate == "founder") ≡ false
    → hash_of (resolve_actor variable candidate) (hashes next.scoped_token_hashes)
      ≡ hash_token (trim_space token)
hash_of-set_token hash_token variable token candidate now config next h other =
    let sum = hash_token (trim_space token) in
    let actor = resolve_actor variable candidate in
    set_token-parts hash_token variable token candidate now config next
      (λ c. hash_of actor (hashes c.scoped_token_hashes) ≡ sum) h
      (λ founder. elim (true-ne-false (sym founder ∙ other)) [ ])
      (λ scoped. hash_of-put actor sum (hashes config.scoped_token_hashes))

-- what the store holds for the actors after a change by the founder
pub founder-hashes :
    (hash_token : String → String) (variable token candidate : String) (now : Time)
    (config next : AuthConfig)
    → set_token hash_token variable token candidate now config ≡ ok next
    → (resolve_actor variable candidate == "founder") ≡ true
    → next.scoped_token_hashes ≡ config.scoped_token_hashes
founder-hashes hash_token variable token candidate now config next h is_founder =
    set_token-parts hash_token variable token candidate now config next
      (λ c. c.scoped_token_hashes ≡ config.scoped_token_hashes) h (λ founder. refl)
      (λ other. elim (true-ne-false (sym is_founder ∙ other)) [ ])

-- With such a hash, a token that setToken accepts for an actor is one that authorize allows for the
-- actor.
pub set_token-authorize :
    (hash_token : String → String) (variable token candidate : String) (now : Time)
    (config next : AuthConfig)
    → IsHash hash_token
    → set_token hash_token variable token candidate now config ≡ ok next
    → authorize hash_token variable token candidate next ≡ true
unfolding authorize IsHash
set_token-authorize hash_token variable token candidate now config next clean h =
    let sum = hash_token (trim_space token) in
    let actor = resolve_actor variable candidate in
    set_token-parts hash_token variable token candidate now config next
      (λ c. authorize hash_token variable token candidate c ≡ true) h
      (λ founder. if-true (not (auth_enabled (founder_set config sum now))) _ (
        matches_founder sum (trim_space (hash_of actor (hashes config.scoped_token_hashes)))
          (founder_set config sum now) (clean (trim_space token)).1 refl))
      (λ scoped.
        authorize_of_hash hash_token variable token candidate (actor_set config actor sum now) clean
          (hash_of-put actor sum (hashes config.scoped_token_hashes)))
