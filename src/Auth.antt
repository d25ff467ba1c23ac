-- ===== src/Auth.antt =====
-- internal/runtime/auth.go, operator_identity.go: tokens that allow writes. Of a token only its hash is
-- kept; the hash is a parameter, as is the text of the variable LAYER_OS_DEFAULT_ACTOR. The map of
-- scoped hashes is a list of pairs, or none for Go's nil map. Actors' names are taken to be ASCII text:
-- the lower case of other letters is left aside.
pub mod Authorize
pub mod Others
use layeros.Base.{
  String, Bool, true, false, not, ◌&&◌, ◌||◌, Option, none, some, List, [], ◌∷◌, Result, ok, ◌>>◌,
  reject_if, if◌then◌else◌, ◌==◌,
}
use layeros.Text.{trim_space, to_lower, is_blank}
use layeros.Types.Vocabulary.{Time}
use layeros.State.{AuthConfig}

abbrev pub Hashes : Type 0
Hashes = List (String × String)

-- the pairs of a map
abbrev pub hashes : Option Hashes → Hashes
hashes none = []
hashes (some hs) = hs

unfoldable pub normalize_actor : String → String
normalize_actor raw =
    let value = trim_space (to_lower raw) in
    if value == "layer-osctl" || value == "layer-osd" || value == "" then "" else value

unfoldable pub default_actor : String → String
unfolding normalize_actor
default_actor variable =
    let actor = normalize_actor variable in if actor == "" then "system" else actor

-- `ResolveActor` on one candidate
unfoldable pub resolve_actor : String → String → String
unfolding normalize_actor default_actor
resolve_actor variable candidate =
    let actor = normalize_actor candidate in if actor == "" then default_actor variable else actor

-- what a map holds under a key, or the empty text
unfoldable pub hash_of : String → Hashes → String
hash_of key [] = ""
hash_of key ((k, h) ∷ hs) = let rest = hash_of key hs in if k == key then h else rest

unfoldable pub delete_hash : String → Hashes → Hashes
delete_hash key [] = []
delete_hash key ((k, h) ∷ hs) =
    let rest = delete_hash key hs in if k == key then rest else (k, h) ∷ rest

unfoldable pub put_hash : String → String → Hashes → Hashes
unfolding delete_hash
put_hash key h hs = (key, h) ∷ delete_hash key hs

unfoldable pub any_hash : Hashes → Bool
any_hash [] = false
any_hash ((k, h) ∷ hs) = not (is_blank h) || any_hash hs

unfoldable pub auth_enabled : AuthConfig → Bool
unfolding any_hash
auth_enabled config =
    not (is_blank config.write_token_hash) || any_hash (hashes config.scoped_token_hashes)

-- the test of the hash of a token against the hashes that are kept
unfoldable pub matches : String → String → AuthConfig → Bool
matches sum scoped config =
    if not (scoped == "") && sum == scoped
    then true
    else if is_blank config.write_token_hash
    then false
    else sum == config.write_token_hash

unfoldable pub non_empty : Hashes → Option Hashes
non_empty [] = none
non_empty (h ∷ hs) = some (h ∷ hs)

-- a delete from a map that may be nil, and that is nil again where nothing is left
unfoldable pub clear_hash : String → Option Hashes → Option Hashes
unfolding delete_hash non_empty
clear_hash actor none = none
clear_hash actor (some hs) = non_empty (delete_hash actor hs)

unfoldable pub clear_token : String → String → Time → AuthConfig → AuthConfig
unfolding resolve_actor clear_hash
clear_token variable candidate updated_at config =
    let actor = resolve_actor variable candidate in
    if actor == "founder"
    then record config { write_token_hash = ""; auth_updated_at = some updated_at }
    else record config {
      scoped_token_hashes = clear_hash actor config.scoped_token_hashes;
      auth_updated_at = some updated_at;
    }

module _ (hash_token : String → String) (variable : String) where
  unfoldable pub set_token : String → String → Time → AuthConfig → Result AuthConfig
  unfolding resolve_actor put_hash
  set_token raw candidate updated_at config =
      let token = trim_space raw in
      let actor = resolve_actor variable candidate in
      reject_if (token == "") "write token is required"
      >> ok (
          if actor == "founder"
          then record config {
            write_token_hash = hash_token token;
            auth_updated_at = some updated_at;
          }
          else record config {
            scoped_token_hashes =
                some (put_hash actor (hash_token token) (hashes config.scoped_token_hashes));
            auth_updated_at = some updated_at;
          })

  unfoldable pub authorize : String → String → AuthConfig → Bool
  unfolding resolve_actor hash_of auth_enabled matches
  authorize token candidate config =
      let sum = hash_token (trim_space token) in
      let scoped =
        trim_space
          (hash_of (resolve_actor variable candidate) (hashes config.scoped_token_hashes)) in
      if not (auth_enabled config) then true else matches sum scoped config
