-- ===== src/Types/Vocabulary.antt =====
-- internal/runtime/types.go, types_jobs.go, types_workflow.go: the words that the fields hold, and
-- the tests that the Validate methods share. A `time.Time` is its nanoseconds from the zero time.
use Prim.Native.Char.{code}
use layeros.Base.{
  ℕ, String, Bool, true, false, not, ◌&&◌, ◌||◌, Option, none, some, List, [], ◌∷◌, Result, ok,
  ◌>>◌, eqb, ◌==◌, if◌then◌else◌,
}
use layeros.Text.{trim_space, is_blank}
use layeros.Json.{Fields, validate_object}

abbrev pub Time : Type 0
Time = ℕ

-- `t.IsZero()`, and `t == nil || t.IsZero()`
abbrev pub is_zero : Time → Bool
is_zero t = eqb t 0

abbrev pub no_time : Option Time → Bool
no_time none = true
no_time (some t) = is_zero t

-- `s != nil && strings.TrimSpace(*s) == ""`, and `s == nil || strings.TrimSpace(*s) == ""`
abbrev pub some_blank : Option String → Bool
some_blank none = false
some_blank (some s) = is_blank s

abbrev pub no_text : Option String → Bool
no_text none = true
no_text (some s) = is_blank s

-- A slice that may be nil, as the items that a loop over it meets.
abbrev pub items {ℓ} : {A : Type ℓ} → Option (List A) → List A
items none = []
items (some xs) = xs

unfoldable pub blank_among : List String → Bool
blank_among [] = false
blank_among (s ∷ ss) = is_blank s || blank_among ss

unfoldable pub any_blank : Option (List String) → Bool
unfolding blank_among
any_blank xs = blank_among (items xs)

-- `len(xs) == 0`
abbrev pub has_none {ℓ} : {A : Type ℓ} → Option (List A) → Bool
has_none none = true
has_none (some []) = true
has_none (some (_ ∷ _)) = false

-- `validateJSONObject` of a map that may be nil.
unfoldable pub validate_map : Option Fields → String → Result (Unit {0})
validate_map none path = ok tt
validate_map (some fs) path = validate_object fs path

unfoldable pub validate_each {ℓ} :
    {A : Type ℓ} → (A → Result (Unit {0})) → List A → Result (Unit {0})
validate_each check [] = ok tt
validate_each check (x ∷ xs) = check x >> validate_each check xs

unfoldable pub validate_some {ℓ} :
    {A : Type ℓ} → (A → Result (Unit {0})) → Option A → Result (Unit {0})
validate_some check none = ok tt
validate_some check (some x) = check x

-- `filepath.IsAbs` on unix, of the trimmed text
abbrev is_abs : String → Bool
is_abs String.[] = false
is_abs (String.◌∷◌ c _) = eqb (code c) b'/'

unfoldable pub first_is_abs : Option (List String) → Bool
first_is_abs (some (s ∷ _)) = is_abs (trim_space s)
first_is_abs _ = false

unfoldable pub some_relative : Option String → Bool
some_relative none = false
some_relative (some s) = not (is_blank s) && not (is_abs (trim_space s))

-- internal/runtime/policy_mode.go
unfoldable pub canonical_policy_mode : String → String
canonical_policy_mode value = if value == "dual" then "single" else value

unfoldable pub valid_stage : String → Bool
valid_stage value =
    value == "discover"
    || value == "compose"
    || value == "experience"
    || value == "verify"
    || value == "release"

unfoldable pub valid_surface : String → Bool
valid_surface value = value == "cockpit" || value == "telegram" || value == "api"

unfoldable pub valid_proposal_status : String → Bool
valid_proposal_status value = value == "proposed" || value == "promoted" || value == "deferred"

unfoldable pub valid_agent_job_status : String → Bool
valid_agent_job_status value =
    value == "queued"
    || value == "running"
    || value == "succeeded"
    || value == "failed"
    || value == "canceled"

unfoldable pub valid_agent_job_terminal_status : String → Bool
valid_agent_job_terminal_status value =
    value == "succeeded" || value == "failed" || value == "canceled"

unfoldable pub valid_branch_status : String → Bool
valid_branch_status value = value == "active" || value == "merged" || value == "archived"

unfoldable pub valid_preflight_status : String → Bool
valid_preflight_status value =
    value == "ready" || value == "degraded-lite" || value == "needs_clarification"

unfoldable pub valid_preflight_decision : String → Bool
valid_preflight_decision value = value == "go" || value == "hold"

unfoldable pub valid_policy_scale : String → Bool
valid_policy_scale value = value == "low" || value == "medium" || value == "high"

unfoldable pub valid_token_class : String → Bool
valid_token_class value =
    value == "tiny" || value == "small" || value == "medium" || value == "large"

unfoldable pub valid_policy_mode : String → Bool
unfolding canonical_policy_mode
valid_policy_mode value =
    let mode = canonical_policy_mode value in
    mode == "local" || mode == "single" || mode == "blocked"

unfoldable pub valid_gateway_status : String → Bool
valid_gateway_status value = value == "recorded" || value == "sent" || value == "failed"

unfoldable pub valid_execute_status : String → Bool
valid_execute_status value = value == "recorded" || value == "succeeded" || value == "failed"

unfoldable pub valid_verification_status : String → Bool
valid_verification_status value = value == "passed" || value == "failed"

unfoldable pub valid_rollback_status : String → Bool
valid_rollback_status value = value == "recorded" || value == "succeeded" || value == "failed"

unfoldable pub valid_flow_status : String → Bool
valid_flow_status value =
    value == "active"
    || value == "waiting"
    || value == "released"
    || value == "rolled_back"
    || value == "blocked"

unfoldable pub valid_approval_status : String → Bool
valid_approval_status value = value == "pending" || value == "approved" || value == "rejected"

unfoldable pub valid_deploy_status : String → Bool
valid_deploy_status value = value == "succeeded" || value == "failed"
