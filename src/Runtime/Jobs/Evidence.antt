-- ===== src/Runtime/Jobs/Evidence.antt =====
-- internal/runtime/service_job_report.go: what a report says of paths, and its check against the job
-- and the repository.
pub mod Backed
pub mod Named
use Prim.Native.Char.{code}
use package.text.Mathlib.Text.{starts_with}
use layeros.Base.{
  ◌+◌, String, ◌≡◌, refl, Bool, true, false, not, ◌&&◌, ◌||◌, Option, some, none, List, [], ◌∷◌,
  ◌++◌, Result, ok, ◌>>◌, reject_if, if◌then◌else◌, ◌==◌, eqb,
}
use layeros.Text.{◌<>◌, trim_space}
use layeros.Json.{Value, array, Items, nil, cons, Fields, get}
use layeros.Files.{is_abs, clean, rel, path_within_any_prefix}
use layeros.Types.Jobs.{AgentJob}
use layeros.Runtime.Jobs.{result_string}

-- What a report's check takes from outside.
pub record Repo : Type 0 where
  pub root : String  -- `repoRootFromEnv()`
  pub exists : String → Bool  -- whether os.Stat answers no error
  pub quote : String → String  -- `%q`

strings_of : Items → List String
unfolding result_string
strings_of nil = []
strings_of (cons v items) =
    let rest = strings_of items in
    let trimmed = trim_space (result_string (some v)) in
    if trimmed == "" then rest else trimmed ∷ rest

-- `resultStringList`
unfoldable pub result_string_list : Option Value → List String
unfolding strings_of
result_string_list (some (array items)) = strings_of items
result_string_list _ = []

-- `payloadStringList`
unfoldable pub payload_string_list : Option Fields → String → List String
unfolding result_string_list
payload_string_list none key = []
payload_string_list (some payload) key = result_string_list (get key payload)

pub data EvidenceKind : Type 0 where
  repo abs : EvidenceKind

abbrev kind_text : EvidenceKind → String
kind_text repo = "repo"
kind_text abs = "abs"

pub record PathEvidence : Type 0 where
  pub raw : String
  pub path : String
  pub kind : EvidenceKind

-- `strings.Contains(s, "/")`
has_slash : String → Bool
has_slash String.[] = false
has_slash (String.◌∷◌ c s) = eqb (code c) b'/' || has_slash s

-- `strings.TrimPrefix(s, "./")`, where the text has the prefix
after_two : String → String
after_two (String.◌∷◌ _ (String.◌∷◌ _ s)) = s
after_two s = s

abbrev trim_dot : String → String
unfolding after_two
trim_dot path = if starts_with path "./" then after_two path else path

abbrev is_outside : String → Bool
is_outside path = path == "." || starts_with path "../"

abbrev names_record : String → Bool
names_record raw =
    starts_with raw "gateway_call:"
    || starts_with raw "verification:"
    || starts_with raw "event:"
    || starts_with raw "job:"

-- `classifyAgentJobPathEvidence` behind its TrimSpace
classified : String → Bool → Option PathEvidence
unfolding is_abs clean has_slash after_two
classified raw repo_scoped =
    let path = clean raw in
    let short = trim_dot path in
    if raw == "" || names_record raw
    then none
    else if is_abs raw
    then some (record { raw = raw; path = path; kind = abs })
    else if repo_scoped
    then if is_outside path then none else some (record { raw = raw; path = path; kind = repo })
    else if is_outside short
    then none
    else if has_slash short
    then some (record { raw = raw; path = short; kind = repo })
    else none

unfoldable pub classify_path_evidence : String → Bool → Option PathEvidence
unfolding classified
classify_path_evidence raw repo_scoped = classified (trim_space raw) repo_scoped

abbrev pub key : PathEvidence → String
key ref = kind_text ref.kind <> "::" <> ref.path

unfoldable pub has_key : String → List PathEvidence → Bool
has_key k [] = false
has_key k (ref ∷ refs) = key ref == k || has_key k refs

unfoldable pub added : Option PathEvidence → List PathEvidence → List PathEvidence
unfolding has_key
added none refs = refs
added (some ref) refs = if has_key (key ref) refs then refs else refs ++ ref ∷ []

unfoldable pub add_each : List String → Bool → List PathEvidence → List PathEvidence
unfolding added classify_path_evidence
add_each [] repo_scoped refs = refs
add_each (raw ∷ raws) repo_scoped refs =
    add_each raws repo_scoped (added (classify_path_evidence raw repo_scoped) refs)

-- `collectAgentJobPathEvidence`
unfoldable pub collect_path_evidence : Fields → List PathEvidence
unfolding add_each result_string_list result_string
collect_path_evidence result = add_each (result_string (get "artifact_path" result) ∷ []) false (
    add_each (result_string (get "artifact_relative_path" result) ∷ []) true (
      add_each (result_string_list (get "artifact_relative_paths" result)) true (
        add_each (result_string_list (get "touched_paths" result)) true
          (add_each (result_string_list (get "changed_paths" result)) true []))))

-- `absolutePathWithinAllowed` and `absolutePathMatchesBlocked` on the relative path
unfoldable pub relative_within : Option String → List String → Bool
unfolding path_within_any_prefix
relative_within none prefixes = false
relative_within (some path) prefixes =
    not (starts_with path "..") && path_within_any_prefix path prefixes

unfoldable pub absolute_within : String → String → List String → Bool
unfolding relative_within rel
absolute_within path root prefixes = relative_within (rel root path) prefixes

-- `filepath.Join` of two elements
unfoldable pub join_path : String → String → String
unfolding clean
join_path root path =
    if root == ""
    then if path == "" then "" else clean path
    else if path == ""
    then clean root
    else clean (root <> "/" <> path)

abbrev pub some_prefix : List String → Bool
some_prefix [] = false
some_prefix (_ ∷ _) = true

-- one turn of the loop of `validateAgentJobPathEvidence`
unfoldable pub validate_ref :
    Repo → List String → List String → PathEvidence → EvidenceKind → Result (Unit {0})
unfolding path_within_any_prefix absolute_within join_path
validate_ref disk allowed blocked ref repo = do
  reject_if (some_prefix allowed && not (path_within_any_prefix ref.path allowed))
      ("job report succeeded path " <> disk.quote ref.raw <> " is outside allowed_paths")
  reject_if (path_within_any_prefix ref.path blocked)
      ("job report succeeded path " <> disk.quote ref.raw <> " is inside blocked_paths")
  reject_if (not (disk.exists (join_path disk.root ref.path)))
      ("job report succeeded path " <> disk.quote ref.raw <> " does not exist under repo root")
validate_ref disk allowed blocked ref abs = do
  reject_if (some_prefix allowed && not (absolute_within ref.path disk.root allowed))
      ("job report succeeded absolute path " <> disk.quote ref.raw <> " is outside allowed_paths")
  reject_if (absolute_within ref.path disk.root blocked)
      ("job report succeeded absolute path " <> disk.quote ref.raw <> " is inside blocked_paths")
  reject_if (not (disk.exists ref.path))
      ("job report succeeded absolute path " <> disk.quote ref.raw <> " does not exist")

unfoldable pub validate_refs :
    Repo → List String → List String → List PathEvidence → Result (Unit {0})
unfolding validate_ref
validate_refs disk allowed blocked [] = ok tt
validate_refs disk allowed blocked (ref ∷ refs) =
    validate_ref disk allowed blocked ref ref.kind >> validate_refs disk allowed blocked refs

unfoldable pub validate_path_evidence : Repo → AgentJob → Fields → Result (Unit {0})
unfolding validate_refs collect_path_evidence payload_string_list
validate_path_evidence disk job result =
    validate_refs disk (payload_string_list job.payload "allowed_paths")
      (payload_string_list job.payload "blocked_paths") (collect_path_evidence result)

-- the parent of the root is taken for a path of the repository
parent_test :
    classify_path_evidence " .. " true ≡ some (record { raw = ".."; path = ".."; kind = repo })
unfolding classify_path_evidence trim_space layeros.Text.Parts.join layeros.Text.Parts.split
parent_test = refl

above_test : classify_path_evidence "../x" true ≡ none
unfolding classify_path_evidence trim_space layeros.Text.Parts.join layeros.Text.Parts.split
above_test = refl
