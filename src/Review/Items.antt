-- ===== src/Review/Items.antt =====
-- internal/runtime/review_room_item.go: an item is normalised wherever it comes in.
use layeros.Base.{
  String, Bool, true, false, ◌&&◌, Option, none, some, List, [], ◌∷◌, map, is_none, if◌then◌else◌,
  ◌==◌,
}
use layeros.Text.{trim_space, is_blank, to_lower, seen}
use layeros.Types.Vocabulary.{Time, is_zero}
use layeros.Types.Review.{
  normalize_review_action, ReviewRoomRationale, ReviewRoomResolution, ReviewRoomItem,
}

unfoldable pub normalize_optional : Option String → Option String
normalize_optional none = none
normalize_optional (some s) = if is_blank s then none else some (trim_space s)

unfoldable pub evidence_from : List String → List String → List String
evidence_from keys [] = []
evidence_from keys (item ∷ rest) =
    let value = trim_space item in
    let skipped = evidence_from keys rest in
    let kept = value ∷ evidence_from (value ∷ keys) rest in
    if is_blank item then skipped else if seen value keys then skipped else kept

unfoldable pub normalize_evidence : List String → List String
unfolding evidence_from
normalize_evidence evidence = evidence_from [] evidence

unfoldable pub normalize_rationale : Option ReviewRoomRationale → Option ReviewRoomRationale
normalize_rationale none = none
normalize_rationale (some r) =
    if is_blank r.trigger && is_blank r.reason && is_blank r.rule
    then none
    else some (record {
      trigger = trim_space r.trigger;
      reason = trim_space r.reason;
      rule = trim_space r.rule;
    })

-- the action of a resolution: a word of the three, or the trimmed lower-case text
unfoldable pub resolution_action : String → String
resolution_action action =
    let word = normalize_review_action action in
    if word == "" then trim_space (to_lower action) else word

abbrev pub no_items {ℓ} : {A : Type ℓ} → List A → Bool
no_items [] = true
no_items (_ ∷ _) = false

unfoldable pub normalize_resolution : Option ReviewRoomResolution → Option ReviewRoomResolution
unfolding resolution_action normalize_evidence
normalize_resolution none = none
normalize_resolution (some r) =
    let action = resolution_action r.action in
    let evidence = normalize_evidence r.evidence in
    if action == "" && is_blank r.reason && is_blank r.rule && no_items evidence
    then none
    else some (record {
      action = action;
      reason = trim_space r.reason;
      rule = trim_space r.rule;
      evidence = evidence;
      resolved_at = r.resolved_at;
    })

-- `contradictions` is filled from a single `contradiction`, and the other way round
unfoldable pub fill_many : Option String → List String → List String
fill_many (some c) [] = trim_space c ∷ []
fill_many _ cs = cs

unfoldable pub fill_one : Option String → List String → Option String
unfolding normalize_optional
fill_one none (c ∷ []) = normalize_optional (some c)
fill_one one _ = one

-- `if item.F = strings.TrimSpace(item.F); item.F == "" { item.F = other }`
unfoldable pub text_or : String → String → String
text_or s other = if is_blank s then other else trim_space s

unfoldable pub time_or : Time → Time → Time
time_or t other = if is_zero t then other else t

unfoldable pub normalize_item : Time → ReviewRoomItem → ReviewRoomItem
unfolding normalize_optional normalize_evidence normalize_rationale normalize_resolution fill_many
    fill_one text_or time_or
normalize_item now item =
    let one = normalize_optional item.contradiction in
    let many = fill_many one (normalize_evidence item.contradictions) in
    record {
      text = trim_space item.text;
      kind = text_or item.kind "agenda";
      severity = text_or item.severity "medium";
      source = text_or item.source "manual";
      ref = normalize_optional item.ref;
      why = trim_space item.why;
      why_unresolved = normalize_optional item.why_unresolved;
      contradiction = fill_one one many;
      contradictions = many;
      pattern_refs = normalize_evidence item.pattern_refs;
      rationale = normalize_rationale item.rationale;
      resolution = normalize_resolution item.resolution;
      evidence = normalize_evidence item.evidence;
      created_at = time_or item.created_at now;
      updated_at = time_or item.updated_at (time_or item.created_at now);
    }

-- `normalizeReviewRoomItems`, whose items are copies by `cloneReviewRoomItem`
unfoldable pub normalize_items : Time → List ReviewRoomItem → List ReviewRoomItem
normalize_items now = map (normalize_item now)

unfoldable pub new_structured_item :
    Time
    → String
    → String
    → String
    → String
    → Option String
    → Option ReviewRoomRationale
    → List String
    → ReviewRoomItem
unfolding normalize_item
new_structured_item now text kind severity source ref rationale evidence =
    normalize_item now (record {
      text = text;
      kind = kind;
      severity = severity;
      source = source;
      ref = ref;
      why = "";
      why_unresolved = none;
      contradiction = none;
      contradictions = [];
      pattern_refs = [];
      rationale = rationale;
      resolution = none;
      evidence = evidence;
      created_at = 0;
      updated_at = 0;
    })

reason_of : Option ReviewRoomResolution → Option String
reason_of none = none
reason_of (some r) = some r.reason

unfoldable pub stamp_deferred_why_unresolved : Time → ReviewRoomItem → ReviewRoomItem
unfolding normalize_item reason_of
stamp_deferred_why_unresolved now raw =
    let item = normalize_item now raw in
    if is_none item.why_unresolved
    then normalize_item now
        (record item { why_unresolved = normalize_optional (reason_of item.resolution) })
    else item
